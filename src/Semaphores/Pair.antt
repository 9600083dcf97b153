-- ===== src/Semaphores/Pair.antt =====
-- kernel/process.cc: operations on a semaphore that undo each other.
use mathlib.Core.List.{Perm, Nodup, perm_middle, perm-append_left_iff}
use mathlib.Core.List.Perm
use wwos.Prelude.{
  ℕ, ◌+◌, ◌-◌, ◌^◌, ◌%◌, ◌≡◌, ◌≢◌, refl, sym, ap, ◌∙◌, subst, List, [], ◌∷◌, ◌++◌, Option, some,
  none, ◌==◌, ==_true, ==_eq, Bool-cases, inl, inr, if◌then◌else◌, length, arith,
}
use wwos.AvlTree.{AvlTree}
use wwos.Map.{MapKv}
use wwos.Map.Laws.{contents, insert_refines_update, remove_refines_update}
use wwos.Map.Laws
use wwos.Scheduler.Ready.{active, pool, IsReady}
use wwos.Semaphores.{
  Semaphore, Kernel, set_return_value, set_semaphore, create_semaphore, delete_semaphore,
  current_task_wait_semaphore, signal_by, current_task_signal_semaphore,
}
use wwos.Semaphores.Wait.{known, wait_blocks, Blocked}
use wwos.Semaphores.Signal.{AreTasks, take, drop, Woken, signal_wakes}

drop-zero : (ts : List ℕ) → drop 0 ts ≡ ts
drop-zero [] = refl
drop-zero (t ∷ ts) = refl

take-one : (t : ℕ) (ts : List ℕ) → take 1 (t ∷ ts) ≡ t ∷ []
take-one t [] = refl
take-one t (u ∷ ts) = refl

-- What the two leave, one after the other, in turn for the task `t`.
pub record Resumed (t p : ℕ) (k k' : Kernel) : Type 0 where
  pub ready : IsReady k'.scheduler
  pub same_pool : Perm (pool k'.scheduler) (pool k.scheduler)
  pub same_semaphore : k'.semaphores p ≡ k.semaphores p
  pub return_zero : k'.returned t ≡ some 0

signal_lem :
    (now id p t : ℕ) (ts : List ℕ) (k k' : Kernel)
    → Blocked t p k k'
    → IsReady k.scheduler
    → Laws.IsValid k.p_semaphores
    → contents id k.p_semaphores ≡ some p
    → Laws.IsValid k.p_tasks
    → contents (k.scheduler.tasks t).pid k.p_tasks ≡ some t
    → AreTasks k.p_tasks (k.semaphores p).waiting_tasks ts
    → Nodup (ts ++ pool k.scheduler)
    → (k.semaphores p).count ≡ 0
    → (k'' : Kernel) × (current_task_signal_semaphore now id k' ≡ some k'') × Resumed t p k k''
unfolding current_task_signal_semaphore
signal_lem now id p t ts k k' b r v e w y m d z =
    let waiting : (k'.semaphores p).waiting_tasks
        ≡ (k.scheduler.tasks t).pid ∷ (k.semaphores p).waiting_tasks =
      ap (λ (s : Semaphore). s.waiting_tasks) b.queued in
    let count : (k'.semaphores p).count ≡ 0 = ap (λ (s : Semaphore). s.count) b.queued ∙ z in
    let asleep : AreTasks k.p_tasks (k'.semaphores p).waiting_tasks (t ∷ ts) = rw waiting (y, m) in
    let (k2, f, woken) =
      signal_wakes now b.next p 1 (t ∷ ts) k' b.ready b.executing
        (subst Laws.IsValid (sym b.same_p_tasks) w)
        (subst (λ ps. AreTasks ps (k'.semaphores p).waiting_tasks (t ∷ ts)) (sym b.same_p_tasks)
          asleep)
        (Perm.nodup
          (Perm.trans (Perm.symm ((perm-append_left_iff ts).1 b.left))
            (perm_middle ts (pool k'.scheduler)))
          d)
        (omega arith) in
    let o : Woken b.next (t ∷ []) k' k2 =
      subst (λ us. Woken b.next us k' k2) (take-one t ts) woken in
    let (g, h) =
      known id p k'.p_semaphores (subst Laws.IsValid (sym b.same_semaphores) v)
        (rw b.same_semaphores e) in
    let drained : drop 1 (k'.semaphores p).waiting_tasks ≡ (k.semaphores p).waiting_tasks =
      ap (drop 1) waiting ∙ drop-zero (k.semaphores p).waiting_tasks in
    let counted : ((k'.semaphores p).count + (1 - length (k'.semaphores p).waiting_tasks)) % 2 ^ 64
        ≡ (k.semaphores p).count =
      omega (arith, count, z, ap length waiting) in
    (
      set_return_value b.next 0 (
          set_semaphore p
            (record {
              waiting_tasks = drop 1 (k'.semaphores p).waiting_tasks;
              count =
                  ((k'.semaphores p).count + (1 - length (k'.semaphores p).waiting_tasks)) % 2 ^ 64;
            })
            k2),
      ap (λ o. signal_by o now id k') b.executing ∙ rw (g, h, f),
      record {
        ready = o.ready;
        same_pool = Perm.trans o.joined b.left;
        same_semaphore =
            rw (==_true p p refl) (λ i. record { waiting_tasks = drained i; count = counted i });
        return_zero = elim (Bool-cases (b.next == t)) [
          | inl u ↦ rw u
          | inr u ↦ rw u (ap (λ (f : ℕ → Option ℕ). f t) o.returns ∙ rw (==_true t t refl))
        ];
      },
    )

-- At a semaphore with count zero: the executing task, of a process other than 0, waits, so that
-- another that is ready executes, and that one signals. Then the ready tasks are those of before, the
-- semaphore is as before, and the task that waited is ready again and returns 0. Neither call stops
-- the kernel. The maps of semaphores and tasks are valid and know the two; the other tasks that wait
-- there are known, different, and not ready.
pub signal-wait :
    (now id p t : ℕ) (ts : List ℕ) (k : Kernel)
    → IsReady k.scheduler
    → k.scheduler.executing_task ≡ some t
    → (k.scheduler.tasks t).pid ≢ 0
    → active k.scheduler ≢ []
    → Laws.IsValid k.p_semaphores
    → contents id k.p_semaphores ≡ some p
    → (k.semaphores p).count ≡ 0
    → Laws.IsValid k.p_tasks
    → contents (k.scheduler.tasks t).pid k.p_tasks ≡ some t
    → AreTasks k.p_tasks (k.semaphores p).waiting_tasks ts
    → Nodup (ts ++ pool k.scheduler)
    → (k' k'' : Kernel) × (current_task_wait_semaphore now id k ≡ some k')
      × (current_task_signal_semaphore now id k' ≡ some k'')
      × Resumed t p k k''
signal-wait now id p t ts k r x n a v e z w y m d =
    let (k', f, b) = wait_blocks now id p t k r x n a v e (rw z) in
    let (k'', g, o) = signal_lem now id p t ts k k' b r v e w y m d z in (k', k'', f, g, o)

-- A semaphore that is created under a number that was free, and then deleted, leaves the numbers of
-- the semaphores as they were, and both calls succeed.
delete-create :
    (fresh init : ℕ) (k : Kernel)
    → Laws.IsValid k.p_semaphores
    → contents k.semaphore_counter k.p_semaphores ≡ none
    → (k' k'' : Kernel) × (create_semaphore fresh init k ≡ some (k.semaphore_counter, k'))
      × (contents k.semaphore_counter k'.p_semaphores ≡ some fresh)
      × (delete_semaphore k.semaphore_counter k' ≡ some (0, k''))
      × ((id : ℕ) → contents id k''.p_semaphores ≡ contents id k.p_semaphores)
unfolding create_semaphore delete_semaphore
delete-create fresh init k v e =
    let id = k.semaphore_counter in
    let (m, f, vm, inserted) = insert_refines_update 0 id fresh k.p_semaphores v e in
    let found : contents id m ≡ some fresh = inserted id ∙ rw (==_true id id refl) in
    let (m', g, vm', removed) = remove_refines_update 0 id m vm found in
    let (get, has) = known id fresh m vm found in
    let k' =
      set_semaphore fresh (record { waiting_tasks = []; count = init })
        (record k { p_semaphores = m; semaphore_counter = (id + 1) % 2 ^ 64 }) in
    (
      k',
      record k' { p_semaphores = m' },
      rw f,
      found,
      rw (has, get, ==_true fresh fresh refl, g),
      λ j. removed j ∙ back id m e inserted j,
    )
  where
    back :
        (id : ℕ) (m : AvlTree (MapKv ℕ))
        → contents id k.p_semaphores ≡ none
        → ((j : ℕ) → contents j m ≡ (if id == j then some fresh else contents j k.p_semaphores))
        → (j : ℕ) → (if id == j then none else contents j m) ≡ contents j k.p_semaphores
    back id m absent inserted j = elim (Bool-cases (id == j)) [
      | inl u ↦ rw u (sym absent ∙ ap (λ i. contents i k.p_semaphores) (==_eq id j u))
      | inr u ↦ rw u (inserted j ∙ rw u)
    ]
