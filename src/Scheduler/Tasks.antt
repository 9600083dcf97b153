-- ===== src/Scheduler/Tasks.antt =====
-- kernel/scheduler.cc: tasks that join and leave the scheduler, and what the searches of the tree
-- find of them.
use mathlib.Core.List.{Perm, Mem, Nodup, Nodup-cons, mem-cons_of_mem, cons≢nil}
use mathlib.Core.List.Perm
use wwos.Prelude.{
  ℕ, ◌-◌, ◌≤◌, ◌≡◌, ◌≢◌, refl, sym, ap, ◌∙◌, subst, max, List, [], ◌∷◌, All, Option, none, some,
  ◌==◌, if◌then◌else◌, arith, Bool-cases, inl, inr, ==_false, ==_true,
}
use wwos.Avl.Sorted.{IsSorted}
use wwos.Avl.Remove.{remove-smallest, is_null-to_list}
use wwos.AvlTree
use wwos.AvlTree.{AvlTree}
use wwos.Scheduler.{
  Scheduler, TaskInfo, vruntime_of, set_vruntime, start_vruntime, start_if_idle, add_task,
  remove_task, leave,
}
use wwos.Scheduler.Ready.{
  active, together, pool, IsReady, IsSorted-congr, insert_sorted-perm, All-of_not-mem,
  set_vruntime-All, set_vruntime_self, insert_active_lem,
}
use wwos.Scheduler.Schedule.{schedule_fair, schedule-none}

-- The virtual runtime that a joining task is given is not larger than that of any task in the tree.
start_vruntime_total :
    (s : Scheduler)
    → IsReady s
    → (v : ℕ) × (start_vruntime s ≡ some v) × All (λ u. v ≤ vruntime_of s u) (active s)
unfolding start_vruntime AvlTree.empty
start_vruntime_total s r = by_list (active s) refl
  where
    by_list :
        (us : List ℕ)
        → active s ≡ us
        → (v : ℕ) × (start_vruntime s ≡ some v) × All (λ u. v ≤ vruntime_of s u) (active s)
    by_list [] e = (
      elim s.executing_task [ none ↦ 0 | some x ↦ max (s.tasks x).vruntime 1 - 1 ],
      rw (is_null-to_list s.active_tasks.root e),
      rw e tt,
    )
    by_list (t ∷ us) e =
        let (p, tree, n, f, g, i, j, k) = remove-smallest s.active_tasks.root t us e r.measured in
        let sorted = subst (IsSorted (vruntime_of s)) e r.sorted in
        (max (s.tasks t).vruntime 1 - 1, rw (n, f, g), rw e (omega arith, lower us sorted.0))
      where
        lower :
            (vs : List ℕ)
            → All (λ u. vruntime_of s t ≤ vruntime_of s u) vs
            → All (λ u. max (s.tasks t).vruntime 1 - 1 ≤ vruntime_of s u) vs
        lower [] a = tt
        lower (u ∷ vs) a = (omega (arith, a.0), lower vs a.1)

set_vruntime_eq :
    (tasks : ℕ → TaskInfo) (t v u : ℕ)
    → (set_vruntime tasks t v u).vruntime
      ≡ (if t == u then (set_vruntime tasks t v t).vruntime else (tasks u).vruntime)
set_vruntime_eq tasks t v u = elim (Bool-cases (t == u)) [
  | inl e ↦ rw (e, ==_true t t refl)
  | inr e ↦ rw e
]

together-perm :
    (o : Option ℕ) (t : ℕ) (us vs : List ℕ)
    → Perm us (t ∷ vs)
    → Perm (together o us) (t ∷ together o vs)
together-perm none t us vs p = p
together-perm (some e) t us vs p = Perm.trans (Perm.cons e p) (Perm.swap t e vs)

not-mem-together : (o : Option ℕ) (t : ℕ) (us : List ℕ) → ¬ Mem t (together o us) → ¬ Mem t us
not-mem-together none t us n = n
not-mem-together (some e) t us n = λ m. n (mem-cons_of_mem e m)

not-nil_of_perm : (t : ℕ) (us vs : List ℕ) → Perm us (t ∷ vs) → us ≢ []
not-nil_of_perm t us vs p e =
    cons≢nil {x = t} {xs = vs} (sym (Perm.nil-eq (subst (λ ws. Perm ws (t ∷ vs)) e p)))

-- The state once the task is in the tree, before a task is started.
record Joined (t : ℕ) (s s' : Scheduler) : Type 0 where
  ready : IsReady s'
  kept : Perm (pool s') (t ∷ pool s)
  same_executing : s'.executing_task ≡ s.executing_task
  first : All (λ u. vruntime_of s' t ≤ vruntime_of s' u) (active s)
  others : (u : ℕ) → vruntime_of s' u ≡ (if t == u then vruntime_of s' t else vruntime_of s u)

join_total :
    (now t : ℕ) (s : Scheduler)
    → IsReady s
    → ¬ Mem t (pool s)
    → (s' : Scheduler) × (add_task now t s ≡ start_if_idle s'.executing_task now s') × Joined t s s'
unfolding add_task
join_total now t s r n =
    let (v, e, low) = start_vruntime_total s r in
    let others = All-of_not-mem t (active s) (not-mem-together s.executing_task t (active s) n) in
    let same = set_vruntime-All s t v (active s) others in
    let s0 : Scheduler = record s { tasks = set_vruntime s.tasks t v } in
    let sorted = IsSorted-congr (vruntime_of s) (vruntime_of s0) (active s) same r.sorted in
    let (tree, f, g, h, i) = insert_active_lem t s0 sorted r.measured in
    let kept =
      together-perm s.executing_task t _ (active s)
        (rw g (insert_sorted-perm (vruntime_of s0) t (active s))) in
    (
      record s0 { active_tasks = tree },
      rw (e, f),
      record {
        ready = record {
          sorted = h;
          measured = i;
          distinct = Perm.nodup (Perm.symm kept) (Nodup-cons.1 (n, r.distinct));
        };
        kept = kept;
        same_executing = refl;
        first = below v (active s) same low;
        others = set_vruntime_eq s.tasks t v;
      },
    )
  where
    below :
        (v : ℕ) (us : List ℕ)
        → All (λ u. (set_vruntime s.tasks t v u).vruntime ≡ vruntime_of s u) us
        → All (λ u. v ≤ vruntime_of s u) us
        → All
            (λ u. (set_vruntime s.tasks t v t).vruntime ≤ (set_vruntime s.tasks t v u).vruntime)
            us
    below v [] a b = tt
    below v (u ∷ us) a b = (omega (arith, set_vruntime_self s t v, a.0, b.0), below v us a.1 b.1)

-- In a ready scheduler `add_task` of a new task, while another executes, adds it to the tasks, gives
-- it a virtual runtime not above those of the tasks that wait, and leaves the executing task and all
-- other virtual runtimes as they are; the scheduler stays ready.
pub add_task_running :
    (now t e : ℕ) (s : Scheduler)
    → IsReady s
    → ¬ Mem t (pool s)
    → s.executing_task ≡ some e
    → (s' : Scheduler) × (add_task now t s ≡ some s')
      × IsReady s'
      × Perm (pool s') (t ∷ pool s)
      × (s'.executing_task ≡ some e)
      × All (λ u. vruntime_of s' t ≤ vruntime_of s' u) (active s)
      × ((u : ℕ) → vruntime_of s' u ≡ (if t == u then vruntime_of s' t else vruntime_of s u))
unfolding start_if_idle
add_task_running now t e s r n x =
    let (s', f, j) = join_total now t s r n in
    let y = j.same_executing ∙ x in
    (s', f ∙ ap (λ o. start_if_idle o now s') y, j.ready, j.kept, y, j.first, j.others)

-- Where no task executes, `add_task` of a new task to a ready scheduler adds it and starts a task
-- with the least virtual runtime; it never stops the program and keeps the scheduler ready.
add_task_idle :
    (now t : ℕ) (s : Scheduler)
    → IsReady s
    → ¬ Mem t (pool s)
    → s.executing_task ≡ none
    → (s' : Scheduler) × (next : ℕ) × (add_task now t s ≡ some s')
      × IsReady s'
      × Perm (pool s') (t ∷ pool s)
      × (s'.executing_task ≡ some next)
      × All (λ u. vruntime_of s' next ≤ vruntime_of s' u) (active s')
unfolding start_if_idle
add_task_idle now t s r n x =
    let (s1, f, j) = join_total now t s r n in
    let y = j.same_executing ∙ x in
    let some_task = not-nil_of_perm t (pool s1) (pool s) j.kept in
    let (s', g, k) = schedule_fair now s1 j.ready some_task in
    (
      s',
      k.next,
      f ∙ ap (λ o. start_if_idle o now s1) y ∙ g,
      k.ready,
      Perm.trans k.kept j.kept,
      k.executing,
      k.first,
    )

-- In a ready scheduler where another task waits, `remove_task` of the executing task, of a process
-- other than 0, takes out this task alone, changes no field of a task, and executes a task with the
-- least virtual runtime; the scheduler stays ready.
pub remove_task_executing :
    (now t : ℕ) (s : Scheduler)
    → IsReady s
    → s.executing_task ≡ some t
    → (s.tasks t).pid ≢ 0
    → active s ≢ []
    → (s' : Scheduler) × (next : ℕ) × (remove_task now t s ≡ some s')
      × IsReady s'
      × Perm (t ∷ pool s') (pool s)
      × (s'.tasks ≡ s.tasks)
      × (s'.executing_task ≡ some next)
      × All (λ u. vruntime_of s' next ≤ vruntime_of s' u) (active s')
unfolding remove_task
remove_task_executing now t s r x p n =
    let s0 : Scheduler = record s { executing_task = none } in
    let pool_eq = ap (λ o. together o (active s)) x in
    let r0 : IsReady s0 = record {
      sorted = r.sorted;
      measured = r.measured;
      distinct = (Nodup-cons.0 (subst Nodup pool_eq r.distinct)).1;
    } in
    let (s', f, k) = schedule_fair now s0 r0 n in
    (
      s',
      k.next,
      rw (==_false (s.tasks t).pid 0 p)
          (ap (λ o. leave o now t s) x ∙ rw (==_true t t refl, leave) f),
      k.ready,
      rw pool_eq (Perm.cons t k.kept),
      k.tasks_eq,
      k.executing,
      k.first,
    )

-- `remove_task` of the executing task stops the kernel where no other task waits.
remove_task_last :
    (now t : ℕ) (s : Scheduler)
    → s.executing_task ≡ some t
    → active s ≡ []
    → remove_task now t s ≡ none
unfolding remove_task
remove_task_last now t s x e = elim (Bool-cases ((s.tasks t).pid == 0)) [
  | inl z ↦ rw z
  | inr z ↦ rw z (
      ap (λ o. leave o now t s) x
      ∙ rw (==_true t t refl, leave)
          (schedule-none now (record s { executing_task = none }) refl e))
]
