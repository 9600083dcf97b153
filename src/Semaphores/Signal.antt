-- ===== src/Semaphores/Signal.antt =====
-- kernel/process.cc: `signal_semaphore`, which wakes tasks that wait.
use mathlib.Core.List.{Perm, Nodup, Nodup-cons, mem-append_right, perm_middle, perm-append_left_iff}
use mathlib.Core.List.Perm
use wwos.Prelude.{
  ℕ, zero, suc, ◌+◌, ◌-◌, ◌^◌, ◌%◌, ◌≡◌, ◌≢◌, refl, ap, ◌∙◌, List, [], ◌∷◌, ◌++◌, true, Option,
  some, ◌==◌, ==_false, if◌then◌else◌, length, arith,
}
use wwos.AvlTree.{AvlTree}
use wwos.Map.{MapKv}
use wwos.Map.Laws.{contents}
use wwos.Map.Laws
use wwos.Scheduler.Ready.{pool, IsReady}
use wwos.Scheduler.Tasks.{add_task_running}
use wwos.Semaphores.{Kernel, set_return_value, set_semaphore, wake, signal_semaphore}
use wwos.Semaphores.Wait.{known}

-- The tasks that the processes in the list are.
abbrev pub AreTasks : AvlTree (MapKv ℕ) → List ℕ → List ℕ → Type 0
AreTasks m [] [] = Unit
AreTasks m [] (t ∷ ts) = ⊥
AreTasks m (pid ∷ pids) [] = ⊥
AreTasks m (pid ∷ pids) (t ∷ ts) = (contents pid m ≡ some t) × AreTasks m pids ts

abbrev pub take : ℕ → List ℕ → List ℕ
take n [] = []
take zero (t ∷ ts) = []
take (suc n) (t ∷ ts) = t ∷ take n ts

abbrev pub drop : ℕ → List ℕ → List ℕ
drop n [] = []
drop zero (t ∷ ts) = t ∷ ts
drop (suc n) (t ∷ ts) = drop n ts

-- The return values with a zero for each of the tasks.
abbrev pub return_zero : List ℕ → (ℕ → Option ℕ) → ℕ → Option ℕ
return_zero [] f = f
return_zero (t ∷ ts) f = return_zero ts (λ u. if t == u then some 0 else f u)

-- The tasks that the loop woke are ready, and each returns 0.
pub record Woken (e : ℕ) (ts : List ℕ) (k k' : Kernel) : Type 0 where
  pub ready : IsReady k'.scheduler
  pub executing : k'.scheduler.executing_task ≡ some e
  pub joined : Perm (pool k'.scheduler) (ts ++ pool k.scheduler)
  pub returns : k'.returned ≡ return_zero ts k.returned
  pub same_semaphores : k'.semaphores ≡ k.semaphores
  pub same_p_semaphores : k'.p_semaphores ≡ k.p_semaphores
  pub same_p_tasks : k'.p_tasks ≡ k.p_tasks

nothing-Woken :
    (e : ℕ) (k : Kernel)
    → IsReady k.scheduler
    → k.scheduler.executing_task ≡ some e
    → Woken e [] k k
nothing-Woken e k r x = record {
  ready = r;
  executing = x;
  joined = Perm.refl (pool k.scheduler);
  returns = refl;
  same_semaphores = refl;
  same_p_semaphores = refl;
  same_p_tasks = refl;
}

wake_lem :
    (now e : ℕ) (pids ts : List ℕ) (count : ℕ) (k : Kernel)
    → IsReady k.scheduler
    → k.scheduler.executing_task ≡ some e
    → Laws.IsValid k.p_tasks
    → AreTasks k.p_tasks pids ts
    → Nodup (ts ++ pool k.scheduler)
    → (k' : Kernel) × (wake now pids count k ≡ some (drop count pids, count - length pids, k'))
      × Woken e (take count ts) k k'
unfolding wake
wake_lem now e [] [] count k r x v m d =
    (k, ap (λ (c : ℕ). some ([], c, k)) (omega arith), nothing-Woken e k r x)
wake_lem now e [] (t ∷ ts) count k r x v m d = absurd m
wake_lem now e (pid ∷ pids) [] count k r x v m d = absurd m
wake_lem now e (pid ∷ pids) (t ∷ ts) zero k r x v m d =
    (k, ap (λ (c : ℕ). some (pid ∷ pids, c, k)) (omega arith), nothing-Woken e k r x)
wake_lem now e (pid ∷ pids) (t ∷ ts) (suc count) k r x v m d =
    let (absent, rest) = Nodup-cons.0 d in
    let (s', f, r', joined, x', first, others) =
      add_task_running now t e k.scheduler r (λ i. absent (mem-append_right ts i)) x in
    let k1 = set_return_value t 0 (record k { scheduler = s' }) in
    let moved = perm-append_left ts joined in
    let (k', g, w) =
      wake_lem now e pids ts count k1 r' x' v m.1
        (Perm.nodup (Perm.symm (Perm.trans moved (perm_middle ts (pool k.scheduler)))) d) in
    (
      k',
      rw ((known pid t k.p_tasks v m.0).0, f)
          (g ∙ ap (λ (c : ℕ). some (drop count pids, c, k')) (omega arith)),
      record {
        ready = w.ready;
        executing = w.executing;
        joined = Perm.trans w.joined (
            Perm.trans (perm-append_left (take count ts) joined)
              (perm_middle (take count ts) (pool k.scheduler)));
        returns = w.returns;
        same_semaphores = w.same_semaphores;
        same_p_semaphores = w.same_p_semaphores;
        same_p_tasks = w.same_p_tasks;
      },
    )
  where
    perm-append_left : (us : List ℕ) {vs ws : List ℕ} → Perm vs ws → Perm (us ++ vs) (us ++ ws)
    perm-append_left us q = (perm-append_left_iff us).1 q

-- `signal_semaphore` with a count, while a task executes, at a semaphore where different tasks
-- wait, none of them ready, whose processes are known: it wakes the tasks that waited last, as many
-- as the count, each ready again and returning 0, and adds what is left of the count to the
-- semaphore's. It reports success, unless the semaphore's count is the largest.
pub signal_wakes :
    (now e p count : ℕ) (ts : List ℕ) (k : Kernel)
    → IsReady k.scheduler
    → k.scheduler.executing_task ≡ some e
    → Laws.IsValid k.p_tasks
    → AreTasks k.p_tasks (k.semaphores p).waiting_tasks ts
    → Nodup (ts ++ pool k.scheduler)
    → (k.semaphores p).count ≢ 2 ^ 64 - 1
    → (k' : Kernel) × (signal_semaphore now p count k
        ≡ some (
          true,
          set_semaphore p
              (record {
                waiting_tasks = drop count (k.semaphores p).waiting_tasks;
                count =
                    ((k.semaphores p).count + (count - length (k.semaphores p).waiting_tasks))
                    % 2 ^ 64;
              })
              k',
        ))
      × Woken e (take count ts) k k'
unfolding signal_semaphore
signal_wakes now e p count ts k r x v m d n =
    let (k', f, w) = wake_lem now e (k.semaphores p).waiting_tasks ts count k r x v m d in
    (k', rw (==_false (k.semaphores p).count (2 ^ 64 - 1) n, f), w)
