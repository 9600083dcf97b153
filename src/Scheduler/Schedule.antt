-- ===== src/Scheduler/Schedule.antt =====
-- kernel/scheduler.cc: `schedule` charges the executing task and runs the task that is due.
use mathlib.Core.List.{Perm, Nodup, Nodup-cons}
use mathlib.Core.List.Perm
use wwos.Prelude.{
  ℕ, ◌+◌, ◌%◌, ◌^◌, ◌≤◌, ◌≡◌, ◌≢◌, refl, ap, ◌∙◌, subst, List, [], ◌∷◌, All, Option, none, some,
  ◌>>=◌,
}
use wwos.Avl.Shape.{IsMeasured}
use wwos.Avl.Sorted.{IsSorted}
use wwos.Avl.Remove.{is_null-to_list}
use wwos.AvlTree
use wwos.AvlTree.{AvlTree}
use wwos.Scheduler.{
  Scheduler, TaskInfo, vruntime_of, set_vruntime, pick, charge_task, charge, schedule,
  virtual_time_spent,
}
use wwos.Scheduler.Ready.{
  active, together, pool, IsReady, IsSorted-congr, insert_sorted-perm, All-of_not-mem,
  set_vruntime-All, insert_active_lem, pick_lem,
}

-- The tasks, once the one that was executing is charged.
abbrev pub charged : Option ℕ → ℕ → Scheduler → ℕ → TaskInfo
charged none now s = s.tasks
charged (some e) now s = set_vruntime s.tasks e (
    ((s.tasks e).vruntime + virtual_time_spent now s.physical_time_start (s.tasks e).priority)
    % 2 ^ 64)

-- The state once the executing task is back in the tree.
record Charged (o : Option ℕ) (now : ℕ) (s s' : Scheduler) : Type 0 where
  runs : charge_task o now s ≡ some s'
  tasks_eq : s'.tasks ≡ charged o now s
  kept : Perm (active s') (together o (active s))
  in_order : IsSorted (vruntime_of s') (active s')
  heights : IsMeasured s'.active_tasks.root

charge_task_total :
    (o : Option ℕ) (now : ℕ) (s : Scheduler)
    → IsSorted (vruntime_of s) (active s)
    → IsMeasured s.active_tasks.root
    → Nodup (together o (active s))
    → (s' : Scheduler) × Charged o now s s'
unfolding charge_task
charge_task_total none now s v m d = (
  s,
  record { runs = refl; tasks_eq = refl; kept = Perm.refl (active s); in_order = v; heights = m },
)
charge_task_total (some e) now s v m d =
    let others = All-of_not-mem e (active s) (Nodup-cons.0 d).0 in
    let value =
      ((s.tasks e).vruntime + virtual_time_spent now s.physical_time_start (s.tasks e).priority)
      % 2 ^ 64 in
    let s0 : Scheduler = record s { tasks = set_vruntime s.tasks e value; executing_task = none } in
    let sorted =
      IsSorted-congr (vruntime_of s) (vruntime_of s0) (active s)
        (set_vruntime-All s e value (active s) others) v in
    let (tree, f, g, h, i) = insert_active_lem e s0 sorted m in
    (
      record s0 { active_tasks = tree },
      record {
        runs = f;
        tasks_eq = refl;
        kept = rw g (insert_sorted-perm (vruntime_of s0) e (active s));
        in_order = h;
        heights = i;
      },
    )

-- What `schedule` leaves.
pub record Scheduled (now : ℕ) (s s' : Scheduler) : Type 0 where
  pub ready : IsReady s'
  pub kept : Perm (pool s') (pool s)
  pub tasks_eq : s'.tasks ≡ charged s.executing_task now s
  pub started : s'.physical_time_start ≡ now
  pub next : ℕ
  pub executing : s'.executing_task ≡ some next
  pub first : All (λ u. vruntime_of s' next ≤ vruntime_of s' u) (active s')

-- In a scheduler that is ready and has a task, `schedule` never stops the program. It loses and adds
-- no task, charges the one that was executing and no other, and executes one with the least virtual
-- runtime; the scheduler stays ready.
pub schedule_fair :
    (now : ℕ) (s : Scheduler)
    → IsReady s
    → pool s ≢ []
    → (s' : Scheduler) × (schedule now s ≡ some s') × Scheduled now s s'
unfolding schedule charge
schedule_fair now s v n =
    let (s1, c) = charge_task_total s.executing_task now s v.sorted v.measured v.distinct in
    finish s1 c (active s1) refl
  where
    finish :
        (s1 : Scheduler)
        → Charged s.executing_task now s s1
        → (us : List ℕ) → active s1 ≡ us
        → (s' : Scheduler) × (schedule now s ≡ some s') × Scheduled now s s'
    finish s1 c [] e =
        absurd (n (Perm.eq-nil (Perm.symm (subst (λ us. Perm us (pool s)) e c.kept))))
    finish s1 c (t ∷ us) e =
        let (tree, f, g, m) = pick_lem now t us s1 c.heights e in
        let sorted = subst (IsSorted (vruntime_of s1)) e c.in_order in
        let kept = subst (λ vs. Perm vs (pool s)) e c.kept in
        (
          record s1 { physical_time_start = now; executing_task = some t; active_tasks = tree },
          ap (λ o. o >>= pick now) c.runs ∙ f,
          record {
            ready = record {
              sorted = rw g sorted.1;
              measured = m;
              distinct = rw g (Perm.nodup (Perm.symm kept) v.distinct);
            };
            kept = rw g kept;
            tasks_eq = c.tasks_eq;
            started = refl;
            next = t;
            executing = refl;
            first = rw g sorted.0;
          },
        )

-- With no task at all `schedule` stops the kernel.
pub schedule-none :
    (now : ℕ) (s : Scheduler) → s.executing_task ≡ none → active s ≡ [] → schedule now s ≡ none
unfolding schedule charge charge_task pick AvlTree.empty
schedule-none now s x e =
    ap (λ o. charge_task o now s >>= pick now) x ∙ rw (is_null-to_list s.active_tasks.root e)
