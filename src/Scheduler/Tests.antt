-- ===== src/Scheduler/Tests.antt =====
-- kernel/scheduler.cc: the scheduler with three tasks.
use mathlib.Core.List.{Mem, Nodup, Nodup-nil, Nodup-cons, cons≢nil, mem-cons, not-mem-nil}
use mathlib.Core.Logic.Or
use mathlib.Core.HLevel.{⊥_prop}
use wwos.Prelude.{ℕ, ◌*◌, ◌≡◌, ◌≢◌, [], ◌∷◌, none, some, arith}
use wwos.Avl.{nil, node, leaf}
use wwos.Scheduler.{TaskInfo, Scheduler, schedule}
use wwos.Scheduler.Ready.{IsReady}
use wwos.Scheduler.Schedule.{Scheduled, schedule_fair}

-- Task `t` has the virtual runtime `10 * t`.
abbrev tasks : ℕ → TaskInfo
tasks t = record { vruntime = 10 * t; priority = 5; pid = t }

-- Task 1 executes, tasks 2 and 3 wait.
abbrev busy : Scheduler
busy = record {
  tasks = tasks;
  physical_time_start = 100;
  executing_task = some 1;
  active_tasks = record { root = node nil 2 1 (leaf 3); m_size = 2 };
}

abbrev idle : Scheduler
idle = record busy { executing_task = none }

abbrev alone : Scheduler
alone = record busy { active_tasks = record { root = nil; m_size = 0 } }

not-mem-two : (t : ℕ) → t ≢ 2 → t ≢ 3 → ¬ Mem t (2 ∷ 3 ∷ [])
not-mem-two t a b m =
    Or.elim ⊥_prop (mem-cons.0 m) a (λ n. Or.elim ⊥_prop (mem-cons.0 n) b not-mem-nil)

not-mem-three : (t : ℕ) → t ≢ 1 → t ≢ 2 → t ≢ 3 → ¬ Mem t (1 ∷ 2 ∷ 3 ∷ [])
not-mem-three t c a b m = Or.elim ⊥_prop (mem-cons.0 m) c (not-mem-two t a b)

two_distinct : Nodup {A = ℕ} (2 ∷ 3 ∷ [])
two_distinct = Nodup-cons.1 (
  λ m. Or.elim ⊥_prop (mem-cons.0 m) (omega arith) not-mem-nil,
  Nodup-cons.1 (not-mem-nil, Nodup-nil),
)

idle-IsReady : IsReady idle
idle-IsReady = record { sorted = omega arith; measured = omega arith; distinct = two_distinct }

busy-IsReady : IsReady busy
busy-IsReady = record {
  sorted = omega arith;
  measured = omega arith;
  distinct = Nodup-cons.1 (not-mem-two 1 (omega arith) (omega arith), two_distinct);
}

schedule_fair_example : (s : Scheduler) × (schedule 140 busy ≡ some s) × Scheduled 140 busy s
schedule_fair_example = schedule_fair 140 busy busy-IsReady cons≢nil
