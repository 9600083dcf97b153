-- ===== src/Semaphores/Tests.antt =====
-- kernel/process.cc: a semaphore at which task 4 waits, while task 1 executes and 2 and 3 are ready.
use mathlib.Core.List.{Mem, Nodup, Nodup-nil, Nodup-cons, cons≢nil, mem-cons, not-mem-nil}
use mathlib.Core.Logic.Or
use mathlib.Core.HLevel.{⊥_prop}
use wwos.Prelude.{ℕ, ◌*◌, ◌≡◌, ◌≢◌, refl, List, [], ◌∷◌, true, none, some, arith}
use wwos.Avl.{nil, node, leaf}
use wwos.Avl.Shape.{to_list}
use wwos.Map.{MapKv}
use wwos.Map.Laws.{contents}
use wwos.Map.Laws
use wwos.Scheduler.{TaskInfo}
use wwos.Scheduler.Ready.{IsReady}
use wwos.Semaphores.{
  Kernel, set_semaphore, current_task_wait_semaphore, current_task_signal_semaphore,
  signal_semaphore, signal_semaphore_by_clocks,
}
use wwos.Semaphores.Wait.{Blocked, wait_blocks}
use wwos.Semaphores.Signal.{Woken, signal_wakes}
use wwos.Semaphores.Pair.{Resumed, signal-wait}
use wwos.Semaphores.Clocks.{Rung, clocks_end}

-- Task `t` is the process `t`, and has the virtual runtime `10 * t`.
abbrev tasks : ℕ → TaskInfo
tasks t = record { vruntime = 10 * t; priority = 5; pid = t }

abbrev kv : ℕ → ℕ → MapKv ℕ
kv k v = record { key = k; value = v }

-- The semaphore 5 is at address 7; a clock of time 50 and one of time 200 signal it.
abbrev kernel : Kernel
kernel = record {
  scheduler = record {
    tasks = tasks;
    physical_time_start = 100;
    executing_task = some 1;
    active_tasks = record { root = node nil 2 1 (leaf 3); m_size = 2 };
  };
  semaphores = λ p. record { waiting_tasks = 4 ∷ []; count = 0 };
  p_semaphores = record { root = leaf (kv 5 7); m_size = 1 };
  p_tasks = record { root = node (leaf (kv 1 1)) (kv 4 4) 1 nil; m_size = 2 };
  p_clock_tree = record {
    root =
        node nil (record { semaphore_id = 5; expiration_time = 50 }) 1
          (leaf (record { semaphore_id = 5; expiration_time = 200 }));
    m_size = 2;
  };
  pid_counter = 5;
  semaphore_counter = 6;
  returned = λ t. none;
}

-- The same with no task at a semaphore.
abbrev quiet : Kernel
quiet = record kernel { semaphores = λ p. record { waiting_tasks = []; count = 3 } }

all_distinct : Nodup {A = ℕ} (4 ∷ 1 ∷ 2 ∷ 3 ∷ [])
all_distinct = distinct 4 (1 ∷ 2 ∷ 3 ∷ []) (omega arith) (
    distinct 1 (2 ∷ 3 ∷ []) (omega arith)
      (distinct 2 (3 ∷ []) (omega arith) (distinct 3 [] tt Nodup-nil)))
  where
    All_ne : ℕ → List ℕ → Type 0
    All_ne t [] = Unit
    All_ne t (u ∷ us) = (t ≢ u) × All_ne t us

    absent : (t : ℕ) (us : List ℕ) → All_ne t us → ¬ Mem t us
    absent t [] a m = not-mem-nil m
    absent t (u ∷ us) a m = Or.elim ⊥_prop (mem-cons.0 m) a.0 (absent t us a.1)

    distinct : (t : ℕ) (us : List ℕ) → All_ne t us → Nodup us → Nodup (t ∷ us)
    distinct t us a d = Nodup-cons.1 (absent t us a, d)

kernel-IsReady : IsReady kernel.scheduler
kernel-IsReady = record {
  sorted = omega arith;
  measured = omega arith;
  distinct = (Nodup-cons.0 all_distinct).1;
}

p_semaphores-IsValid : Laws.IsValid kernel.p_semaphores
p_semaphores-IsValid = omega arith

p_tasks-IsValid : Laws.IsValid kernel.p_tasks
p_tasks-IsValid = omega arith

wait_blocks_example :
    (k : Kernel) × (current_task_wait_semaphore 140 5 kernel ≡ some k) × Blocked 1 7 kernel k
wait_blocks_example =
    wait_blocks 140 5 7 1 kernel kernel-IsReady refl (omega arith) cons≢nil p_semaphores-IsValid
      refl refl

-- The first signal of the two wakes task 4, and the second is counted.
signal_wakes_example :
    (k : Kernel) × (signal_semaphore 140 7 2 kernel
      ≡ some (true, set_semaphore 7 (record { waiting_tasks = []; count = 1 }) k))
    × Woken 1 (4 ∷ []) kernel k
signal_wakes_example =
    signal_wakes 140 1 7 2 (4 ∷ []) kernel kernel-IsReady refl p_tasks-IsValid (refl, tt)
      all_distinct (omega arith)

signal-wait_example :
    (k k' : Kernel) × (current_task_wait_semaphore 140 5 kernel ≡ some k)
    × (current_task_signal_semaphore 140 5 k ≡ some k')
    × Resumed 1 7 kernel k'
signal-wait_example =
    signal-wait 140 5 7 1 (4 ∷ []) kernel kernel-IsReady refl (omega arith) cons≢nil
      p_semaphores-IsValid refl refl p_tasks-IsValid refl (refl, tt) all_distinct

clocks_end_example :
    (k : Kernel) × (signal_semaphore_by_clocks 140 quiet ≡ some k)
    × Rung 140 (to_list quiet.p_clock_tree.root) quiet k
clocks_end_example = clocks_end 140 quiet (omega arith) (λ p. refl) p_semaphores-IsValid
