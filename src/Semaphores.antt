-- ===== src/Semaphores.antt =====
-- kernel/process.cc, kernel/process.h: semaphores, the clocks that signal them, and what is known
-- of a task. A pointer to a semaphore or to a task is a number; what the pointers to semaphores lead
-- to is a part of the state. The clock, `get_cpu_time`, is the argument `now` of an operation, one
-- reading for each entry to the kernel.
pub mod Wait
pub mod Signal
pub mod Pair
pub mod Clocks
mod Tests
use wwos.Prelude.{
  ℕ, zero, suc, ◌+◌, ◌-◌, ◌^◌, ◌%◌, List, [], ◌∷◌, Bool, true, false, ◌&&◌, Option, none, some,
  ◌>>=◌, ◌==◌, ltb, leb, if◌then◌else◌,
}
use wwos.Avl
use wwos.AvlTree
use wwos.AvlTree.{AvlTree}
use wwos.Map
use wwos.Map.{MapKv}
use wwos.Scheduler
use wwos.Scheduler.{Scheduler, TaskInfo}

-- `count` is the `int64_t` as a word of 64 bits; the task that waits last is the first of the list.
pub record Semaphore : Type 0 where
  pub waiting_tasks : List ℕ
  pub count : ℕ

pub record ClockInfo : Type 0 where
  pub semaphore_id : ℕ
  pub expiration_time : ℕ

pub record Kernel : Type 0 where
  pub scheduler : Scheduler
  pub semaphores : ℕ → Semaphore
  pub p_semaphores : AvlTree (MapKv ℕ)
  pub p_tasks : AvlTree (MapKv ℕ)
  pub p_clock_tree : AvlTree ClockInfo
  pub pid_counter : ℕ
  pub semaphore_counter : ℕ
  -- `has_return_value` and `return_value` of the task at a pointer
  pub returned : ℕ → Option ℕ

-- -1 and -2 as words
abbrev pub minus_one : ℕ
minus_one = 2 ^ 64 - 1

abbrev pub minus_two : ℕ
minus_two = 2 ^ 64 - 2

abbrev pub set_return_value : ℕ → ℕ → Kernel → Kernel
set_return_value t v k = record k { returned = λ u. if t == u then some v else k.returned u }

-- The fields of the semaphore at the pointer are written.
abbrev pub set_semaphore : ℕ → Semaphore → Kernel → Kernel
set_semaphore p s k = record k { semaphores = λ q. if p == q then s else k.semaphores q }

-- A signed comparison of the word with zero.
abbrev pub is_positive : ℕ → Bool
is_positive c = ltb 0 c && ltb c (2 ^ 63)

abbrev pub is_empty : List ℕ → Bool
is_empty [] = true
is_empty (t ∷ ts) = false

-- `fresh` is the address that `new` returns; `none`, as in what follows, stops the kernel.
pub create_semaphore : ℕ → ℕ → Kernel → Option (ℕ × Kernel)
create_semaphore fresh init k =
    let id = k.semaphore_counter in
    Map.insert 0 id fresh k.p_semaphores >>= (λ m. some (
      id,
      set_semaphore fresh (record { waiting_tasks = []; count = init })
          (record k { p_semaphores = m; semaphore_counter = (id + 1) % 2 ^ 64 }),
    ))

pub delete_semaphore : ℕ → Kernel → Option (ℕ × Kernel)
delete_semaphore id k =
    if Map.contains 0 id k.p_semaphores
    then Map.get 0 id k.p_semaphores >>= (λ p.
      if is_empty (k.semaphores p).waiting_tasks
      then Map.remove 0 id k.p_semaphores >>= (λ m. some (0, record k { p_semaphores = m }))
      else some (minus_two, k))
    else some (minus_one, k)

-- The executing task takes one from the count, or leaves the ready tasks and waits.
pub wait_at : ℕ → ℕ → ℕ → Kernel → Option Kernel
wait_at now t p k =
    let s = k.semaphores p in
    if is_positive s.count
    then some (set_semaphore p (record s { count = s.count - 1 }) k)
    else Scheduler.remove_task now t k.scheduler >>= (λ sched. some (
        set_semaphore p (record s { waiting_tasks = (k.scheduler.tasks t).pid ∷ s.waiting_tasks })
          (record k { scheduler = sched })))

abbrev pub wait_by : Option ℕ → ℕ → ℕ → Kernel → Option Kernel
wait_by none now id k = none
wait_by (some t) now id k =
    if Map.contains 0 id k.p_semaphores
    then Map.get 0 id k.p_semaphores >>= (λ p. wait_at now t p k)
    else some (set_return_value t minus_one k)

pub current_task_wait_semaphore : ℕ → ℕ → Kernel → Option Kernel
unfolding wait_at
current_task_wait_semaphore now id k = wait_by k.scheduler.executing_task now id k

-- The loop of `signal_semaphore`: the tasks that wait, and how many more are woken. Neither
-- `set_return_value` nor `add_task` reads the semaphore that the loop shortens.
pub wake : ℕ → List ℕ → ℕ → Kernel → Option (List ℕ × ℕ × Kernel)
wake now [] count k = some ([], count, k)
wake now (pid ∷ waiting) zero k = some (pid ∷ waiting, zero, k)
wake now (pid ∷ waiting) (suc count) k = Map.get 0 pid k.p_tasks >>= (λ t.
    Scheduler.add_task now t k.scheduler
    >>= (λ sched. wake now waiting count (set_return_value t 0 (record k { scheduler = sched }))))

pub signal_semaphore : ℕ → ℕ → ℕ → Kernel → Option (Bool × Kernel)
unfolding wake
signal_semaphore now p count k =
    let s = k.semaphores p in
    if (s.count == 2 ^ 64 - 1) && is_empty s.waiting_tasks
    then some (false, k)
    else wake now s.waiting_tasks count k >>= (λ r. some (
      true,
      set_semaphore p (record { waiting_tasks = r.0; count = (s.count + r.1) % 2 ^ 64 }) r.2,
    ))

abbrev pub signal_by : Option ℕ → ℕ → ℕ → Kernel → Option Kernel
signal_by none now id k = none
signal_by (some t) now id k =
    if Map.contains 0 id k.p_semaphores
    then Map.get 0 id k.p_semaphores >>= (λ p.
      signal_semaphore now p 1 k
      >>= (λ r. some (set_return_value t (if r.0 then 0 else minus_two) r.1)))
    else some (set_return_value t minus_one k)

pub current_task_signal_semaphore : ℕ → ℕ → Kernel → Option Kernel
unfolding signal_semaphore
current_task_signal_semaphore now id k = signal_by k.scheduler.executing_task now id k

abbrev pub time_of : ClockInfo → ℕ
time_of c = c.expiration_time

abbrev pub signal_later_by : Option ℕ → ℕ → ℕ → ℕ → Kernel → Option Kernel
signal_later_by none now id microseconds k = none
signal_later_by (some t) now id microseconds k =
    if Map.contains 0 id k.p_semaphores
    then AvlTree.insert time_of
        (record { semaphore_id = id; expiration_time = (now + microseconds) % 2 ^ 64 })
        k.p_clock_tree
      >>= (λ clocks. some (record (set_return_value t 0 k) { p_clock_tree = clocks }))
    else some (set_return_value t minus_one k)

pub current_task_signal_semaphore_after_microseconds : ℕ → ℕ → ℕ → Kernel → Option Kernel
current_task_signal_semaphore_after_microseconds now id microseconds k =
    signal_later_by k.scheduler.executing_task now id microseconds k

-- The clock that is due first is gone: its semaphore is signalled, if it still exists.
pub ring : ℕ → ℕ → Kernel → Option Kernel
unfolding signal_semaphore
ring now id k =
    if Map.contains 0 id k.p_semaphores
    then Map.get 0 id k.p_semaphores >>= (λ p. signal_semaphore now p 1 k >>= (λ r. some r.1))
    else some k

-- The loop of `signal_semaphore_by_clocks`. Each round takes a clock off the tree.
pub clocks_loop : ℕ → ℕ → Kernel → Option Kernel
unfolding ring
clocks_loop zero now k = none
clocks_loop (suc fuel) now k = elim (AvlTree.empty k.p_clock_tree) [
  | true ↦ some k
  | false ↦ Avl.smallest k.p_clock_tree.root >>= (λ p. Avl.data_at p k.p_clock_tree.root >>= (λ c.
      elim (leb c.expiration_time now) [
        | true ↦ AvlTree.remove (some p) k.p_clock_tree >>= (λ clocks.
            ring now c.semaphore_id (record k { p_clock_tree = clocks }) >>= clocks_loop fuel now)
        | false ↦ some k
      ]))
]

pub signal_semaphore_by_clocks : ℕ → Kernel → Option Kernel
unfolding clocks_loop
signal_semaphore_by_clocks now k = clocks_loop (suc (Avl.size k.p_clock_tree.root)) now k

-- The kernel's own `schedule`, up to the return to the task that it picks.
pub schedule : ℕ → Kernel → Option Kernel
unfolding signal_semaphore_by_clocks
schedule now k = signal_semaphore_by_clocks now k >>= (λ k'.
    Scheduler.schedule now k'.scheduler >>= (λ sched. some (record k' { scheduler = sched })))

pub data TaskStat : Type 0 where
  active waiting terminated invalid : TaskStat

pub get_task_stat : ℕ → Kernel → Option TaskStat
get_task_stat pid k =
    if Map.contains 0 pid k.p_tasks
    then Map.get 0 pid k.p_tasks
      >>= (λ t. some (if Scheduler.contains_task t k.scheduler then active else waiting))
    else some (if ltb pid k.pid_counter then terminated else invalid)

-- The field is `uint16_t`.
abbrev pub set_priority_of : Option ℕ → ℕ → Kernel → Option Kernel
set_priority_of none priority k = none
set_priority_of (some t) priority k =
    let tasks = k.scheduler.tasks in
    let info : TaskInfo = record (tasks t) { priority = priority % 2 ^ 16 } in
    some (
      set_return_value t 0 (record k {
        scheduler = record k.scheduler { tasks = λ u. if t == u then info else tasks u };
      }))

pub current_task_set_priority : ℕ → Kernel → Option Kernel
current_task_set_priority priority k = set_priority_of k.scheduler.executing_task priority k
