-- ===== src/Scheduler.antt =====
-- kernel/scheduler.cc, kernel/scheduler.h: the fair scheduler over the search tree of virtual
-- runtimes. A task pointer is a number; the tasks that pointers lead to are a part of the state.
-- The clock, `get_cpu_time`, is the argument `now` of each operation.
pub mod Ready
pub mod Schedule
pub mod Tasks
pub mod Lookup
mod Tests
use wwos.Prelude.{
  ℕ, ◌+◌, ◌-◌, ◌/◌, ◌%◌, ◌^◌, max, List, Bool, true, false, Option, none, some, ◌>>=◌, ◌==◌,
  if◌then◌else◌,
}
use wwos.Avl
use wwos.Avl.{Tree, Side}
use wwos.AvlTree
use wwos.AvlTree.{AvlTree}

-- The fields of `task_info` that the scheduler reads and writes.
pub record TaskInfo : Type 0 where
  pub vruntime : ℕ
  pub priority : ℕ
  pub pid : ℕ

pub record Scheduler : Type 0 where
  pub tasks : ℕ → TaskInfo
  pub physical_time_start : ℕ
  pub executing_task : Option ℕ
  pub active_tasks : AvlTree ℕ

-- What `task_info_ptr::operator<` compares.
abbrev pub vruntime_of : Scheduler → ℕ → ℕ
vruntime_of s t = (s.tasks t).vruntime

-- `task->vruntime = v`
abbrev pub set_vruntime : (ℕ → TaskInfo) → ℕ → ℕ → ℕ → TaskInfo
set_vruntime tasks t v u = if t == u then record (tasks t) { vruntime = v } else tasks u

abbrev pub insert_active : ℕ → Scheduler → Option Scheduler
insert_active t s =
    AvlTree.insert (vruntime_of s) t s.active_tasks
    >>= (λ tree. some (record s { active_tasks = tree }))

-- The data of the node that `smallest` points to.
abbrev pub smallest_task : Scheduler → Option ℕ
smallest_task s = Avl.smallest s.active_tasks.root >>= (λ p. Avl.data_at p s.active_tasks.root)

-- `max<uint64_t>(physical_time_spent / priority, 1)`; a division by zero gives zero on the machine.
pub virtual_time_spent : ℕ → ℕ → ℕ → ℕ
virtual_time_spent now start priority = max ((now + 2 ^ 64 - start) % 2 ^ 64 / priority) 1

-- The first part of `schedule`: the executing task is charged and goes back to the others.
pub charge_task : Option ℕ → ℕ → Scheduler → Option Scheduler
unfolding virtual_time_spent
charge_task none now s = some s
charge_task (some e) now s =
    let spent = virtual_time_spent now s.physical_time_start (s.tasks e).priority in
    insert_active e (record s {
      tasks = set_vruntime s.tasks e (((s.tasks e).vruntime + spent) % 2 ^ 64);
      executing_task = none;
    })

pub charge : ℕ → Scheduler → Option Scheduler
unfolding charge_task
charge now s = charge_task s.executing_task now s

-- The second part: the smallest task leaves the tree and executes; none is left, and `wwassert`
-- fails.
pub pick : ℕ → Scheduler → Option Scheduler
pick now s =
    if AvlTree.empty s.active_tasks
    then none
    else Avl.smallest s.active_tasks.root >>= (λ p. Avl.data_at p s.active_tasks.root >>= (λ t.
      AvlTree.remove (some p) s.active_tasks >>= (λ tree.
        some
          (record s { physical_time_start = now; executing_task = some t; active_tasks = tree }))))

pub schedule : ℕ → Scheduler → Option Scheduler
schedule now s = charge now s >>= pick now

-- The virtual runtime that a task starts with when it joins the others.
pub start_vruntime : Scheduler → Option ℕ
start_vruntime s =
    if AvlTree.empty s.active_tasks
    then some (elim s.executing_task [ none ↦ 0 | some e ↦ max (s.tasks e).vruntime 1 - 1 ])
    else smallest_task s >>= (λ t. some (max (s.tasks t).vruntime 1 - 1))

-- A scheduler with no executing task starts one.
pub start_if_idle : Option ℕ → ℕ → Scheduler → Option Scheduler
start_if_idle none now s = schedule now s
start_if_idle (some e) now s = some s

pub add_task : ℕ → ℕ → Scheduler → Option Scheduler
unfolding start_vruntime start_if_idle
add_task now t s = start_vruntime s >>= (λ v.
    insert_active t (record s { tasks = set_vruntime s.tasks t v })
    >>= (λ s'. start_if_idle s'.executing_task now s'))

-- The node that `find` leads to has to hold this very task, or `wwassert` fails.
abbrev pub found_in : (ℕ → ℕ) → ℕ → Tree ℕ → Option (List Side)
found_in key t tree =
    Avl.find key t tree >>= (λ p. Avl.data_at p tree >>= (λ u. if u == t then some p else none))

abbrev pub found_task : ℕ → Scheduler → Option (List Side)
found_task t s = found_in (vruntime_of s) t s.active_tasks.root

-- A task that is not executing leaves the tree.
pub remove_active : ℕ → Scheduler → Option Scheduler
remove_active t s = found_task t s >>= (λ p.
    AvlTree.remove (some p) s.active_tasks >>= (λ tree. some (record s { active_tasks = tree })))

pub leave : Option ℕ → ℕ → ℕ → Scheduler → Option Scheduler
unfolding remove_active
leave none now t s = remove_active t s
leave (some e) now t s =
    if e == t then schedule now (record s { executing_task = none }) else remove_active t s

pub remove_task : ℕ → ℕ → Scheduler → Option Scheduler
unfolding leave
remove_task now t s = if (s.tasks t).pid == 0 then none else leave s.executing_task now t s

pub replace_task : ℕ → ℕ → Scheduler → Option Scheduler
replace_task old t s =
    let tasks' = set_vruntime s.tasks t (s.tasks old).vruntime in
    let swap = found_task old s >>= (λ p. some (record s {
      tasks = tasks';
      active_tasks = record s.active_tasks { root = Avl.set_data p t s.active_tasks.root };
    })) in
    elim s.executing_task [
      | none ↦ swap
      | some e ↦
          if e == old then some (record s { tasks = tasks'; executing_task = some t }) else swap
    ]

-- The search compares virtual runtimes, and does not look at the pointer.
pub contains_task : ℕ → Scheduler → Bool
contains_task t s = elim (Avl.find_exact (vruntime_of s) t s.active_tasks.root) [
  | none ↦ false
  | some p ↦ true
]
