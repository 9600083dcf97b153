-- ===== src/Semaphores/Wait.antt =====
-- kernel/process.cc: `current_task_wait_semaphore` and the lookup of a semaphore.
use mathlib.Core.List.{Perm}
use wwos.Prelude.{ℕ, ◌≡◌, ◌≢◌, refl, ap, ◌∙◌, [], ◌∷◌, true, false, some, ==_true, ==_false}
use wwos.AvlTree.{AvlTree}
use wwos.Map
use wwos.Map.{MapKv}
use wwos.Map.Laws.{contents, is_some, get-eq-contents}
use wwos.Map.Laws
use wwos.Scheduler.Ready.{active, pool, IsReady}
use wwos.Scheduler.Tasks.{remove_task_executing}
use wwos.Semaphores.{
  Kernel, set_semaphore, is_positive, wait_at, wait_by, current_task_wait_semaphore,
}

pub known :
    (id p : ℕ) (m : AvlTree (MapKv ℕ))
    → Laws.IsValid m
    → contents id m ≡ some p
    → (Map.get 0 id m ≡ some p) × (Map.contains 0 id m ≡ true)
known id p m v e = let (g, c) = get-eq-contents 0 id m v in (g ∙ e, c ∙ ap is_some e)

-- What a wait that blocks leaves.
pub record Blocked (t p : ℕ) (k k' : Kernel) : Type 0 where
  pub ready : IsReady k'.scheduler
  pub left : Perm (t ∷ pool k'.scheduler) (pool k.scheduler)
  pub next : ℕ
  pub executing : k'.scheduler.executing_task ≡ some next
  pub same_tasks : k'.scheduler.tasks ≡ k.scheduler.tasks
  pub queued : k'.semaphores p ≡ record (k.semaphores p) {
    waiting_tasks = (k.scheduler.tasks t).pid ∷ (k.semaphores p).waiting_tasks;
  }
  pub other_semaphores : (q : ℕ) → p ≢ q → k'.semaphores q ≡ k.semaphores q
  pub same_semaphores : k'.p_semaphores ≡ k.p_semaphores
  pub same_p_tasks : k'.p_tasks ≡ k.p_tasks
  pub same_clocks : k'.p_clock_tree ≡ k.p_clock_tree
  pub same_pid_counter : k'.pid_counter ≡ k.pid_counter
  pub same_counter : k'.semaphore_counter ≡ k.semaphore_counter
  pub same_returned : (u : ℕ) → k'.returned u ≡ k.returned u

-- Waiting at a semaphore whose count is not positive, while another task is ready: the executing
-- task, of a process other than 0, leaves the ready tasks and is the last that waits there, and another
-- task executes. The tasks, the count, the other semaphores, the clocks, the maps, the counters and
-- the return values stay. The kernel does not stop.
pub wait_blocks :
    (now id p t : ℕ) (k : Kernel)
    → IsReady k.scheduler
    → k.scheduler.executing_task ≡ some t
    → (k.scheduler.tasks t).pid ≢ 0
    → active k.scheduler ≢ []
    → Laws.IsValid k.p_semaphores
    → contents id k.p_semaphores ≡ some p
    → is_positive (k.semaphores p).count ≡ false
    → (k' : Kernel) × (current_task_wait_semaphore now id k ≡ some k') × Blocked t p k k'
unfolding current_task_wait_semaphore wait_at
wait_blocks now id p t k r x n a v e c =
    let (s', next, f, r', left, tasks, exec, first) =
      remove_task_executing now t k.scheduler r x n a in
    let (g, h) = known id p k.p_semaphores v e in
    (
      set_semaphore p
          (record (k.semaphores p) {
            waiting_tasks = (k.scheduler.tasks t).pid ∷ (k.semaphores p).waiting_tasks;
          })
          (record k { scheduler = s' }),
      ap (λ o. wait_by o now id k) x ∙ rw (g, h, c, f),
      record {
        ready = r';
        left = left;
        next = next;
        executing = exec;
        same_tasks = tasks;
        queued = rw (==_true p p refl);
        other_semaphores = λ q n. rw (==_false p q n) refl;
        same_semaphores = refl;
        same_p_tasks = refl;
        same_clocks = refl;
        same_pid_counter = refl;
        same_counter = refl;
        same_returned = λ u. refl;
      },
    )
