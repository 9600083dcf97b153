-- ===== src/Scheduler/Lookup.antt =====
-- kernel/scheduler.cc: what the searches by virtual runtime make of a task.
use mathlib.Core.List.{
  Mem, Nodup, Nodup-cons, Nodup-append, mem-append_right, mem-cons_self, mem-cons, not-mem-nil,
}
use mathlib.Core.Logic.Or
use mathlib.Core.HLevel.{⊥_prop}
use wwos.Prelude.{
  ℕ, ◌≡◌, ◌≢◌, sym, ap, ◌∙◌, subst, true, false, List, [], ◌∷◌, ◌++◌, All, none, some, ◌==◌,
  ltb-false, arith, Bool-cases, inl, inr, ==_false, Option-cases,
}
use wwos.Avl
use wwos.Avl.{Tree, nil, node, Side, left, right, data_at}
use wwos.Avl.Shape.{to_list}
use wwos.Avl.Find.{find_past}
use wwos.Avl.Remove.{to_list-split, All-data_at}
use wwos.Avl.Search.{find_exact_sound, find_exact_complete}
use wwos.Scheduler.{
  Scheduler, vruntime_of, found_in, found_task, remove_active, leave, remove_task, contains_task,
}
use wwos.Scheduler.Ready.{active, together, IsReady, All-of_not-mem}

mem-split : {A : Type 0} (xs : List A) (x : A) (ys : List A) → Mem x (xs ++ (x ∷ ys))
mem-split xs x ys = mem-append_right xs mem-cons_self

All-of_mem :
    {A : Type 0} (key : A → ℕ) (k : ℕ) (xs : List A) (x : A)
    → Mem x xs
    → key x ≡ k
    → ¬ All (λ y. key y ≢ k) xs
All-of_mem key k [] x m e a = not-mem-nil m
All-of_mem key k (y ∷ ys) x m e a =
    Or.elim ⊥_prop (mem-cons.0 m) (λ f. a.0 (ap key (sym f) ∙ e))
      (λ n. All-of_mem key k ys x n e a.1)

-- When `contains_task` answers true for a task, a task with the same virtual runtime waits in the
-- tree: that task, or another.
contains_task_sound :
    (t : ℕ) (s : Scheduler)
    → contains_task t s ≡ true
    → (u : ℕ) × Mem u (active s) × (vruntime_of s u ≡ vruntime_of s t)
unfolding contains_task
contains_task_sound t s c =
    elim (Option-cases (Avl.find_exact (vruntime_of s) t s.active_tasks.root)) [
      | inl e ↦ let c' : false ≡ true = rw (e, contains_task) at c in cc
      | inr (p, e) ↦
          let (u, f, k) = find_exact_sound (vruntime_of s) t s.active_tasks.root p e in
          (u, rw (to_list-split p s.active_tasks.root u f) (mem-split _ u _), k)
    ]

-- In a ready scheduler `contains_task` answers true for every task whose virtual
-- runtime is that of some task that waits.
contains_task_complete :
    (t u : ℕ) (s : Scheduler)
    → IsReady s
    → Mem u (active s)
    → vruntime_of s u ≡ vruntime_of s t
    → contains_task t s ≡ true
unfolding contains_task
contains_task_complete t u s r m k =
    elim (Option-cases (Avl.find_exact (vruntime_of s) t s.active_tasks.root)) [
      | inl e ↦ absurd (
          All-of_mem (vruntime_of s) (vruntime_of s t) (active s) u m k
            (find_exact_complete (vruntime_of s) t s.active_tasks.root r.sorted e))
      | inr (p, e) ↦ rw (e, contains_task)
    ]

-- In a ready scheduler `remove_task` stops the program for a task, not the executing one, that waits
-- at the root of the tree with a child on its right.
remove_task_stuck :
    (now t e : ℕ) (s : Scheduler) (l : Tree ℕ) (h : ℕ) (a : Tree ℕ) (y k : ℕ) (b : Tree ℕ)
    → IsReady s
    → s.executing_task ≡ some e
    → e ≢ t
    → s.active_tasks.root ≡ node l t h (node a y k b)
    → remove_task now t s ≡ none
unfolding remove_task remove_active
remove_task_stuck now t e s l h a y k b r x n w =
    let (p, u, f, g, q, i) =
      find_past (vruntime_of s) t l t h a y k b (ltb-false _ _ (omega arith)) in
    let pool_eq = ap (λ o. together o (active s)) x in
    let waiting = (Nodup-cons.0 (subst Nodup pool_eq r.distinct)).1 in
    let split =
      (Nodup-append {l₁ = to_list l} {l₂ = t ∷ to_list (node a y k b)}).0
        (subst (λ tr. Nodup (to_list tr)) w waiting) in
    let others = All-of_not-mem t (to_list (node a y k b)) (Nodup-cons.0 split.1).0 in
    let other = All-data_at (λ v. v ≢ t) q (node a y k b) u i others in
    let lost : found_task t s ≡ none =
      ap (found_in (vruntime_of s) t) w ∙ rw (f, g, ==_false u t other) in
    elim (Bool-cases ((s.tasks t).pid == 0)) [
      | inl z ↦ rw z
      | inr z ↦ rw z (ap (λ o. leave o now t s) x ∙ rw (==_false e t n, leave, lost))
    ]
