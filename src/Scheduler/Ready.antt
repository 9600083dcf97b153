-- ===== src/Scheduler/Ready.antt =====
-- kernel/scheduler.cc: the tasks that a scheduler holds, and one task leaving or joining the tree.
use mathlib.Core.List.{Perm, Mem, Nodup, mem-cons_self, mem-cons_of_mem}
use mathlib.Core.List.Perm
use wwos.Prelude.{
  ℕ, ◌+◌, ◌-◌, ◌%◌, ◌^◌, ◌≤◌, ◌≡◌, ◌≢◌, refl, sym, List, [], ◌∷◌, All, Option, none, some, ltb,
  arith, Bool-cases, inl, inr, ==_false, ==_true,
}
use wwos.Avl.Shape.{to_list, IsMeasured}
use wwos.Avl.Sorted.{IsSorted, insert_sorted}
use wwos.Avl.Insert.{insert_refines}
use wwos.Avl.Remove.{remove-smallest}
use wwos.AvlTree
use wwos.AvlTree.{AvlTree}
use wwos.Scheduler.{Scheduler, vruntime_of, set_vruntime, insert_active, pick}

abbrev pub active : Scheduler → List ℕ
active s = to_list s.active_tasks.root

abbrev pub together : Option ℕ → List ℕ → List ℕ
together none us = us
together (some e) us = e ∷ us

-- The tasks that can execute, the executing one first.
abbrev pub pool : Scheduler → List ℕ
pool s = together s.executing_task (active s)

-- The tree is in order of the virtual runtimes, and no task is there twice.
pub record IsReady (s : Scheduler) : Type 0 where
  pub sorted : IsSorted (vruntime_of s) (active s)
  pub measured : IsMeasured s.active_tasks.root
  pub distinct : Nodup (pool s)

pub IsSorted-congr :
    {A : Type 0} (key key' : A → ℕ) (xs : List A)
    → All (λ x. key' x ≡ key x) xs
    → IsSorted key xs
    → IsSorted key' xs
IsSorted-congr key key' [] e s = tt
IsSorted-congr key key' (x ∷ xs) e s = (le_congr xs e.1 s.0, IsSorted-congr key key' xs e.1 s.1)
  where
    le_congr :
        (ys : List _)
        → All (λ y. key' y ≡ key y) ys
        → All (λ y. key x ≤ key y) ys
        → All (λ y. key' x ≤ key' y) ys
    le_congr [] f a = tt
    le_congr (y ∷ ys) f a = (omega (arith, e.0, f.0, a.0), le_congr ys f.1 a.1)

pub insert_sorted-perm :
    {A : Type 0} (key : A → ℕ) (x : A) (ys : List A) → Perm (insert_sorted key x ys) (x ∷ ys)
insert_sorted-perm key x [] = Perm.refl (x ∷ [])
insert_sorted-perm key x (y ∷ ys) = elim (Bool-cases (ltb (key x) (key y))) [
  | inl e ↦ rw e (Perm.refl (x ∷ y ∷ ys))
  | inr e ↦ rw e (Perm.trans (Perm.cons y (insert_sorted-perm key x ys)) (Perm.swap x y ys))
]

pub All-of_not-mem : {A : Type 0} (x : A) (ys : List A) → ¬ Mem x ys → All (λ y. y ≢ x) ys
All-of_not-mem x [] n = tt
All-of_not-mem x (y ∷ ys) n =
    (λ e. n (rw (← e) mem-cons_self), All-of_not-mem x ys (λ m. n (mem-cons_of_mem y m)))

-- A write to one task shows in no other.
pub set_vruntime-All :
    (s : Scheduler) (t v : ℕ) (us : List ℕ)
    → All (λ u. u ≢ t) us
    → All (λ u. (set_vruntime s.tasks t v u).vruntime ≡ vruntime_of s u) us
set_vruntime-All s t v [] a = tt
set_vruntime-All s t v (u ∷ us) a =
    (rw (==_false t u (λ e. a.0 (sym e))), set_vruntime-All s t v us a.1)

pub set_vruntime_self : (s : Scheduler) (t v : ℕ) → (set_vruntime s.tasks t v t).vruntime ≡ v
set_vruntime_self s t v = rw (==_true t t refl)

-- A task that joins the tree stands behind those whose virtual runtime is not larger.
pub insert_active_lem :
    (t : ℕ) (s : Scheduler)
    → IsSorted (vruntime_of s) (active s)
    → IsMeasured s.active_tasks.root
    → (tree : AvlTree ℕ) × (insert_active t s ≡ some (record s { active_tasks = tree }))
      × (to_list tree.root ≡ insert_sorted (vruntime_of s) t (active s))
      × IsSorted (vruntime_of s) (to_list tree.root)
      × IsMeasured tree.root
unfolding AvlTree.insert
insert_active_lem t s o m =
    let (r, e, f, g, h) = insert_refines (vruntime_of s) t s.active_tasks.root o m in
    (record { root = r; m_size = (s.active_tasks.m_size + 1) % 2 ^ 64 }, rw e, f, g, h)

-- `pick` takes the first task of the order.
pub pick_lem :
    (now t : ℕ) (us : List ℕ) (s : Scheduler)
    → IsMeasured s.active_tasks.root
    → active s ≡ t ∷ us
    → (tree : AvlTree ℕ) × (pick now s
        ≡ some
            (record s { physical_time_start = now; executing_task = some t; active_tasks = tree }))
      × (to_list tree.root ≡ us)
      × IsMeasured tree.root
unfolding pick AvlTree.remove AvlTree.empty
pick_lem now t us s m e =
    let (p, r, n, f, g, i, j, k) = remove-smallest s.active_tasks.root t us e m in
    (
      record { root = r; m_size = (s.active_tasks.m_size + (2 ^ 64 - 1)) % 2 ^ 64 },
      rw (n, f, g, i),
      j,
      k,
    )
