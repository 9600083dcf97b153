-- ===== src/Semaphores/Clocks.antt =====
-- kernel/process.cc: `signal_semaphore_by_clocks`.
use wwos.Prelude.{
  ℕ, zero, suc, ◌+◌, ◌-◌, ◌<◌, ◌^◌, ◌%◌, ◌≡◌, refl, sym, ap, ap₂, ◌∙◌, subst, List, [], ◌∷◌, true,
  false, Bool, Option, none, some, ◌>>=◌, if◌then◌else◌, ==_eq, ◌==◌, leb, Bool-cases, Option-cases,
  inl, inr, length, arith,
}
use wwos.Avl.{size}
use wwos.Avl.Shape.{to_list, IsMeasured}
use wwos.Avl.Remove.{remove-smallest, is_null-to_list}
use wwos.AvlTree
use wwos.AvlTree.{AvlTree}
use wwos.AvlTree.Clear.{length-to_list}
use wwos.Map.{MapKv}
use wwos.Map.Laws.{contents, get-eq-contents, is_some}
use wwos.Map.Laws
use wwos.Semaphores.{
  ClockInfo, Semaphore, Kernel, set_semaphore, is_empty, wake, signal_semaphore, ring, clocks_loop,
  signal_semaphore_by_clocks,
}
use wwos.Semaphores.Wait.{known}

-- The clocks behind those that are due.
abbrev pub not_due : ℕ → List ClockInfo → List ClockInfo
not_due now [] = []
not_due now (c ∷ cs) = elim (leb c.expiration_time now) [ true ↦ not_due now cs | false ↦ c ∷ cs ]

-- No task waits at any semaphore.
abbrev pub NoneWaits : Kernel → Type 0
NoneWaits k = (p : ℕ) → is_empty (k.semaphores p).waiting_tasks ≡ true

-- A count that a signal has added one to, unless it has all bits set.
abbrev pub signalled : ℕ → ℕ
signalled n = if n == 2 ^ 64 - 1 then n else (n + 1) % 2 ^ 64

abbrev pub is_at : ℕ → Option ℕ → Bool
is_at q none = false
is_at q (some p) = p == q

-- The count of the semaphore at `q` after the clocks that are due.
abbrev pub count_after : ℕ → AvlTree (MapKv ℕ) → List ClockInfo → ℕ → ℕ → ℕ
count_after now m [] q n = n
count_after now m (c ∷ cs) q n =
    let rest =
      count_after now m cs q (if is_at q (contents c.semaphore_id m) then signalled n else n) in
    if leb c.expiration_time now then rest else n

-- A signal where no task waits counts at its semaphore, and changes semaphores alone.
record Counted (id : ℕ) (k k' : Kernel) : Type 0 where
  counted :
      (q : ℕ)
      → (k'.semaphores q).count ≡ (
          if is_at q (contents id k.p_semaphores)
          then signalled (k.semaphores q).count
          else (k.semaphores q).count)
  still : NoneWaits k'
  same_scheduler : k'.scheduler ≡ k.scheduler
  same_p_semaphores : k'.p_semaphores ≡ k.p_semaphores
  same_clocks : k'.p_clock_tree ≡ k.p_clock_tree

wake_none :
    (now count : ℕ) (ws : List ℕ) (k : Kernel)
    → is_empty ws ≡ true
    → wake now ws count k ≡ some ([], count, k)
unfolding wake
wake_none now count [] k e = refl
wake_none now count (w ∷ ws) k e = cc

stays_full :
    (p q : ℕ) (s : ℕ → Semaphore)
    → ((s p).count == 2 ^ 64 - 1) ≡ true
    → (s q).count ≡ (if p == q then signalled (s q).count else (s q).count)
stays_full p q s u = elim (Bool-cases (p == q)) [
  | inl w ↦ rw w (subst (λ r. (s r).count ≡ signalled (s r).count) (==_eq p q w) (rw u refl))
  | inr w ↦ rw w refl
]

counts_one :
    (p q : ℕ) (s : ℕ → Semaphore) (z : Semaphore)
    → ((s p).count == 2 ^ 64 - 1) ≡ false
    → z.count ≡ ((s p).count + 1) % 2 ^ 64
    → (if p == q then z else s q).count ≡ (if p == q then signalled (s q).count else (s q).count)
counts_one p q s z u e = elim (Bool-cases (p == q)) [
  | inl w ↦ rw w (
      e ∙ subst (λ r. ((s p).count + 1) % 2 ^ 64 ≡ signalled (s r).count) (==_eq p q w) (rw u refl))
  | inr w ↦ rw w refl
]

ring_lem :
    (now id : ℕ) (k : Kernel)
    → NoneWaits k
    → Laws.IsValid k.p_semaphores
    → (k' : Kernel) × (ring now id k ≡ some k') × Counted id k k'
unfolding ring signal_semaphore
ring_lem now id k n v = elim (Option-cases (contents id k.p_semaphores)) [
  | inl e ↦
      let absent = (get-eq-contents 0 id k.p_semaphores v).1 ∙ ap is_some e in
      (
        k,
        rw absent,
        record {
          counted = λ q. rw e refl;
          still = n;
          same_scheduler = refl;
          same_p_semaphores = refl;
          same_clocks = refl;
        },
      )
  | inr (p, e) ↦
      let (g, h) = known id p k.p_semaphores v e in
      elim (Bool-cases ((k.semaphores p).count == 2 ^ 64 - 1)) [
        | inl u ↦ (
          k,
          rw (g, h, u, n p),
          record {
            counted = λ q. rw e (stays_full p q k.semaphores u);
            still = n;
            same_scheduler = refl;
            same_p_semaphores = refl;
            same_clocks = refl;
          },
        )
        | inr u ↦ (
          set_semaphore p
              (record { waiting_tasks = []; count = ((k.semaphores p).count + 1) % 2 ^ 64 }) k,
          rw (g, h, u, wake_none now 1 (k.semaphores p).waiting_tasks k (n p)),
          record {
            counted = λ q. rw e (
                counts_one p q k.semaphores
                  (record { waiting_tasks = []; count = ((k.semaphores p).count + 1) % 2 ^ 64 }) u
                  refl);
            still = λ q. elim (Bool-cases (p == q)) [ inl w ↦ rw w | inr w ↦ rw w (n q) ];
            same_scheduler = refl;
            same_p_semaphores = refl;
            same_clocks = refl;
          },
        )
      ]
]

-- What the loop leaves.
pub record Rung (now : ℕ) (cs : List ClockInfo) (k k' : Kernel) : Type 0 where
  pub left : to_list k'.p_clock_tree.root ≡ not_due now cs
  pub measured : IsMeasured k'.p_clock_tree.root
  pub counted :
      (q : ℕ) → (k'.semaphores q).count ≡ count_after now k.p_semaphores cs q (k.semaphores q).count
  pub still : NoneWaits k'
  pub same_scheduler : k'.scheduler ≡ k.scheduler
  pub same_p_semaphores : k'.p_semaphores ≡ k.p_semaphores

clocks_loop_lem :
    (fuel now : ℕ) (cs : List ClockInfo) (k : Kernel)
    → to_list k.p_clock_tree.root ≡ cs
    → IsMeasured k.p_clock_tree.root
    → NoneWaits k
    → Laws.IsValid k.p_semaphores
    → length cs < fuel
    → (k' : Kernel) × (clocks_loop fuel now k ≡ some k') × Rung now cs k k'
unfolding clocks_loop AvlTree.empty AvlTree.remove
clocks_loop_lem zero now cs k e m n v f = absurd (omega arith)
clocks_loop_lem (suc fuel) now [] k e m n v f = (
  k,
  rw (is_null-to_list k.p_clock_tree.root e, clocks_loop),
  record {
    left = e;
    measured = m;
    counted = λ q. refl;
    still = n;
    same_scheduler = refl;
    same_p_semaphores = refl;
  },
)
clocks_loop_lem (suc fuel) now (c ∷ cs) k e m n v f =
    let (p, tree, full, small, at, gone, rest, m') = remove-smallest k.p_clock_tree.root c cs e m in
    elim (Bool-cases (leb c.expiration_time now)) [
      | inl u ↦
          let clocks : AvlTree ClockInfo = record {
            root = tree;
            m_size = (k.p_clock_tree.m_size + (2 ^ 64 - 1)) % 2 ^ 64;
          } in
          let (k1, g, o) = ring_lem now c.semaphore_id (record k { p_clock_tree = clocks }) n v in
          let (k', h, w) =
            clocks_loop_lem fuel now cs k1
              (ap (λ (t : AvlTree ClockInfo). to_list t.root) o.same_clocks ∙ rest)
              (subst (λ (t : AvlTree ClockInfo). IsMeasured t.root) (sym o.same_clocks) m') o.still
              (subst Laws.IsValid (sym o.same_p_semaphores) v) (omega arith) in
          (
            k',
            rw (full, clocks_loop) (rw (small, at) (rw (u, ◌>>=◌) (rw (gone, g, h)))),
            record {
              left = rw (u, not_due) w.left;
              measured = w.measured;
              counted = λ q.
                  rw (u, count_after)
                    (w.counted q
                      ∙ ap₂ (λ (t : AvlTree (MapKv ℕ)) (v : ℕ). count_after now t cs q v)
                          o.same_p_semaphores (o.counted q));
              still = w.still;
              same_scheduler = w.same_scheduler ∙ o.same_scheduler;
              same_p_semaphores = w.same_p_semaphores ∙ o.same_p_semaphores;
            },
          )
      | inr u ↦ (
        k,
        rw (full, clocks_loop) (rw (small, at) (rw (u, ◌>>=◌))),
        record {
          left = rw (u, not_due) e;
          measured = m;
          counted = λ q. rw (u, count_after) refl;
          still = n;
          same_scheduler = refl;
          same_p_semaphores = refl;
        },
      )
    ]

-- With no task waiting at any semaphore, the loop over the clocks ends without stopping the kernel: of
-- the clocks in order of their times it takes those that are due and keeps the others. Each clock
-- that is taken adds one to the count of its semaphore, if that still exists and its count has not all
-- bits set; no other count changes, nor do the scheduler and the numbers of the semaphores, and still no
-- task waits.
pub clocks_end :
    (now : ℕ) (k : Kernel)
    → IsMeasured k.p_clock_tree.root
    → NoneWaits k
    → Laws.IsValid k.p_semaphores
    → (k' : Kernel) × (signal_semaphore_by_clocks now k ≡ some k')
      × Rung now (to_list k.p_clock_tree.root) k k'
unfolding signal_semaphore_by_clocks
clocks_end now k m n v =
    clocks_loop_lem (suc (size k.p_clock_tree.root)) now (to_list k.p_clock_tree.root) k refl m n v
      (omega (arith, length-to_list k.p_clock_tree.root))
