-- ===== src/Avl/Shape.antt =====
-- include/wwos/avl.h: recorded heights, balance, and the order of the data, through one round of
-- the loop of `update_height_and_rebalance`.
use wwos.Prelude.{
  ℕ, suc, ◌+◌, ◌≤◌, ◌<◌, max, ◌≡◌, refl, List, [], ◌∷◌, ◌++◌, some, arith, ◌⊎◌, inl, inr, dec_lt,
  ltb-false,
}
use wwos.Avl.{Tree, nil, node, above, update_height, rebalance}

module _ {ℓ} {A : Type ℓ} where
  -- The data from left to right.
  abbrev pub to_list : Tree A → List A
  to_list nil = []
  to_list (node l x h r) = to_list l ++ (x ∷ to_list r)

  -- Every node records its height.
  abbrev pub IsMeasured : Tree A → Type 0
  IsMeasured nil = Unit
  IsMeasured (node l x h r) = (h ≡ max (above l) (above r)) × IsMeasured l × IsMeasured r

  -- The recorded heights of two siblings differ by one at most.
  abbrev pub IsBalanced : Tree A → Type 0
  IsBalanced nil = Unit
  IsBalanced (node l x h r) =
      (above l ≤ above r + 1) × (above r ≤ above l + 1) × IsBalanced l × IsBalanced r

module _ {A : Type 0} where
  -- What one round leaves, by the case that it took.
  pub data Round (l : Tree A) (x : A) (r : Tree A) (t : Tree A) : Type 0 where
    keep : above l ≤ above r + 1 → above r ≤ above l + 1 → t ≡ update_height l x r → Round l x r t
    clockwise :
        (a : Tree A) (y : A) (k : ℕ) (b : Tree A)
        → l ≡ node a y k b
        → above r + 1 < above l
        → (above b < above a) ⊎ (above b ≡ 0)
        → t ≡ update_height a y (update_height b x r)
        → Round l x r t
    counterclockwise :
        (a : Tree A) (y : A) (k : ℕ) (b : Tree A)
        → r ≡ node a y k b
        → above l + 1 < above r
        → above a ≤ above b
        → t ≡ update_height (update_height l x a) y b
        → Round l x r t
    double_clockwise :
        (a : Tree A) (y : A) (k : ℕ) (b : Tree A) (z : A) (j : ℕ) (c : Tree A)
        → l ≡ node a y k (node b z j c)
        → above r + 1 < above l
        → above a ≤ suc j
        → t ≡ update_height (update_height a y b) z (update_height c x r)
        → Round l x r t
    double_counterclockwise :
        (a : Tree A) (z : A) (j : ℕ) (b : Tree A) (y : A) (k : ℕ) (c : Tree A)
        → r ≡ node (node a z j b) y k c
        → above l + 1 < above r
        → above c < suc j
        → t ≡ update_height (update_height l x a) z (update_height b y c)
        → Round l x r t

  left_heavy :
      (a : Tree A) (y : A) (k : ℕ) (b : Tree A) (x : A) (h : ℕ) (r : Tree A)
      → above r < k
      → (t : Tree A) × (rebalance (node a y k b) x h r ≡ some t) × Round (node a y k b) x r t
  unfolding rebalance
  left_heavy a y k nil x h r p = (
    update_height a y (update_height nil x r),
    ground arith,
    clockwise a y k nil refl (omega arith) (inr refl) refl,
  )
  left_heavy nil y k (node b z j c) x h r p = (
    update_height (update_height nil y b) z (update_height c x r),
    ground arith,
    double_clockwise nil y k b z j c refl (omega arith) (omega arith) refl,
  )
  left_heavy (node a u i d) y k (node b z j c) x h r p = elim (dec_lt j i) [
    | yes q ↦ (
      update_height (node a u i d) y (update_height (node b z j c) x r),
      ground arith,
      clockwise (node a u i d) y k (node b z j c) refl (omega arith) (inl (omega arith)) refl,
    )
    | no q ↦ (
      update_height (update_height (node a u i d) y b) z (update_height c x r),
      ground arith,
      double_clockwise (node a u i d) y k b z j c refl (omega arith) (omega arith) refl,
    )
  ]

  right_heavy :
      (l : Tree A) (x : A) (h : ℕ) (a : Tree A) (y : A) (k : ℕ) (b : Tree A)
      → above l < k
      → (t : Tree A) × (rebalance l x h (node a y k b) ≡ some t) × Round l x (node a y k b) t
  unfolding rebalance
  right_heavy l x h nil y k b p = (
    update_height (update_height l x nil) y b,
    ground arith,
    counterclockwise nil y k b refl (omega arith) (omega arith) refl,
  )
  right_heavy l x h (node a z j c) y k nil p = (
    update_height (update_height l x a) z (update_height c y nil),
    ground arith,
    double_counterclockwise a z j c y k nil refl (omega arith) (omega arith) refl,
  )
  right_heavy l x h (node a z j c) y k (node b u i d) p = elim (dec_lt i j) [
    | yes q ↦ (
      update_height (update_height l x a) z (update_height c y (node b u i d)),
      ground arith,
      double_counterclockwise a z j c y k (node b u i d) refl (omega arith) (omega arith) refl,
    )
    | no q ↦ (
      update_height (update_height l x (node a z j c)) y (node b u i d),
      ground arith,
      counterclockwise (node a z j c) y k (node b u i d) refl (omega arith) (omega arith) refl,
    )
  ]

  rebalance_even :
      (l : Tree A) (x : A) (h : ℕ) (r : Tree A)
      → above l ≤ above r + 1
      → above r ≤ above l + 1
      → rebalance l x h r ≡ some (update_height l x r)
  unfolding rebalance
  rebalance_even l x h r p q = rw (ltb-false _ _ p, ltb-false _ _ q)

  -- Every round ends in one of these cases: no rotation reaches a null pointer, and the last
  -- `wwassert` is not reached.
  pub rebalance_total :
      (l : Tree A) (x : A) (h : ℕ) (r : Tree A)
      → (t : Tree A) × (rebalance l x h r ≡ some t) × Round l x r t
  unfolding rebalance
  rebalance_total l x h r = elim (dec_lt (above r + 1) (above l)) [
    | yes p ↦ tall_left l p
    | no p ↦ elim (dec_lt (above l + 1) (above r)) [
      | yes q ↦ tall_right r q
      | no q ↦ (
        update_height l x r,
        rebalance_even l x h r (omega arith) (omega arith),
        keep (omega arith) (omega arith) refl,
      )
    ]
  ]
    where
      tall_left :
          (s : Tree A)
          → above r + 1 < above s
          → (t : Tree A) × (rebalance s x h r ≡ some t) × Round s x r t
      tall_left nil p = absurd (omega arith)
      tall_left (node a y k b) p = left_heavy a y k b x h r (omega arith)

      tall_right :
          (s : Tree A)
          → above l + 1 < above s
          → (t : Tree A) × (rebalance l x h s ≡ some t) × Round l x s t
      tall_right nil p = absurd (omega arith)
      tall_right (node a y k b) p = right_heavy l x h a y k b (omega arith)
