-- ===== src/Avl/Balance.antt =====
-- include/wwos/avl.h: what one round of `update_height_and_rebalance` keeps and what it restores.
use wwos.Prelude.{
  ℕ, suc, ◌+◌, ◌≤◌, ◌<◌, max, ◌≡◌, refl, ◌≢◌, ◌⊎◌, inl, inr, ◌∷◌, ◌++◌, append_assoc, subst, ap,
  if-ltb-eq-max, dec_lt, arith,
}
use wwos.Avl.{Tree, nil, node, above, update_height}
use wwos.Avl.Shape.{
  to_list, IsMeasured, IsBalanced, Round, keep, clockwise, counterclockwise, double_clockwise,
  double_counterclockwise,
}

grew_left :
    (n m k : ℕ)
    → n ≤ m
    → m ≤ n + 1
    → (suc (max m k) ≡ suc (max n k)) ⊎ ((max m k ≡ suc (max n k)) × (m ≢ k))
grew_left n m k p q = elim (dec_lt n m) [
  | yes u ↦ elim (dec_lt n k) [ yes v ↦ inl (omega arith) | no v ↦ inr (omega arith) ]
  | no u ↦ inl (omega arith)
]

grew_right :
    (n m k : ℕ)
    → n ≤ m
    → m ≤ n + 1
    → (suc (max k m) ≡ suc (max k n)) ⊎ ((max k m ≡ suc (max k n)) × (k ≢ m))
grew_right n m k p q = elim (dec_lt n m) [
  | yes u ↦ elim (dec_lt n k) [ yes v ↦ inl (omega arith) | no v ↦ inr (omega arith) ]
  | no u ↦ inl (omega arith)
]

module _ {A : Type 0} where
  above-update_height :
      (l : Tree A) (x : A) (r : Tree A)
      → above (update_height l x r) ≡ suc (max (above l) (above r))
  unfolding update_height
  above-update_height l x r = ap suc (if-ltb-eq-max (above l) (above r))

  to_list-update_height :
      (l : Tree A) (x : A) (r : Tree A)
      → to_list (update_height l x r) ≡ to_list l ++ (x ∷ to_list r)
  unfolding update_height
  to_list-update_height l x r = refl

  update_height-IsMeasured :
      (l : Tree A) (x : A) (r : Tree A)
      → IsMeasured l
      → IsMeasured r
      → IsMeasured (update_height l x r)
  unfolding update_height
  update_height-IsMeasured l x r ml mr = (omega (arith, above-update_height l x r), ml, mr)

  update_height-IsBalanced :
      (l : Tree A) (x : A) (r : Tree A)
      → above l ≤ above r + 1
      → above r ≤ above l + 1
      → IsBalanced l
      → IsBalanced r
      → IsBalanced (update_height l x r)
  unfolding update_height
  update_height-IsBalanced l x r p q bl br = (p, q, bl, br)

  -- A round moves no data: the tree reads from left to right as before.
  pub to_list-Round :
      (l : Tree A) (x : A) (r t : Tree A) → Round l x r t → to_list t ≡ to_list l ++ (x ∷ to_list r)
  to_list-Round l x r t (keep p q e) = rw (e, to_list-update_height)
  to_list-Round l x r t (clockwise a y k b e p q f) =
      rw (e, f) (simp (to_list-update_height, append_assoc))
  to_list-Round l x r t (counterclockwise a y k b e p q f) =
      rw (e, f) (simp (to_list-update_height, append_assoc))
  to_list-Round l x r t (double_clockwise a y k b z j c e p q f) =
      rw (e, f) (simp (to_list-update_height, append_assoc))
  to_list-Round l x r t (double_counterclockwise a z j b y k c e p q f) =
      rw (e, f) (simp (to_list-update_height, append_assoc))

  -- A round records the heights of all the nodes that it touches.
  pub Round-IsMeasured :
      (l : Tree A) (x : A) (r t : Tree A)
      → IsMeasured l
      → IsMeasured r
      → Round l x r t
      → IsMeasured t
  Round-IsMeasured l x r t ml mr (keep p q e) = rw e (update_height-IsMeasured l x r ml mr)
  Round-IsMeasured l x r t ml mr (clockwise a y k b e p q f) =
      let m = subst IsMeasured e ml in
      rw f (update_height-IsMeasured a y _ m.1 (update_height-IsMeasured b x r m.2 mr))
  Round-IsMeasured l x r t ml mr (counterclockwise a y k b e p q f) =
      let m = subst IsMeasured e mr in
      rw f (update_height-IsMeasured _ y b (update_height-IsMeasured l x a ml m.1) m.2)
  Round-IsMeasured l x r t ml mr (double_clockwise a y k b z j c e p q f) =
      let m = subst IsMeasured e ml in
      rw f (
        update_height-IsMeasured _ z _ (update_height-IsMeasured a y b m.1 m.2.1)
          (update_height-IsMeasured c x r m.2.2 mr))
  Round-IsMeasured l x r t ml mr (double_counterclockwise a z j b y k c e p q f) =
      let m = subst IsMeasured e mr in
      rw f (
        update_height-IsMeasured _ z _ (update_height-IsMeasured l x a ml m.1.1)
          (update_height-IsMeasured b y c m.1.2 m.2))

  -- Along the way up from a new leaf, a subtree is as high as before or one higher. One that is
  -- higher is the leaf itself or leans to a side.
  abbrev pub Grew : ℕ → Tree A → Type 0
  Grew old nil = ⊥
  Grew old (node a y k b) = (suc k ≡ old) ⊎ ((k ≡ old) × ((k ≡ 0) ⊎ (above a ≢ above b)))

  pub Grew-bounds : (old : ℕ) (t : Tree A) → Grew old t → (old ≤ above t) × (above t ≤ old + 1)
  Grew-bounds old nil g = absurd g
  Grew-bounds old (node a y k b) (inl e) = omega arith
  Grew-bounds old (node a y k b) (inr e) = omega arith

  update_height-Grew :
      (n : ℕ) (l : Tree A) (x : A) (r : Tree A)
      → (suc (max (above l) (above r)) ≡ n) ⊎ ((max (above l) (above r) ≡ n) × (above l ≢ above r))
      → Grew n (update_height l x r)
  unfolding update_height
  update_height-Grew n l x r (inl e) = inl (rw if-ltb-eq-max e)
  update_height-Grew n l x r (inr d) = inr (rw if-ltb-eq-max d.0, inr d.1)

  -- The rounds on the way up from a new leaf keep the tree balanced: the subtree on the left ...
  pub Round-Grew_left :
      (n : ℕ) (l : Tree A) (x : A) (r t : Tree A)
      → IsMeasured l
      → IsBalanced l
      → IsBalanced r
      → Grew n l
      → n ≤ above r + 1
      → above r ≤ n + 1
      → Round l x r t
      → IsBalanced t × Grew (suc (max n (above r))) t
  Round-Grew_left n l x r t ml bl br g p q (keep u v e) =
      let (low, high) = Grew-bounds n l g in
      rw e (
        update_height-IsBalanced l x r u v bl br,
        update_height-Grew _ l x r (grew_left n (above l) (above r) low high),
      )
  Round-Grew_left n l x r t ml bl br g p q (clockwise a y k b e u v f) =
      let m = subst IsMeasured e ml in
      let w = subst IsBalanced e bl in
      let g' = subst (Grew n) e g in
      let u' = subst (λ s. above r + 1 < above s) e u in
      let inner = above-update_height b x r in
      rw f (
        update_height-IsBalanced a y _ (omega arith) (omega arith) w.2
            (update_height-IsBalanced b x r (omega arith) (omega arith) w.3 br),
        update_height-Grew _ a y _ (inl (omega arith)),
      )
  Round-Grew_left n l x r t ml bl br g p q (counterclockwise a y k b e u v f) =
      absurd (omega (arith, Grew-bounds n l g))
  Round-Grew_left n l x r t ml bl br g p q (double_clockwise a y k b z j c e u v f) =
      let m = subst IsMeasured e ml in
      let w = subst IsBalanced e bl in
      let g' = subst (Grew n) e g in
      let u' = subst (λ s. above r + 1 < above s) e u in
      let lower = above-update_height a y b in
      let upper = above-update_height c x r in
      rw f (
        update_height-IsBalanced _ z _ (omega arith) (omega arith)
            (update_height-IsBalanced a y b (omega arith) (omega arith) w.2 w.3.2)
            (update_height-IsBalanced c x r (omega arith) (omega arith) w.3.3 br),
        update_height-Grew _ _ z _ (inl (omega arith)),
      )
  Round-Grew_left n l x r t ml bl br g p q (double_counterclockwise a z j b y k c e u v f) =
      absurd (omega (arith, Grew-bounds n l g))

  -- ... and the one on the right.
  pub Round-Grew_right :
      (n : ℕ) (l : Tree A) (x : A) (r t : Tree A)
      → IsMeasured r
      → IsBalanced l
      → IsBalanced r
      → Grew n r
      → n ≤ above l + 1
      → above l ≤ n + 1
      → Round l x r t
      → IsBalanced t × Grew (suc (max (above l) n)) t
  Round-Grew_right n l x r t mr bl br g p q (keep u v e) =
      let (low, high) = Grew-bounds n r g in
      rw e (
        update_height-IsBalanced l x r u v bl br,
        update_height-Grew _ l x r (grew_right n (above r) (above l) low high),
      )
  Round-Grew_right n l x r t mr bl br g p q (counterclockwise a y k b e u v f) =
      let m = subst IsMeasured e mr in
      let w = subst IsBalanced e br in
      let g' = subst (Grew n) e g in
      let u' = subst (λ s. above l + 1 < above s) e u in
      let inner = above-update_height l x a in
      rw f (
        update_height-IsBalanced _ y b (omega arith) (omega arith)
            (update_height-IsBalanced l x a (omega arith) (omega arith) bl w.2) w.3,
        update_height-Grew _ _ y b (inl (omega arith)),
      )
  Round-Grew_right n l x r t mr bl br g p q (clockwise a y k b e u v f) =
      absurd (omega (arith, Grew-bounds n r g))
  Round-Grew_right n l x r t mr bl br g p q (double_counterclockwise a z j b y k c e u v f) =
      let m = subst IsMeasured e mr in
      let w = subst IsBalanced e br in
      let g' = subst (Grew n) e g in
      let u' = subst (λ s. above l + 1 < above s) e u in
      let lower = above-update_height l x a in
      let upper = above-update_height b y c in
      rw f (
        update_height-IsBalanced _ z _ (omega arith) (omega arith)
            (update_height-IsBalanced l x a (omega arith) (omega arith) bl w.2.2)
            (update_height-IsBalanced b y c (omega arith) (omega arith) w.2.3 w.3),
        update_height-Grew _ _ z _ (inl (omega arith)),
      )
  Round-Grew_right n l x r t mr bl br g p q (double_clockwise a y k b z j c e u v f) =
      absurd (omega (arith, Grew-bounds n r g))
