-- ===== src/Avl/Remove.antt =====
-- include/wwos/avl.h: `remove` takes out the node that the pointer leads to, and nothing else.
use mathlib.Core.List.{append-ne-nil_of_right_ne-nil, cons≢nil}
use wwos.Prelude.{
  true, false, All, All-right, subst, ℕ, ◌≡◌, refl, List, [], ◌∷◌, ◌++◌, append_assoc, append-nil,
  sym, some, arith,
}
use wwos.Avl.{
  Tree, nil, node, Side, left, right, take_largest, unlink, remove, data_at, set_data, above,
  is_null, smallest,
}
use wwos.Avl.Shape.{to_list, IsMeasured, rebalance_total}
use wwos.Avl.Balance.{to_list-Round, Round-IsMeasured}

module _ {A : Type 0} where
  -- The data to the left of the node, and those to its right.
  abbrev pub before : List Side → Tree A → List A
  before p nil = []
  before [] (node l x h r) = to_list l
  before (left ∷ p) (node l x h r) = before p l
  before (right ∷ p) (node l x h r) = to_list l ++ (x ∷ before p r)

  abbrev pub after : List Side → Tree A → List A
  after p nil = []
  after [] (node l x h r) = to_list r
  after (left ∷ p) (node l x h r) = after p l ++ (x ∷ to_list r)
  after (right ∷ p) (node l x h r) = after p r

  pub data_at_root : (l : Tree A) (x : A) (h : ℕ) (r : Tree A) → data_at [] (node l x h r) ≡ some x
  unfolding data_at
  data_at_root l x h r = refl

  pub to_list-split :
      (p : List Side) (t : Tree A) (x : A)
      → data_at p t ≡ some x
      → to_list t ≡ before p t ++ (x ∷ after p t)
  unfolding data_at
  to_list-split [] nil x e = cc
  to_list-split (s ∷ p) nil x e = cc
  to_list-split [] (node l y h r) x e = ground arith
  to_list-split (left ∷ p) (node l y h r) x e = rw (to_list-split p l x e, append_assoc)
  to_list-split (right ∷ p) (node l y h r) x e = rw (to_list-split p r x e, append_assoc)

  take_largest_total :
      (l : Tree A) (x : A) (h : ℕ) (r : Tree A)
      → (y : A) × (t : Tree A) × (take_largest (node l x h r) ≡ some (y, t))
        × (to_list (node l x h r) ≡ to_list t ++ (y ∷ []))
        × (IsMeasured (node l x h r) → IsMeasured t)
  unfolding take_largest
  take_largest_total l x h nil = (x, l, refl, refl, λ m. m.1)
  take_largest_total l x h (node a y k b) =
      let (z, s, e, f, g) = take_largest_total a y k b in
      let (t, i, c) = rebalance_total l x h s in
      (
        z,
        t,
        rw (e, i),
        rw (f, to_list-Round l x s t c) (sym (append_assoc (to_list l) (x ∷ to_list s) (z ∷ []))),
        λ m. Round-IsMeasured l x s t m.1 (g m.2) c,
      )

  unlink_total :
      (l : Tree A) (x : A) (h : ℕ) (r : Tree A)
      → (t : Tree A) × (unlink (node l x h r) ≡ some t)
        × (to_list t ≡ to_list l ++ to_list r)
        × (IsMeasured (node l x h r) → IsMeasured t)
  unfolding unlink
  unlink_total nil x h nil = (nil, refl, refl, λ m. tt)
  unlink_total nil x h (node a y k b) = (node a y k b, refl, refl, λ m. m.2)
  unlink_total (node a y k b) x h nil = (node a y k b, refl, sym (append-nil _), λ m. m.1)
  unlink_total (node a y k b) x h (node c z i d) =
      let (w, s, e, f, g) = take_largest_total a y k b in
      let (t, j, o) = rebalance_total s w h (node c z i d) in
      (
        t,
        rw (e, j),
        rw (f, to_list-Round s w (node c z i d) t o)
            (sym (append_assoc (to_list s) (w ∷ []) (to_list c ++ (z ∷ to_list d)))),
        λ m. Round-IsMeasured s w (node c z i d) t (g m.1) m.2 o,
      )

  -- Removing a node from a tree whose heights are correct never stops the program. The other data stay, in their order, and the heights
  -- that the tree records stay correct.
  pub remove_refines :
      (p : List Side) (t : Tree A) (x : A)
      → data_at p t ≡ some x
      → IsMeasured t
      → (t' : Tree A) × (remove p t ≡ some t')
        × (to_list t ≡ before p t ++ (x ∷ after p t))
        × (to_list t' ≡ before p t ++ after p t)
        × IsMeasured t'
  unfolding remove data_at
  remove_refines [] nil x e m = cc
  remove_refines (s ∷ p) nil x e m = cc
  remove_refines [] (node l y h r) x e m =
      let (t, f, g, k) = unlink_total l y h r in (t, f, to_list-split [] (node l y h r) x e, g, k m)
  remove_refines (left ∷ p) (node l y h r) x e m =
      let (l', f, g, i, n) = remove_refines p l x e m.1 in
      let (t, j, c) = rebalance_total l' y h r in
      (
        t,
        rw (f, j),
        to_list-split (left ∷ p) (node l y h r) x e,
        rw (to_list-Round l' y r t c, i) (append_assoc (before p l) (after p l) (y ∷ to_list r)),
        Round-IsMeasured l' y r t n m.2 c,
      )
  remove_refines (right ∷ p) (node l y h r) x e m =
      let (r', f, g, i, n) = remove_refines p r x e m.2 in
      let (t, j, c) = rebalance_total l y h r' in
      (
        t,
        rw (f, j),
        to_list-split (right ∷ p) (node l y h r) x e,
        rw (to_list-Round l y r' t c, i)
            (sym (append_assoc (to_list l) (y ∷ before p r) (after p r))),
        Round-IsMeasured l y r' t m.1 n c,
      )

  -- `smallest` points to the first of the data in order; only the empty tree stops the program.
  smallest_first :
      (l : Tree A) (y : A) (h : ℕ) (r : Tree A)
      → (p : List Side) × (x : A) × (smallest (node l y h r) ≡ some p)
        × (data_at p (node l y h r) ≡ some x)
        × (to_list (node l y h r) ≡ x ∷ after p (node l y h r))
        × (before p (node l y h r) ≡ [])
  unfolding smallest data_at
  smallest_first nil y h r = ([], y, refl, refl, refl, refl)
  smallest_first (node a z k b) y h r =
      let (p, x, e, f, g, i) = smallest_first a z k b in (left ∷ p, x, rw e, f, rw g, i)

  above-set_data : (p : List Side) (v : A) (t : Tree A) → above (set_data p v t) ≡ above t
  unfolding set_data
  above-set_data [] v nil = refl
  above-set_data (s ∷ p) v nil = refl
  above-set_data [] v (node l y h r) = refl
  above-set_data (left ∷ p) v (node l y h r) = refl
  above-set_data (right ∷ p) v (node l y h r) = refl

  pub set_data_lem :
      (p : List Side) (v : A) (t : Tree A) (x : A)
      → data_at p t ≡ some x
      → IsMeasured t
      → (to_list (set_data p v t) ≡ before p t ++ (v ∷ after p t)) × IsMeasured (set_data p v t)
  unfolding data_at set_data
  set_data_lem [] v nil x e m = cc
  set_data_lem (s ∷ p) v nil x e m = cc
  set_data_lem [] v (node l y h r) x e m = (refl, m)
  set_data_lem (left ∷ p) v (node l y h r) x e m =
      let (f, n) = set_data_lem p v l x e m.1 in
      (rw (f, append_assoc), (rw above-set_data m.0, n, m.2))
  set_data_lem (right ∷ p) v (node l y h r) x e m =
      let (f, n) = set_data_lem p v r x e m.2 in
      (rw (f, append_assoc), (rw above-set_data m.0, m.1, n))

  -- In a tree with data and correct heights, taking out the node that `smallest` points to takes the
  -- first of the data in order, never stops the program, and keeps the heights correct.
  pub remove-smallest :
      (t : Tree A) (x : A) (xs : List A)
      → to_list t ≡ x ∷ xs
      → IsMeasured t
      → (p : List Side) × (t' : Tree A) × (is_null t ≡ false)
        × (smallest t ≡ some p)
        × (data_at p t ≡ some x)
        × (remove p t ≡ some t')
        × (to_list t' ≡ xs)
        × IsMeasured t'
  remove-smallest nil x xs e m = cc
  remove-smallest (node l y h r) x xs e m =
      let (p, z, f, g, i, j) = smallest_first l y h r in
      let first : z ≡ x = cc in
      let rest : after p (node l y h r) ≡ xs = cc in
      let (t', k, n, o, q) = remove_refines p (node l y h r) z g m in
      (p, t', refl, f, rw (← first) g, k, rw (o, j) rest, q)

  pub is_null-to_list : (t : Tree A) → to_list t ≡ [] → is_null t ≡ true
  is_null-to_list nil e = refl
  is_null-to_list (node nil x h r) e = cc
  is_null-to_list (node (node a y k b) x h r) e =
      absurd (append-ne-nil_of_right_ne-nil (to_list (node a y k b)) (λ f. cons≢nil f) e)

  -- What holds of all data holds of the data that a pointer leads to.
  pub All-data_at {κ} :
      (P : A → Type κ) (p : List Side) (t : Tree A) (x : A)
      → data_at p t ≡ some x
      → All P (to_list t)
      → P x
  All-data_at P p t x e a =
      (All-right P (before p t) (x ∷ after p t) (subst (All P) (to_list-split p t x e) a)).0
