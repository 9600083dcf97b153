-- ===== src/Avl/Find.antt =====
-- include/wwos/avl.h: `find` walks down past every node whose data are not larger.
use wwos.Prelude.{ℕ, ◌≡◌, refl, ap, List, [], ◌∷◌, some, false, ltb, Bool-cases, inl, inr}
use wwos.Avl.{Tree, nil, node, Side, left, right, turn, find, data_at}

module _ {A : Type 0} (key : A → ℕ) where
  -- A null child ends the walk; any other pointer found leads to a node.
  abbrev Valid : A → Tree A → Type 0
  Valid x nil = Unit
  Valid x (node l y h r) =
      (p : List Side) × (w : A) × (find key x (node l y h r) ≡ some p)
      × (data_at p (node l y h r) ≡ some w)

  below_left :
      (x : A) (l : Tree A) (y : A) (h : ℕ) (r : Tree A)
      → Valid x l
      → (p : List Side) × (w : A) × (turn left (find key x l) ≡ some p)
        × (data_at p (node l y h r) ≡ some w)
  unfolding find data_at
  below_left x nil y h r v = ([], y, refl, refl)
  below_left x (node a z k b) y h r (p, w, e, f) = (left ∷ p, w, ap (turn left) e, f)

  below_right :
      (x : A) (l : Tree A) (y : A) (h : ℕ) (r : Tree A)
      → Valid x r
      → (p : List Side) × (w : A) × (turn right (find key x r) ≡ some p)
        × (data_at p (node l y h r) ≡ some w)
  unfolding find data_at
  below_right x l y h nil v = ([], y, refl, refl)
  below_right x l y h (node a z k b) (p, w, e, f) = (right ∷ p, w, ap (turn right) e, f)

  -- The pointer that `find` returns leads to a node of the tree.
  find_in_tree : (x : A) (t : Tree A) → Valid x t
  unfolding find
  find_in_tree x nil = tt
  find_in_tree x (node l y h r) = elim (Bool-cases (ltb (key x) (key y))) [
    | inl e ↦ let (p, w, f, g) = below_left x l y h r (find_in_tree x l) in (p, w, rw e f, g)
    | inr e ↦ let (p, w, f, g) = below_right x l y h r (find_in_tree x r) in (p, w, rw e f, g)
  ]

  -- From a node with a right child the walk goes on into that child.
  pub find_past :
      (x : A) (l : Tree A) (y : A) (h : ℕ) (a : Tree A) (z : A) (k : ℕ) (b : Tree A)
      → ltb (key x) (key y) ≡ false
      → (p : List Side) × (w : A) × (find key x (node l y h (node a z k b)) ≡ some p)
        × (data_at p (node l y h (node a z k b)) ≡ some w)
        × (q : List Side) × (data_at q (node a z k b) ≡ some w)
  unfolding find data_at
  find_past x l y h a z k b e =
      let (q, w, f, g) = find_in_tree x (node a z k b) in
      (right ∷ q, w, rw e (ap (turn right) f), g, q, g)
