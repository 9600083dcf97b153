-- ===== src/Avl/Insert.antt =====
-- include/wwos/avl.h: `insert` puts the data after those that are not larger, and keeps the
-- recorded heights and the balance.
use wwos.Prelude.{
  true, false, ℕ, ◌+◌, ◌≤◌, ◌≡◌, refl, inl, inr, List, [], ◌∷◌, ◌++◌, sym, ◌∙◌, ap, arith, Option,
  none, some, ltb, ◌>>=◌, Bool-cases,
}
use wwos.Avl.{
  Tree, nil, node, above, leaf, rebalance, Side, left, right, modify, turn, find, attach, insert,
}
use wwos.Avl.Shape.{to_list, IsMeasured, IsBalanced, Round, rebalance_total}
use wwos.Avl.Balance.{
  to_list-Round, Round-IsMeasured, Grew, Grew-bounds, Round-Grew_left, Round-Grew_right,
}
use wwos.Avl.Sorted.{
  IsSorted, insert_sorted, insert_sorted-left, insert_sorted-right, insert_sorted-IsSorted,
  IsSorted-left, IsSorted-right, IsSorted-below,
}

module _ {A : Type 0} (key : A → ℕ) where
  turn-some : (s : Side) (o : Option (List Side)) → (p : List Side) × (turn s o ≡ some p)
  turn-some s none = ([], refl)
  turn-some s (some p) = (s ∷ p, refl)

  find-node :
      (x : A) (l : Tree A) (y : A) (h : ℕ) (r : Tree A)
      → (p : List Side) × (find key x (node l y h r) ≡ some p)
  unfolding find
  find-node x l y h r = elim (Bool-cases (ltb (key x) (key y))) [
    | inl e ↦ rw e (turn-some left (find key x l))
    | inr e ↦ rw e (turn-some right (find key x r))
  ]

  insert_left :
      (x : A) (l : Tree A) (y : A) (h : ℕ) (r : Tree A)
      → ltb (key x) (key y) ≡ true
      → insert key x (node l y h r) ≡ (insert key x l >>= (λ l'. rebalance l' y h r))
  unfolding insert
  insert_left x nil y h r e = rw (e, insert, find) (rw (e, attach))
  insert_left x (node a z k b) y h r e =
      let (p, f) = find-node x a z k b in rw (e, f, insert, find, turn, modify, attach)

  insert_right :
      (x : A) (l : Tree A) (y : A) (h : ℕ) (r : Tree A)
      → ltb (key x) (key y) ≡ false
      → insert key x (node l y h r) ≡ (insert key x r >>= (λ r'. rebalance l y h r'))
  unfolding insert
  insert_right x l y h nil e = rw (e, insert, find) (rw (e, attach))
  insert_right x l y h (node a z k b) e =
      let (p, f) = find-node x a z k b in rw (e, f, insert, find, turn, modify, attach)

  -- What holds of the tree that the rounds leave, for whatever held before.
  record Inserted (x : A) (t t' : Tree A) : Type 0 where
    order : IsSorted key (to_list t) → to_list t' ≡ insert_sorted key x (to_list t)
    measured : IsMeasured t → IsMeasured t'
    balanced : IsMeasured t → IsBalanced t → IsBalanced t' × Grew (above t) t'

  Inserted-left :
      (x : A) (l : Tree A) (y : A) (h : ℕ) (r l' t : Tree A)
      → ltb (key x) (key y) ≡ true
      → Inserted x l l'
      → Round l' y r t
      → Inserted x (node l y h r) t
  Inserted-left x l y h r l' t e i c = record {
    order = λ s.
        to_list-Round l' y r t c
        ∙ ap (λ xs. xs ++ (y ∷ to_list r))
            (i.order (IsSorted-left key (to_list l) (y ∷ to_list r) s))
        ∙ sym (insert_sorted-left key x (to_list l) y (to_list r) e);
    measured = λ m. Round-IsMeasured l' y r t (i.measured m.1) m.2 c;
    balanced = λ m b.
        let (bl, g) = i.balanced m.1 b.2 in
        rw m.0 (Round-Grew_left (above l) l' y r t (i.measured m.1) bl b.3 g b.0 b.1 c);
  }

  Inserted-right :
      (x : A) (l : Tree A) (y : A) (h : ℕ) (r r' t : Tree A)
      → ltb (key x) (key y) ≡ false
      → Inserted x r r'
      → Round l y r' t
      → Inserted x (node l y h r) t
  Inserted-right x l y h r r' t e i c = record {
    order = λ s.
        to_list-Round l y r' t c
        ∙ ap (λ xs. to_list l ++ (y ∷ xs))
            (i.order (IsSorted-right key (to_list l) (y ∷ to_list r) s).1)
        ∙ sym (
            insert_sorted-right key x (to_list l) y (to_list r)
              (IsSorted-below key (to_list l) y (to_list r) s) (ground arith));
    measured = λ m. Round-IsMeasured l y r' t m.1 (i.measured m.2) c;
    balanced = λ m b.
        let (br, g) = i.balanced m.2 b.3 in
        rw m.0 (Round-Grew_right (above r) l y r' t (i.measured m.2) b.2 br g b.1 b.0 c);
  }

  insert_total : (x : A) (t : Tree A) → (t' : Tree A) × (insert key x t ≡ some t') × Inserted x t t'
  unfolding insert
  insert_total x nil = (
    leaf x,
    refl,
    record {
      order = λ s. refl;
      measured = λ m. omega arith;
      balanced = λ m b. (omega arith, inr (refl, inl refl));
    },
  )
  insert_total x (node l y h r) = elim (Bool-cases (ltb (key x) (key y))) [
    | inl e ↦
        let (l', f, i) = insert_total x l in
        let (t, g, c) = rebalance_total l' y h r in
        (
          t,
          insert_left x l y h r e ∙ ap (λ o. o >>= (λ s. rebalance s y h r)) f ∙ g,
          Inserted-left x l y h r l' t e i c,
        )
    | inr e ↦
        let (r', f, i) = insert_total x r in
        let (t, g, c) = rebalance_total l y h r' in
        (
          t,
          insert_right x l y h r e ∙ ap (λ o. o >>= (λ s. rebalance l y h s)) f ∙ g,
          Inserted-right x l y h r r' t e i c,
        )
  ]

  -- `insert` into a tree in order whose heights are correct never stops the program, and puts the
  -- new data behind the data that are not larger, as insertion into a sorted list does. The order
  -- and the correct heights stay.
  pub insert_refines :
      (x : A) (t : Tree A)
      → IsSorted key (to_list t)
      → IsMeasured t
      → (t' : Tree A) × (insert key x t ≡ some t')
        × (to_list t' ≡ insert_sorted key x (to_list t))
        × IsSorted key (to_list t')
        × IsMeasured t'
  insert_refines x t s m =
      let (t', e, i) = insert_total x t in
      (t', e, i.order s, rw (i.order s) (insert_sorted-IsSorted key x (to_list t) s), i.measured m)

  -- `insert` into a balanced tree with correct heights leaves such a tree, not lower and at most one
  -- level higher.
  pub insert-IsBalanced :
      (x : A) (t : Tree A)
      → IsMeasured t
      → IsBalanced t
      → (t' : Tree A) × (insert key x t ≡ some t')
        × IsMeasured t'
        × IsBalanced t'
        × (above t ≤ above t')
        × (above t' ≤ above t + 1)
  insert-IsBalanced x t m b =
      let (t', e, i) = insert_total x t in
      let (b', g) = i.balanced m b in
      let (low, high) = Grew-bounds (above t) t' g in (t', e, i.measured m, b', low, high)
