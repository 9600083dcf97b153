-- ===== src/Avl/Search.antt =====
-- include/wwos/avl.h: `find_exact` and `items`.
use mathlib.Core.List.{Perm, perm_middle}
use mathlib.Core.List.Perm
use wwos.Prelude.{
  ℕ, zero, suc, ◌+◌, ◌≤◌, ◌<◌, ◌≡◌, ◌≢◌, refl, List, [], ◌∷◌, ◌++◌, append_assoc, append-nil, sym,
  ◌∙◌, ap, Option, none, some, ◌>>=◌, arith, All, All-append, Bool-cases, inl, inr, ltb,
}
use wwos.Avl.{
  Tree, nil, node, Side, left, right, data_at, find_exact, size, push_child, items_loop, items,
}
use wwos.Avl.Shape.{to_list}
use wwos.Avl.Sorted.{IsSorted, IsSorted-left, IsSorted-right, IsSorted-below}

>>=-cons-eq-some :
    (o : Option (List Side)) (s : Side) {p : List Side}
    → (o >>= (λ q. some (s ∷ q))) ≡ some p
    → (q : List Side) × (o ≡ some q) × (p ≡ s ∷ q)
>>=-cons-eq-some none s e = cc
>>=-cons-eq-some (some q) s e = (q, refl, cc)

>>=-cons-eq-none :
    (o : Option (List Side)) (s : Side) → (o >>= (λ q. some (s ∷ q))) ≡ none → o ≡ none
>>=-cons-eq-none none s e = refl
>>=-cons-eq-none (some q) s e = cc

module _ {A : Type 0} (key : A → ℕ) where
  -- The node that `find_exact` returns is in the tree, and its data have the key that was sought.
  pub find_exact_sound :
      (x : A) (t : Tree A) (p : List Side)
      → find_exact key x t ≡ some p
      → (y : A) × (data_at p t ≡ some y) × (key y ≡ key x)
  unfolding find_exact data_at
  find_exact_sound x nil p e = cc
  find_exact_sound x (node l y h r) p e = elim (Bool-cases (ltb (key x) (key y))) [
    | inl u ↦
        let (q, f, g) = >>=-cons-eq-some (find_exact key x l) left (rw (u, find_exact) at e) in
        rw g (find_exact_sound x l q f)
    | inr u ↦ elim (Bool-cases (ltb (key y) (key x))) [
      | inl v ↦
          let (q, f, g) =
            >>=-cons-eq-some (find_exact key x r) right (rw (u, v, find_exact) at e) in
          rw g (find_exact_sound x r q f)
      | inr v ↦
          let f : some [] ≡ some p = rw (u, v, find_exact) at e in
          let g : p ≡ [] = cc in rw g (y, refl, ground arith)
    ]
  ]

  All-lt-ne : (k m : ℕ) (xs : List A) → k < m → All (λ y. m ≤ key y) xs → All (λ y. key y ≢ k) xs
  All-lt-ne k m [] h a = tt
  All-lt-ne k m (x ∷ xs) h a = (omega arith, All-lt-ne k m xs h a.1)

  All-gt-ne : (k m : ℕ) (xs : List A) → m < k → All (λ y. key y ≤ m) xs → All (λ y. key y ≢ k) xs
  All-gt-ne k m [] h a = tt
  All-gt-ne k m (x ∷ xs) h a = (omega arith, All-gt-ne k m xs h a.1)

  -- Where `find_exact` returns a null pointer for a tree in order, no data of the tree have the key.
  pub find_exact_complete :
      (x : A) (t : Tree A)
      → IsSorted key (to_list t)
      → find_exact key x t ≡ none
      → All (λ y. key y ≢ key x) (to_list t)
  unfolding find_exact
  find_exact_complete x nil s e = tt
  find_exact_complete x (node l y h r) s e = elim (Bool-cases (ltb (key x) (key y))) [
    | inl u ↦
        let f = >>=-cons-eq-none (find_exact key x l) left (rw (u, find_exact) at e) in
        let h : key x < key y = ground arith in
        let above_y = IsSorted-right key (to_list l) (y ∷ to_list r) s in
        All-append _ (to_list l) (y ∷ to_list r)
          (find_exact_complete x l (IsSorted-left key (to_list l) (y ∷ to_list r) s) f)
          (omega arith, All-lt-ne (key x) (key y) (to_list r) h above_y.0)
    | inr u ↦ elim (Bool-cases (ltb (key y) (key x))) [
      | inl v ↦
          let f = >>=-cons-eq-none (find_exact key x r) right (rw (u, v, find_exact) at e) in
          let h : key y < key x = ground arith in
          All-append _ (to_list l) (y ∷ to_list r)
            (All-gt-ne (key x) (key y) (to_list l) h
              (IsSorted-below key (to_list l) y (to_list r) s))
            (
              omega arith,
              find_exact_complete x r (IsSorted-right key (to_list l) (y ∷ to_list r) s).1 f,
            )
      | inr v ↦
          let f : ◌≡◌ {A = Option (List Side)} (some []) none = rw (u, v, find_exact) at e in cc
    ]
  ]

module _ {A : Type 0} where
  -- A node before its subtrees, the left one first.
  abbrev pub preorder : Tree A → List A
  preorder nil = []
  preorder (node l x h r) = x ∷ (preorder l ++ preorder r)

  preorder-perm : (t : Tree A) → Perm (preorder t) (to_list t)
  preorder-perm nil = Perm.refl []
  preorder-perm (node l x h r) =
      Perm.trans (Perm.cons x (Perm.append (preorder-perm l) (preorder-perm r)))
        (Perm.symm (perm_middle (to_list l) (to_list r)))

  abbrev all_size : List (Tree A) → ℕ
  all_size [] = 0
  all_size (t ∷ ts) = size t + all_size ts

  abbrev all_preorder : List (Tree A) → List A
  all_preorder [] = []
  all_preorder (t ∷ ts) = preorder t ++ all_preorder ts

  abbrev AllNode : List (Tree A) → Type 0
  AllNode [] = Unit
  AllNode (nil ∷ ts) = ⊥
  AllNode (node l x h r ∷ ts) = AllNode ts

  push_child-AllNode : (t : Tree A) (ts : List (Tree A)) → AllNode ts → AllNode (push_child t ts)
  push_child-AllNode nil ts a = a
  push_child-AllNode (node l x h r) ts a = a

  all_size-push_child :
      (t : Tree A) (ts : List (Tree A)) → all_size (push_child t ts) ≡ size t + all_size ts
  all_size-push_child nil ts = omega arith
  all_size-push_child (node l x h r) ts = refl

  all_preorder-push_child :
      (t : Tree A) (ts : List (Tree A))
      → all_preorder (push_child t ts) ≡ preorder t ++ all_preorder ts
  all_preorder-push_child nil ts = refl
  all_preorder-push_child (node l x h r) ts = refl

  items_loop_lem :
      (fuel : ℕ) (ts : List (Tree A)) (xs : List A)
      → AllNode ts
      → all_size ts < fuel
      → items_loop fuel ts xs ≡ some (xs ++ all_preorder ts)
  unfolding items_loop
  items_loop_lem zero ts xs a h = elim h [ ]
  items_loop_lem (suc f) [] xs a h = rw append-nil
  items_loop_lem (suc f) (nil ∷ ts) xs a h = absurd a
  items_loop_lem (suc f) (node l x h r ∷ ts) xs a p =
      items_loop_lem f (push_child l (push_child r ts)) (xs ++ x ∷ [])
        (push_child-AllNode l _ (push_child-AllNode r ts a))
        (omega (arith, all_size-push_child l (push_child r ts), all_size-push_child r ts))
      ∙ rw (all_preorder-push_child l (push_child r ts), all_preorder-push_child r ts)
          (ap some (
            append_assoc xs (x ∷ []) _
            ∙ ap (λ ys. xs ++ (x ∷ ys)) (sym (append_assoc (preorder l) (preorder r) _))))

  -- `items` returns each data of the tree once, a node before its subtrees.
  items-preorder : (t : Tree A) → (items t ≡ some (preorder t)) × Perm (preorder t) (to_list t)
  unfolding items
  items-preorder t = (
    items_loop_lem (suc (size t)) (push_child t []) [] (push_child-AllNode t [] tt)
          (omega (arith, all_size-push_child t []))
        ∙ rw all_preorder-push_child (ap some (append-nil (preorder t))),
    preorder-perm t,
  )
