-- ===== src/Avl/Sorted.antt =====
-- Lists in the order of a number of their elements, as the specification of the search tree.
use wwos.Prelude.{
  ℕ, ◌≤◌, ◌≡◌, List, [], ◌∷◌, ◌++◌, ltb, true, if◌then◌else◌, All, All-append, All-left, All-right,
  Option, none, some, arith, ◌==◌, Bool-cases, inl, inr,
}

module _ {A : Type 0} (key : A → ℕ) where
  abbrev pub IsSorted : List A → Type 0
  IsSorted [] = Unit
  IsSorted (x ∷ xs) = All (λ y. key x ≤ key y) xs × IsSorted xs

  -- Before the first element with a larger key.
  abbrev pub insert_sorted : A → List A → List A
  insert_sorted x [] = x ∷ []
  insert_sorted x (y ∷ ys) = if ltb (key x) (key y) then x ∷ y ∷ ys else y ∷ insert_sorted x ys

  -- The first element with this key.
  abbrev pub lookup : ℕ → List A → Option A
  lookup k [] = none
  lookup k (y ∷ ys) = if key y == k then some y else lookup k ys

  All-le_trans : (m k : ℕ) (xs : List A) → m ≤ k → All (λ y. k ≤ key y) xs → All (λ y. m ≤ key y) xs
  All-le_trans m k [] p h = tt
  All-le_trans m k (x ∷ xs) p h = (omega arith, All-le_trans m k xs p h.1)

  All-le_trans_up :
      (m k : ℕ) (xs : List A) → m ≤ k → All (λ y. key y ≤ m) xs → All (λ y. key y ≤ k) xs
  All-le_trans_up m k [] p h = tt
  All-le_trans_up m k (x ∷ xs) p h = (omega arith, All-le_trans_up m k xs p h.1)

  pub IsSorted-left : (xs ys : List A) → IsSorted (xs ++ ys) → IsSorted xs
  IsSorted-left [] ys h = tt
  IsSorted-left (x ∷ xs) ys h = (All-left _ xs ys h.0, IsSorted-left xs ys h.1)

  pub IsSorted-right : (xs ys : List A) → IsSorted (xs ++ ys) → IsSorted ys
  IsSorted-right [] ys h = h
  IsSorted-right (x ∷ xs) ys h = IsSorted-right xs ys h.1

  pub IsSorted-below :
      (xs : List A) (y : A) (ys : List A) → IsSorted (xs ++ (y ∷ ys)) → All (λ x. key x ≤ key y) xs
  IsSorted-below [] y ys h = tt
  IsSorted-below (x ∷ xs) y ys h =
      ((All-right (λ z. key x ≤ key z) xs (y ∷ ys) h.0).0, IsSorted-below xs y ys h.1)

  IsSorted-remove :
      (xs : List A) (y : A) (ys : List A) → IsSorted (xs ++ (y ∷ ys)) → IsSorted (xs ++ ys)
  IsSorted-remove [] y ys h = h.1
  IsSorted-remove (x ∷ xs) y ys h = (
    All-append _ xs ys (All-left _ xs (y ∷ ys) h.0) (All-right _ xs (y ∷ ys) h.0).1,
    IsSorted-remove xs y ys h.1,
  )

  pub insert_sorted-left :
      (x : A) (xs : List A) (y : A) (ys : List A)
      → ltb (key x) (key y) ≡ true
      → insert_sorted x (xs ++ (y ∷ ys)) ≡ insert_sorted x xs ++ (y ∷ ys)
  insert_sorted-left x [] y ys h = rw h
  insert_sorted-left x (z ∷ zs) y ys h = ground (arith, insert_sorted-left x zs y ys h)

  pub insert_sorted-right :
      (x : A) (xs : List A) (y : A) (ys : List A)
      → All (λ z. key z ≤ key y) xs
      → key y ≤ key x
      → insert_sorted x (xs ++ (y ∷ ys)) ≡ xs ++ (y ∷ insert_sorted x ys)
  insert_sorted-right x [] y ys a h = ground arith
  insert_sorted-right x (z ∷ zs) y ys a h = ground (arith, insert_sorted-right x zs y ys a.1 h)

  All-insert_sorted {κ} :
      (P : A → Type κ) (x : A) (ys : List A) → P x → All P ys → All P (insert_sorted x ys)
  All-insert_sorted P x [] p a = (p, tt)
  All-insert_sorted P x (y ∷ ys) p a = elim (Bool-cases (ltb (key x) (key y))) [
    | inl e ↦ rw e (p, a)
    | inr e ↦ rw e (a.0, All-insert_sorted P x ys p a.1)
  ]

  -- A sorted list stays sorted.
  pub insert_sorted-IsSorted : (x : A) (ys : List A) → IsSorted ys → IsSorted (insert_sorted x ys)
  insert_sorted-IsSorted x [] s = (tt, tt)
  insert_sorted-IsSorted x (y ∷ ys) s = elim (Bool-cases (ltb (key x) (key y))) [
    | inl e ↦
        let h : key x ≤ key y = ground arith in rw e ((h, All-le_trans (key x) (key y) ys h s.0), s)
    | inr e ↦
        let h : key y ≤ key x = ground arith in
        rw e (All-insert_sorted _ x ys h s.0, insert_sorted-IsSorted x ys s.1)
  ]
