-- ===== src/Map/Strict.antt =====
-- Lists with strictly growing keys: lookups in them, and what insertion and removal do to lookups.
use wwos.Prelude.{
  ℕ, ◌≤◌, ◌<◌, ◌≡◌, ◌≢◌, refl, List, [], ◌∷◌, ◌++◌, ltb, ◌==◌, if◌then◌else◌, All, All-append,
  All-left, All-right, none, some, arith, Bool-cases, inl, inr,
}
use wwos.Avl.Sorted.{IsSorted, insert_sorted, lookup}

module _ {A : Type 0} (key : A → ℕ) where
  abbrev pub IsStrict : List A → Type 0
  IsStrict [] = Unit
  IsStrict (x ∷ xs) = All (λ y. key x < key y) xs × IsStrict xs

  All-lt-le : (k : ℕ) (xs : List A) → All (λ y. k < key y) xs → All (λ y. k ≤ key y) xs
  All-lt-le k [] a = tt
  All-lt-le k (x ∷ xs) a = (omega arith, All-lt-le k xs a.1)

  pub IsStrict-IsSorted : (xs : List A) → IsStrict xs → IsSorted key xs
  IsStrict-IsSorted [] s = tt
  IsStrict-IsSorted (x ∷ xs) s = (All-lt-le (key x) xs s.0, IsStrict-IsSorted xs s.1)

  All-lt_trans : (m k : ℕ) (xs : List A) → m < k → All (λ y. k < key y) xs → All (λ y. m < key y) xs
  All-lt_trans m k [] h a = tt
  All-lt_trans m k (x ∷ xs) h a = (omega arith, All-lt_trans m k xs h a.1)

  All-insert_sorted :
      (k : ℕ) (x : A) (ys : List A)
      → k < key x
      → All (λ y. k < key y) ys
      → All (λ y. k < key y) (insert_sorted key x ys)
  All-insert_sorted k x [] p a = (p, tt)
  All-insert_sorted k x (y ∷ ys) p a = elim (Bool-cases (ltb (key x) (key y))) [
    | inl e ↦ rw e (p, a)
    | inr e ↦ rw e (a.0, All-insert_sorted k x ys p a.1)
  ]

  pub insert_sorted-IsStrict :
      (x : A) (ys : List A)
      → IsStrict ys
      → All (λ y. key y ≢ key x) ys
      → IsStrict (insert_sorted key x ys)
  insert_sorted-IsStrict x [] s n = (tt, tt)
  insert_sorted-IsStrict x (y ∷ ys) s n = elim (Bool-cases (ltb (key x) (key y))) [
    | inl e ↦
        let h : key x < key y = ground arith in rw e ((h, All-lt_trans (key x) (key y) ys h s.0), s)
    | inr e ↦
        let h : key y < key x = ground (arith, n.0) in
        rw e (All-insert_sorted (key y) x ys h s.0, insert_sorted-IsStrict x ys s.1 n.1)
  ]

  pub IsStrict-remove :
      (xs : List A) (y : A) (ys : List A) → IsStrict (xs ++ (y ∷ ys)) → IsStrict (xs ++ ys)
  IsStrict-remove [] y ys h = h.1
  IsStrict-remove (x ∷ xs) y ys h = (
    All-append _ xs ys (All-left _ xs (y ∷ ys) h.0) (All-right _ xs (y ∷ ys) h.0).1,
    IsStrict-remove xs y ys h.1,
  )

  pub lookup-absent : (k : ℕ) (xs : List A) → All (λ y. key y ≢ k) xs → lookup key k xs ≡ none
  lookup-absent k [] a = refl
  lookup-absent k (x ∷ xs) a = ground (arith, a.0, lookup-absent k xs a.1)

  pub lookup-insert_sorted :
      (k : ℕ) (x : A) (ys : List A)
      → All (λ y. key y ≢ key x) ys
      → lookup key k (insert_sorted key x ys) ≡ (if key x == k then some x else lookup key k ys)
  lookup-insert_sorted k x [] n = refl
  lookup-insert_sorted k x (y ∷ ys) n = ground (arith, n.0, lookup-insert_sorted k x ys n.1)

  lookup-above : (k m : ℕ) (xs : List A) → k ≤ m → All (λ y. m < key y) xs → lookup key k xs ≡ none
  lookup-above k m [] h a = refl
  lookup-above k m (x ∷ xs) h a = ground (arith, lookup-above k m xs h a.1)

  -- An element of such a list is what a lookup of its key finds ...
  pub lookup-middle :
      (xs : List A) (y : A) (ys : List A)
      → IsStrict (xs ++ (y ∷ ys))
      → lookup key (key y) (xs ++ (y ∷ ys)) ≡ some y
  lookup-middle [] y ys s = ground arith
  lookup-middle (x ∷ xs) y ys s =
      ground (arith, (All-right _ xs (y ∷ ys) s.0).0, lookup-middle xs y ys s.1)

  -- ... and without it only that lookup changes.
  pub lookup_remove :
      (k : ℕ) (xs : List A) (y : A) (ys : List A)
      → IsStrict (xs ++ (y ∷ ys))
      → lookup key k (xs ++ ys) ≡ (if key y == k then none else lookup key k (xs ++ (y ∷ ys)))
  lookup_remove k [] y ys s = ground (arith, lookup-above k (key y) ys)
  lookup_remove k (x ∷ xs) y ys s =
      ground (arith, (All-right _ xs (y ∷ ys) s.0).0, lookup_remove k xs y ys s.1)

  -- Another element with the same key, in its place.
  pub lookup_replace :
      (k : ℕ) (xs : List A) (y z : A) (ys : List A)
      → key z ≡ key y
      → IsStrict (xs ++ (y ∷ ys))
      → lookup key k (xs ++ (z ∷ ys))
        ≡ (if key y == k then some z else lookup key k (xs ++ (y ∷ ys)))
  lookup_replace k [] y z ys e s = ground arith
  lookup_replace k (x ∷ xs) y z ys e s =
      ground (arith, (All-right _ xs (y ∷ ys) s.0).0, lookup_replace k xs y z ys e s.1)

  pub IsStrict-replace :
      (xs : List A) (y z : A) (ys : List A)
      → key z ≡ key y
      → IsStrict (xs ++ (y ∷ ys))
      → IsStrict (xs ++ (z ∷ ys))
  IsStrict-replace [] y z ys e s = rw e s
  IsStrict-replace (x ∷ xs) y z ys e s =
      let a = All-right (λ w. key x < key w) xs (y ∷ ys) s.0 in
      (
        All-append _ xs (z ∷ ys) (All-left _ xs (y ∷ ys) s.0) (rw e a.0, a.1),
        IsStrict-replace xs y z ys e s.1,
      )
