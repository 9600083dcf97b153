-- ===== src/Paths/Names.antt =====
-- kernel/filesystem.cc: the child of a name, among the entries of a directory.
use wwos.Prelude.{
  ℕ, ◌≡◌, refl, ap₂, List, [], ◌∷◌, Option, none, some, ◌==◌, ==_true, ==_eq, true, Bool-cases, inl,
  inr, subst,
}
use wwos.Directory.{is_name}
use wwos.Paths.{find_child}

is_name_refl : (xs : List ℕ) → is_name xs xs ≡ true
is_name_refl [] = refl
is_name_refl (x ∷ xs) = rw (==_true x x refl) (is_name_refl xs)

is_name-eq : (xs ys : List ℕ) → is_name xs ys ≡ true → xs ≡ ys
is_name-eq [] [] e = refl
is_name-eq [] (y ∷ ys) e = cc
is_name-eq (x ∷ xs) [] e = cc
is_name-eq (x ∷ xs) (y ∷ ys) e = elim (Bool-cases (x == y)) [
  | inl f ↦ ap₂ (λ (a : ℕ) (l : List ℕ). a ∷ l) (==_eq x y f) (is_name-eq xs ys (rw f at e))
  | inr f ↦ absurd (let g = (rw f at e) in cc)
]

-- Whether two names are the same.
pub same_name : (xs ys : List ℕ) → Dec (xs ≡ ys)
same_name xs ys = elim (Bool-cases (is_name xs ys)) [
  | inl e ↦ yes (is_name-eq xs ys e)
  | inr e ↦ no (λ p. let f = subst (λ zs. is_name xs zs ≡ true) p (is_name_refl xs) in cc)
]

-- The inode of the first entry with this name.
pub lookup : List (List ℕ × ℕ) → List ℕ → Option ℕ
lookup [] name = none
lookup ((child, id) ∷ children) name = elim (same_name child name) [
  | yes p ↦ some id
  | no p ↦ lookup children name
]

pub find_child-eq-lookup :
    (name : List ℕ) (children : List (List ℕ × ℕ)) → find_child name children ≡ lookup children name
unfolding lookup
find_child-eq-lookup name [] = refl
find_child-eq-lookup name ((child, id) ∷ children) =
    go (find_child-eq-lookup name children) (same_name child name)
  where
    go :
        find_child name children ≡ lookup children name
        → (d : Dec (child ≡ name))
        → find_child name ((child, id) ∷ children)
          ≡ elim d as (λ x. Option ℕ) [ yes p ↦ some id | no p ↦ lookup children name ]
    go rest (yes p) = rw (subst (λ n. is_name child n ≡ true) p (is_name_refl child)) refl
    go rest (no n) = elim (Bool-cases (is_name child name)) [
      | inl e ↦ absurd (n (is_name-eq child name e))
      | inr e ↦ rw e rest
    ]
