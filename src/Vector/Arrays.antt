-- ===== src/Vector/Arrays.antt =====
-- include/wwos/vector.h: the loops over an array.
use wwos.Prelude.{
  ℕ, zero, suc, ◌+◌, ◌-◌, ◌≤◌, ◌<◌, ◌≡◌, refl, sym, ap, ap₂, ◌∙◌, arith, List, [], ◌∷◌, ◌++◌, some,
  ◌>>=◌, ltb-true, length, get_elem?, set, length-set, append-nil, append_assoc,
}
use wwos.Vector.{copy_elements, shift_down}

module _ {ℓ} {A : Type ℓ} where
  -- The first `n` elements, and those behind them.
  abbrev pub take : ℕ → List A → List A
  take zero xs = []
  take (suc n) [] = []
  take (suc n) (x ∷ xs) = x ∷ take n xs

  abbrev pub drop : ℕ → List A → List A
  drop zero xs = xs
  drop (suc n) [] = []
  drop (suc n) (x ∷ xs) = drop n xs

  pub get_elem?-some : (xs : List A) (i : ℕ) → i < length xs → (x : A) × (get_elem? xs i ≡ some x)
  get_elem?-some [] i h = absurd (omega arith)
  get_elem?-some (x ∷ xs) zero h = (x, refl)
  get_elem?-some (x ∷ xs) (suc i) h = get_elem?-some xs i (omega arith)

  pub take-set_end :
      (xs : List A) (n : ℕ) (x : A)
      → n < length xs
      → take (n + 1) (set xs n x) ≡ take n xs ++ (x ∷ [])
  take-set_end [] n x h = absurd (omega arith)
  take-set_end (y ∷ ys) zero x h = refl
  take-set_end (y ∷ ys) (suc n) x h =
      ap (λ k. take k (y ∷ set ys n x)) {x = suc n + 1} {y = suc (n + 1)} (omega arith)
      ∙ ap (λ zs. y ∷ zs) (take-set_end ys n x (omega arith))

  pub take-set_ge : (xs : List A) (n i : ℕ) (x : A) → n ≤ i → take n (set xs i x) ≡ take n xs
  take-set_ge xs zero i x h = refl
  take-set_ge [] (suc n) i x h = refl
  take-set_ge (y ∷ ys) (suc n) zero x h = absurd (omega arith)
  take-set_ge (y ∷ ys) (suc n) (suc i) x h = ap (λ zs. y ∷ zs) (take-set_ge ys n i x (omega arith))

  pub take-suc :
      (xs : List A) (n : ℕ) (x : A)
      → get_elem? xs n ≡ some x
      → take (n + 1) xs ≡ take n xs ++ (x ∷ [])
  take-suc [] n x e = absurd (cc)
  take-suc (y ∷ ys) zero x e = cc
  take-suc (y ∷ ys) (suc n) x e =
      ap (λ k. take k (y ∷ ys)) {x = suc n + 1} {y = suc (n + 1)} (omega arith)
      ∙ ap (λ zs. y ∷ zs) (take-suc ys n x e)

  -- The loop copies: the first elements become those of the other array.
  pub copy_elements_lem :
      (n i : ℕ) (from to : List A)
      → i + n ≤ length from
      → i + n ≤ length to
      → take i to ≡ take i from
      → (d : List A) × (copy_elements n i from to ≡ some d)
        × (length d ≡ length to)
        × (take (i + n) d ≡ take (i + n) from)
  unfolding copy_elements
  copy_elements_lem zero i from to p q e = (
    to,
    refl,
    refl,
    ap (λ k. take k to) {x = i + 0} {y = i} (omega arith)
        ∙ e
        ∙ ap (λ k. take k from) {x = i} {y = i + 0} (omega arith),
  )
  copy_elements_lem (suc n) i from to p q e =
      let (x, f) = get_elem?-some from i (omega arith) in
      let (d, g, l, t) =
        copy_elements_lem n (i + 1) from (set to i x) (omega arith)
          (omega (arith, length-set to i x))
          (take-set_end to i x (omega arith)
            ∙ ap (λ zs. zs ++ (x ∷ [])) e
            ∙ sym (take-suc from i x f)) in
      (
        d,
        rw (f, ltb-true i (length to) (omega arith), ◌>>=◌) g,
        l ∙ length-set to i x,
        ap (λ k. take k d) {x = i + suc n} {y = i + 1 + n} (omega arith)
            ∙ t
            ∙ ap (λ k. take k from) {x = i + 1 + n} {y = i + suc n} (omega arith),
      )

  drop-set_lt : (xs : List A) (n i : ℕ) (x : A) → i < n → drop n (set xs i x) ≡ drop n xs
  drop-set_lt xs zero i x h = absurd (omega arith)
  drop-set_lt [] (suc n) i x h = refl
  drop-set_lt (y ∷ ys) (suc n) zero x h = refl
  drop-set_lt (y ∷ ys) (suc n) (suc i) x h = drop-set_lt ys n i x (omega arith)

  pub drop-cons :
      (xs : List A) (n : ℕ) (x : A) → get_elem? xs n ≡ some x → drop n xs ≡ x ∷ drop (n + 1) xs
  drop-cons [] n x e = absurd (cc)
  drop-cons (y ∷ ys) zero x e = cc
  drop-cons (y ∷ ys) (suc n) x e =
      drop-cons ys n x e
      ∙ ap (λ k. x ∷ drop k (y ∷ ys)) {x = suc (n + 1)} {y = suc n + 1} (omega arith)

  pub take-take : (xs : List A) (m n : ℕ) → m ≤ n → take m (take n xs) ≡ take m xs
  take-take xs zero n h = refl
  take-take xs (suc m) zero h = absurd (omega arith)
  take-take [] (suc m) (suc n) h = refl
  take-take (x ∷ xs) (suc m) (suc n) h = ap (λ ys. x ∷ ys) (take-take xs m n (omega arith))

  pub drop-take : (xs : List A) (k n : ℕ) → k ≤ n → drop k (take n xs) ≡ take (n - k) (drop k xs)
  drop-take xs zero n h = ap (λ m. take m xs) {x = n} {y = n - 0} (omega arith)
  drop-take xs (suc k) zero h = absurd (omega arith)
  drop-take [] (suc k) (suc n) h = take-nil (suc n - suc k)
    where
      take-nil : (m : ℕ) → [] ≡ take m []
      take-nil zero = refl
      take-nil (suc m) = refl
  drop-take (x ∷ xs) (suc k) (suc n) h =
      drop-take xs k n (omega arith)
      ∙ ap (λ m. take m (drop k xs)) {x = n - k} {y = suc n - suc k} (omega arith)

  -- The loop moves `n` elements down by one.
  pub shift_down_lem :
      (n i : ℕ) (xs : List A)
      → i + n < length xs
      → (d : List A) × (shift_down n i xs ≡ some d)
        × (length d ≡ length xs)
        × (take (i + n) d ≡ take i xs ++ take n (drop (i + 1) xs))
  unfolding shift_down
  shift_down_lem zero i xs h = (
    xs,
    refl,
    refl,
    ap (λ k. take k xs) {x = i + 0} {y = i} (omega arith) ∙ sym (append-nil (take i xs)),
  )
  shift_down_lem (suc n) i xs h =
      let (x, f) = get_elem?-some xs (i + 1) (omega arith) in
      let (d, g, l, t) = shift_down_lem n (i + 1) (set xs i x) (omega (arith, length-set xs i x)) in
      (
        d,
        rw (f, ltb-true i (length xs) (omega arith), ◌>>=◌) g,
        l ∙ length-set xs i x,
        ap (λ k. take k d) {x = i + suc n} {y = i + 1 + n} (omega arith)
            ∙ t
            ∙ ap₂ (λ ys zs. ys ++ take n zs) (take-set_end xs i x (omega arith))
                (drop-set_lt xs (i + 1 + 1) i x (omega arith))
            ∙ append_assoc (take i xs) (x ∷ []) (take n (drop (i + 1 + 1) xs))
            ∙ ap (λ zs. take i xs ++ take (suc n) zs) (sym (drop-cons xs (i + 1) x f)),
      )
