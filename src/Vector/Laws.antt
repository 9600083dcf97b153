-- ===== src/Vector/Laws.antt =====
-- include/wwos/vector.h: a vector is a list of its elements.
use wwos.Prelude.{
  ℕ, ◌+◌, ◌-◌, ◌*◌, ◌%◌, ◌^◌, ◌≤◌, ◌<◌, ◌≡◌, refl, sym, ap, ap₂, ◌∙◌, arith, List, [], ◌∷◌, ◌++◌,
  some, ◌>>=◌, ◌==◌, ltb-true, length, set, length-set, replicate, length-replicate, inl, inr,
  Bool-cases, ==_eq, ==_ne, if◌then◌else◌,
}
use wwos.Vector.{Vector, expand, push_back, shift_down, erase}
use wwos.Vector.Arrays.{
  take, drop, take-set_end, take-take, drop-take, copy_elements_lem, shift_down_lem,
}

module _ {ℓ} {A : Type ℓ} where
  -- The elements, first to last.
  abbrev pub items : Vector A → List A
  items v = take v.m_size v.m_data

  -- The array is as long as the capacity, which is not 0, and holds the elements.
  pub record IsValid (v : Vector A) : Type 0 where
    pub whole : length v.m_data ≡ v.m_capacity
    pub room : 0 < v.m_capacity
    pub fits : v.m_size ≤ v.m_capacity

  expand_lem :
      (default : A) (v : Vector A)
      → IsValid v
      → (e : Vector A) × (expand default v ≡ some e)
        × IsValid e
        × (e.m_size ≡ v.m_size)
        × (e.m_size < e.m_capacity)
        × (items e ≡ items v)
        × (e.m_capacity ≡ (if v.m_size == v.m_capacity then v.m_capacity * 2 else v.m_capacity))
  unfolding expand
  expand_lem default v w = elim (Bool-cases (v.m_size == v.m_capacity)) [
    | inl e ↦
        let full = ==_eq v.m_size v.m_capacity e in
        let n = length-replicate (v.m_capacity * 2) default in
        let (d, g, l, t) =
          copy_elements_lem v.m_size 0 v.m_data (replicate (v.m_capacity * 2) default)
            (omega (arith, w.whole, w.fits)) (omega (arith, n, w.fits)) refl in
        (
          record v { m_capacity = v.m_capacity * 2; m_data = d },
          rw (e, g, ◌>>=◌) refl,
          record { whole = l ∙ n; room = omega (arith, w.room); fits = omega (arith, w.fits) },
          refl,
          omega (arith, full, w.room),
          ap (λ k. take k d) {x = v.m_size} {y = 0 + v.m_size} (omega arith)
              ∙ t
              ∙ ap (λ k. take k v.m_data) {x = 0 + v.m_size} {y = v.m_size} (omega arith),
          rw e refl,
        )
    | inr e ↦
        let open_end = ==_ne v.m_size v.m_capacity e in
        (v, rw e refl, w, refl, omega (arith, open_end, w.fits), refl, rw e refl)
  ]

  -- `push_back` appends the element, and doubles the capacity where the array is full; no access is
  -- outside the array, and the vector stays valid.
  pub push_back-append :
      (default x : A) (v : Vector A)
      → IsValid v
      → (v' : Vector A) × (push_back default x v ≡ some v')
        × IsValid v'
        × (items v' ≡ items v ++ (x ∷ []))
        × (v'.m_capacity ≡ (if v.m_size == v.m_capacity then v.m_capacity * 2 else v.m_capacity))
  unfolding push_back
  push_back-append default x v w =
      let (e, f, u, s, r, t, c) = expand_lem default v w in
      let inside : e.m_size < length e.m_data = omega (arith, r, u.whole) in
      (
        record e { m_data = set e.m_data e.m_size x; m_size = e.m_size + 1 },
        rw (f, ltb-true e.m_size (length e.m_data) inside, ◌>>=◌) refl,
        record {
          whole = length-set e.m_data e.m_size x ∙ u.whole;
          room = u.room;
          fits = omega (arith, r);
        },
        take-set_end e.m_data e.m_size x inside ∙ ap (λ xs. xs ++ (x ∷ [])) t,
        c,
      )

  -- `erase` takes the element out and keeps the others in order; no access is outside the array, and
  -- the vector stays valid. Its size is a word.
  erase-append :
      (p : ℕ) (v : Vector A)
      → IsValid v
      → p < v.m_size
      → v.m_size < 2 ^ 64
      → (v' : Vector A) × (erase p v ≡ some v')
        × IsValid v'
        × (items v' ≡ take p (items v) ++ drop (p + 1) (items v))
  unfolding erase
  erase-append p v w h m =
      let last : (v.m_size + (2 ^ 64 - 1)) % 2 ^ 64 ≡ v.m_size - 1 = omega (arith, h, m) in
      let n = v.m_size - 1 - p in
      let (d, g, l, t) = shift_down_lem n p v.m_data (omega (arith, h, w.whole, w.fits)) in
      (
        record v { m_data = d; m_size = v.m_size - 1 },
        ap
              (λ k.
                shift_down (k - p) p v.m_data
                >>= (λ d'. some (record v { m_data = d'; m_size = k })))
              last
            ∙ ap (λ o. o >>= (λ d'. some (record v { m_data = d'; m_size = v.m_size - 1 }))) g,
        record { whole = l ∙ w.whole; room = w.room; fits = omega (arith, w.fits) },
        ap (λ k. take k d) {x = v.m_size - 1} {y = p + n} (omega (arith, h))
            ∙ t
            ∙ ap₂ (λ xs ys. xs ++ ys) (sym (take-take v.m_data p v.m_size (omega (arith, h))))
                (ap (λ k. take k (drop (p + 1) v.m_data)) {x = n} {y = v.m_size - (p + 1)}
                    (omega arith)
                  ∙ sym (drop-take v.m_data (p + 1) v.m_size (omega (arith, h)))),
      )
