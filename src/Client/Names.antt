-- ===== src/Client/Names.antt =====
-- libwwos/syscall.cc: the names in a buffer, one behind the other with a zero between them.
use wwos.Prelude.{
  ℕ, zero, suc, ◌+◌, ◌-◌, ◌<◌, ◌≡◌, ◌⊎◌, inl, inr, refl, ap, ◌∙◌, arith, List, [], ◌∷◌, false, some,
  ◌>>=◌, ltb-true, ltb-false, length, All,
}
use wwos.Bytes.{Buffer}
use wwos.Directory.{has_zero}
use wwos.Directory.Entries.{Spells, c_string-Spells}
use wwos.Client.{parse_null_terminated_strings}

-- A name has a character, and no zero.
pub record IsListed (name : List ℕ) : Type 0 where
  pub some_size : 0 < length name
  pub no_zero : has_zero name ≡ false

abbrev pub names_size : List (List ℕ) → ℕ
names_size [] = 0
names_size (name ∷ names) = length name + 1 + names_size names

-- The names stand from byte `i` on, each with a zero behind it.
abbrev pub SpellsAll : Buffer → ℕ → List (List ℕ) → Type 0
SpellsAll b i [] = Unit
SpellsAll b i (name ∷ names) = Spells b i name × SpellsAll b (i + length name + 1) names

stops :
    (fuel i size : ℕ) (b : Buffer)
    → (i ≡ size) ⊎ ((i < size) × (b i ≡ 0))
    → parse_null_terminated_strings (suc fuel) i size b ≡ some []
unfolding parse_null_terminated_strings
stops fuel i size b (inl e) = rw (ltb-false i size (omega arith)) refl
stops fuel i size b (inr (l, z)) =
    rw (ltb-true i size l) (rw (c_string-Spells [] (size - i) i b z refl (omega arith)) refl)

next :
    (fuel i size : ℕ) (b : Buffer) (name : List ℕ)
    → IsListed name
    → i + length name < size
    → Spells b i name
    → parse_null_terminated_strings (suc fuel) i size b ≡ (
        parse_null_terminated_strings fuel (i + length name + 1) size b
        >>= (λ out. some (name ∷ out)))
unfolding parse_null_terminated_strings
next fuel i size b [] a l s = absurd (omega (arith, a.some_size))
next fuel i size b (c ∷ cs) a l s =
    rw (ltb-true i size (omega arith))
      (rw (c_string-Spells (c ∷ cs) (size - i) i b s a.no_zero (omega (arith, l))) refl)

-- The names are read in their order, up to the end of the buffer or to a zero behind the last.
pub parse_lem :
    (names : List (List ℕ)) (fuel i size : ℕ) (b : Buffer)
    → All IsListed names
    → length names < fuel
    → SpellsAll b i names
    → (i + names_size names ≡ size)
      ⊎ ((i + names_size names < size) × (b (i + names_size names) ≡ 0))
    → parse_null_terminated_strings fuel i size b ≡ some names
parse_lem names zero i size b a f s e = absurd (omega arith)
parse_lem [] (suc fuel) i size b a f s e = stops fuel i size b (shift e)
  where
    shift :
        (i + 0 ≡ size) ⊎ ((i + 0 < size) × (b (i + 0) ≡ 0)) → (i ≡ size) ⊎ ((i < size) × (b i ≡ 0))
    shift (inl e) = inl (omega arith)
    shift (inr (l, z)) = inr (omega arith, ap b {x = i} {y = i + 0} (omega arith) ∙ z)
parse_lem (name ∷ names) (suc fuel) i size b a f s e =
    next fuel i size b name a.0 (inside e) s.0
    ∙ ap (λ o. o >>= (λ out. some (name ∷ out)))
        (parse_lem names fuel (i + length name + 1) size b a.1 (omega (arith, f)) s.1 (shift e))
  where
    inside :
        (i + (length name + 1 + names_size names) ≡ size)
          ⊎ ((i + (length name + 1 + names_size names) < size)
              × (b (i + (length name + 1 + names_size names)) ≡ 0))
        → i + length name < size
    inside (inl e) = omega arith
    inside (inr (l, z)) = omega arith

    shift :
        (i + (length name + 1 + names_size names) ≡ size)
          ⊎ ((i + (length name + 1 + names_size names) < size)
              × (b (i + (length name + 1 + names_size names)) ≡ 0))
        → (i + length name + 1 + names_size names ≡ size)
          ⊎ ((i + length name + 1 + names_size names < size)
              × (b (i + length name + 1 + names_size names) ≡ 0))
    shift (inl e) = inl (omega arith)
    shift (inr (l, z)) = inr (
      omega arith,
      ap b {x = i + length name + 1 + names_size names}
            {y = i + (length name + 1 + names_size names)} (omega arith)
          ∙ z,
    )
