-- ===== src/Format/Escape.antt =====
-- include/wwos/format.h: `noalloc_generic_printf` on text without arguments.
use wwos.Prelude.{
  ℕ, zero, suc, ◌≤◌, ◌≡◌, refl, sym, ap, ◌∙◌, arith, List, [], ◌∷◌, true, false, some, ◌==◌,
  if◌then◌else◌, length, Bool-cases, inl, inr, ==_eq,
}
use wwos.Format.{Arg, printf_from, printf}

-- The text with every `{` doubled.
abbrev pub escape : List ℕ → List ℕ
escape [] = []
escape (c ∷ cs) = if c == 123 then c ∷ (c ∷ escape cs) else c ∷ escape cs

printf_doubled :
    (fuel p c : ℕ) (cs out : List ℕ) (args : List Arg)
    → (c == 123) ≡ true
    → printf_from fuel p cs args ≡ some out
    → printf_from (suc fuel) p (c ∷ (c ∷ cs)) args ≡ some (123 ∷ out)
unfolding printf_from
printf_doubled fuel p c cs out args z e = rw (z, e) refl

printf_plain :
    (fuel p c : ℕ) (cs out : List ℕ) (args : List Arg)
    → (c == 123) ≡ false
    → printf_from fuel p cs args ≡ some out
    → printf_from (suc fuel) p (c ∷ cs) args ≡ some (c ∷ out)
unfolding printf_from
printf_plain fuel p c cs out args n e = rw (n, e) refl

printf_none : (fuel p : ℕ) (args : List Arg) → printf_from fuel p [] args ≡ some []
unfolding printf_from
printf_none zero p args = refl
printf_none (suc fuel) p args = refl

escape_open : (c : ℕ) (cs : List ℕ) → (c == 123) ≡ true → escape (c ∷ cs) ≡ c ∷ (c ∷ escape cs)
escape_open c cs e = rw e refl

escape_plain : (c : ℕ) (cs : List ℕ) → (c == 123) ≡ false → escape (c ∷ cs) ≡ c ∷ escape cs
escape_plain c cs e = rw e refl

-- A step of the loop, given what the rest of the text becomes on as much fuel as it is long.
Rest : ℕ → List Arg → List ℕ → Type 0
Rest p args cs =
    (fuel : ℕ) → length (escape cs) ≤ fuel → printf_from fuel p (escape cs) args ≡ some cs

open_step :
    (p c : ℕ) (args : List Arg) (cs : List ℕ)
    → c ≡ 123
    → (c == 123) ≡ true
    → Rest p args cs
    → Rest p args (c ∷ cs)
unfolding Rest
open_step p c args cs z e rest zero h = absurd (omega (arith, ap length (escape_open c cs e)))
open_step p c args cs z e rest (suc fuel) h =
    ap (λ xs. printf_from (suc fuel) p xs args) (escape_open c cs e)
    ∙ (printf_doubled fuel p c (escape cs) cs args e
          (rest fuel (omega (arith, ap length (escape_open c cs e))))
        ∙ ap (λ x. some (x ∷ cs)) (sym z))

plain_step :
    (p c : ℕ) (args : List Arg) (cs : List ℕ)
    → (c == 123) ≡ false
    → Rest p args cs
    → Rest p args (c ∷ cs)
unfolding Rest
plain_step p c args cs e rest zero h = absurd (omega (arith, ap length (escape_plain c cs e)))
plain_step p c args cs e rest (suc fuel) h =
    ap (λ xs. printf_from (suc fuel) p xs args) (escape_plain c cs e)
    ∙ printf_plain fuel p c (escape cs) cs args e
        (rest fuel (omega (arith, ap length (escape_plain c cs e))))

printf_from-escape : (p : ℕ) (args : List Arg) (cs : List ℕ) → Rest p args cs
unfolding Rest
printf_from-escape p args [] fuel h = printf_none fuel p args
printf_from-escape p args (c ∷ cs) fuel h =
    let rest = printf_from-escape p args cs in
    elim (Bool-cases (c == 123)) [
      | inl e ↦ open_step p c args cs (==_eq c 123 e) e rest fuel h
      | inr e ↦ plain_step p c args cs e rest fuel h
    ]

-- A text in which every `{` is doubled is printed as the text, whatever the arguments are.
pub printf-escape : (cs : List ℕ) (args : List Arg) → printf (escape cs) args ≡ some cs
unfolding printf Rest
printf-escape cs args = printf_from-escape 0 args cs (length (escape cs)) (omega arith)
