-- ===== src/Format/Decimal.antt =====
-- include/wwos/format.h, include/wwos/string_view.h: an integer is printed in decimal and read again.
use wwos.Prelude.{
  ℕ, zero, suc, ◌+◌, ◌*◌, ◌/◌, ◌%◌, ◌^◌, ◌<◌, ◌≡◌, refl, sym, ap, ◌∙◌, arith, List, [], ◌∷◌, Bool,
  true, false, some, ◌==◌, ==_true, ==_false, ==_eq, if◌then◌else◌, length, Bool-cases, inl, inr,
}
use wwos.Strings.{stoi_digits, stoi}
use wwos.Format.{digits, format_integer}

-- `10 ^ (n + 1)`
abbrev limit : ℕ → ℕ
limit zero = 10
limit (suc n) = 10 * limit n

digit_read :
    (d result : ℕ) (cs : List ℕ)
    → d < 10
    → stoi_digits ((48 + d) ∷ cs) result ≡ stoi_digits cs (result * 10 + d)
unfolding stoi_digits
digit_read d result cs h = ground arith

limit_div : (fuel n : ℕ) → n < limit (suc fuel) → n / 10 < limit fuel
limit_div fuel n h = omega arith

digits_stop :
    (fuel n : ℕ) (out : List ℕ)
    → (n / 10 == 0) ≡ true
    → digits false (suc fuel) n out ≡ (48 + n % 10) ∷ out
unfolding digits
digits_stop fuel n out e = rw e refl

digits_more :
    (fuel n : ℕ) (out : List ℕ)
    → (n / 10 == 0) ≡ false
    → digits false (suc fuel) n out ≡ digits false fuel (n / 10) ((48 + n % 10) ∷ out)
unfolding digits
digits_more fuel n out e = rw e refl

last_value : (n : ℕ) → n / 10 ≡ 0 → 0 * 10 + n % 10 ≡ n
last_value n z = omega arith

next_value : (n : ℕ) → (n / 10) * 10 + n % 10 ≡ n
next_value n = omega arith

last_lem :
    (k n : ℕ) (out : List ℕ)
    → n / 10 ≡ 0
    → (n / 10 == 0) ≡ true
    → stoi_digits (digits false (suc k) n out) 0 ≡ stoi_digits out n
last_lem k n out z e =
    ap (λ xs. stoi_digits xs 0) (digits_stop k n out e)
    ∙ (digit_read (n % 10) 0 out (omega arith) ∙ ap (λ x. stoi_digits out x) (last_value n z))

digits_lem :
    (fuel n : ℕ) (out : List ℕ)
    → n < limit fuel
    → stoi_digits (digits false (suc fuel) n out) 0 ≡ stoi_digits out n
digits_lem zero n out h = last_lem 0 n out (omega arith) (==_true (n / 10) 0 (omega arith))
digits_lem (suc k) n out h =
    let rest = digits_lem k (n / 10) ((48 + n % 10) ∷ out) (limit_div k n h) in
    elim (Bool-cases (n / 10 == 0)) [
      | inl e ↦ last_lem (suc k) n out (==_eq (n / 10) 0 e) e
      | inr e ↦
          ap (λ xs. stoi_digits xs 0) (digits_more (suc k) n out e)
          ∙ (rest
              ∙ (digit_read (n % 10) (n / 10) out (omega arith)
                  ∙ ap (λ x. stoi_digits out x) (next_value n)))
    ]

digits_one : (n : ℕ) (out : List ℕ) → digits false 1 n out ≡ (48 + n % 10) ∷ out
unfolding digits
digits_one n out = elim (Bool-cases (n / 10 == 0)) [
  | inl e ↦ digits_stop 0 n out e
  | inr e ↦ digits_more 0 n out e
]

digits_start :
    (fuel n : ℕ) (out : List ℕ)
    → (d : ℕ) × (cs : List ℕ) × (digits false (suc fuel) n out ≡ (48 + d) ∷ cs)
digits_start zero n out = (n % 10, out, digits_one n out)
digits_start (suc k) n out =
    let rest = digits_start k (n / 10) ((48 + n % 10) ∷ out) in
    elim (Bool-cases (n / 10 == 0)) [
      | inl e ↦ (n % 10, out, digits_stop (suc k) n out e)
      | inr e ↦ (rest.0, rest.1, digits_more (suc k) n out e ∙ rest.2)
    ]

stoi_minus :
    (d v : ℕ) (cs : List ℕ)
    → stoi_digits ((48 + d) ∷ cs) 0 ≡ some v
    → stoi (45 ∷ ((48 + d) ∷ cs)) ≡ some (true, v)
unfolding stoi
stoi_minus d v cs e = rw (==_false (length ((48 + d) ∷ cs)) 0 (omega arith), e) refl

stoi_plus :
    (d v : ℕ) (cs : List ℕ)
    → stoi_digits ((48 + d) ∷ cs) 0 ≡ some v
    → stoi ((48 + d) ∷ cs) ≡ some (false, v)
unfolding stoi
stoi_plus d v cs e = rw (==_false (48 + d) 45 (omega arith), e) refl

format_digits :
    (bytes v : ℕ) (negative : Bool)
    → 0 < v
    → (negative ≡ true → v * 2 < 2 ^ (8 * bytes))
    → format_integer [] bytes negative v
      ≡ (if negative then 45 ∷ digits false 20 v [] else digits false 20 v [])
unfolding format_integer
format_digits bytes v false p b = rw (==_false v 0 (omega arith)) refl
format_digits bytes v true p b =
    let l = b refl in
    rw (==_false v 0 (omega arith), ==_false (v * 2) (2 ^ (8 * bytes)) (omega (arith, l))) refl

read_end : (n : ℕ) → stoi_digits [] n ≡ some n
unfolding stoi_digits
read_end n = refl

read_start :
    (v d : ℕ) (cs : List ℕ)
    → digits false 20 v [] ≡ (48 + d) ∷ cs
    → v < 2 ^ 64
    → stoi_digits ((48 + d) ∷ cs) 0 ≡ some v
read_start v d cs s b =
    ap (λ xs. stoi_digits xs 0) (sym s) ∙ (digits_lem 19 v [] (omega arith) ∙ read_end v)

stoi-digits :
    (v : ℕ) (negative : Bool)
    → v < 2 ^ 64
    → stoi (if negative then 45 ∷ digits false 20 v [] else digits false 20 v [])
      ≡ some (negative, v)
stoi-digits v true b =
    let s = digits_start 19 v [] in
    ap (λ xs. stoi (45 ∷ xs)) s.2 ∙ stoi_minus s.0 v s.1 (read_start v s.0 s.1 s.2 b)
stoi-digits v false b =
    let s = digits_start 19 v [] in ap stoi s.2 ∙ stoi_plus s.0 v s.1 (read_start v s.0 s.1 s.2 b)

format_zero : (bytes : ℕ) → stoi (format_integer [] bytes false 0) ≡ some (false, 0)
unfolding format_integer stoi stoi_digits
format_zero bytes = refl

-- What `format` prints of an integer below 2 ^ 31 in absolute value, which no overflow of the `int` that
-- `stoi` computes in reaches, `stoi` reads as the same number with the same sign. Zero has no sign, and a
-- negative integer is not the least of its type.
pub stoi-format_integer :
    (bytes v : ℕ) (negative : Bool)
    → v < 2 ^ 31
    → (negative ≡ true → (0 < v) × (v * 2 < 2 ^ (8 * bytes)))
    → stoi (format_integer [] bytes negative v) ≡ some (negative, v)
stoi-format_integer bytes zero true b s = absurd (let (l, u) = s refl in omega (arith, l))
stoi-format_integer bytes zero false b s = format_zero bytes
stoi-format_integer bytes (suc v) negative b s =
    ap stoi (format_digits bytes (suc v) negative (omega arith) (λ e. (s e).1))
    ∙ stoi-digits (suc v) negative (omega arith)
