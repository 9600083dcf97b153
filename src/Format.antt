-- ===== src/Format.antt =====
-- include/wwos/format.h: the printing of formatted text, as the list of the characters that `put`
-- gets. A result `none` is a failed `wwassert`. The overload for vectors is left out.
pub mod Decimal
pub mod Escape
mod Tests
use wwos.Prelude.{
  ℕ, zero, suc, ◌+◌, ◌-◌, ◌*◌, ◌/◌, ◌%◌, ◌^◌, List, [], ◌∷◌, ◌++◌, Bool, true, false, ◌||◌, Option,
  none, some, ◌>>=◌, ◌==◌, if◌then◌else◌, length, replicate, get_elem?,
}
use wwos.Directory.{is_name}
use wwos.Strings.{stoi}

-- An integer is the bytes of its type, whether it is negative, and its absolute value.
pub data Arg : Type 0 where
  integer : ℕ → Bool → ℕ → Arg
  pointer : ℕ → Arg
  text : List ℕ → Arg

-- "0123456789abcdef"[d]
abbrev pub hex_digit : ℕ → ℕ
hex_digit d = if d / 10 == 0 then 48 + d else 87 + d

-- The loop from the highest digit down, with `n` digits to go.
pub hex_digits : ℕ → ℕ → List ℕ
hex_digits zero v = []
hex_digits (suc n) v = hex_digit (v / 2 ^ (4 * n) % 16) ∷ hex_digits n v

-- `'0' + elem % 10`, where `elem` is `n`, or `-n` if it is still negative.
abbrev pub digit : Bool → ℕ → ℕ
digit still_negative n = if still_negative then 48 - n % 10 else 48 + n % 10

-- `buffer`, its last byte first, behind the bytes that are there; `fuel` rounds at most.
pub digits : Bool → ℕ → ℕ → List ℕ → List ℕ
digits still_negative zero n out = out
digits still_negative (suc fuel) n out =
    let rest = digits still_negative fuel (n / 10) (digit still_negative n ∷ out) in
    if n / 10 == 0 then digit still_negative n ∷ out else rest

-- The bits of an integer of `bytes` bytes.
abbrev pub word : ℕ → Bool → ℕ → ℕ
word bytes true v = (2 ^ (8 * bytes) - v) % 2 ^ (8 * bytes)
word bytes false v = v

-- The least value of a signed type is its own negation there, so that its digits are taken from a
-- number that is still negative; for `int` and longer types, where the language leaves that open, this
-- is what wrapping around gives.
abbrev pub is_least : ℕ → ℕ → Bool
is_least bytes v = v * 2 == 2 ^ (8 * bytes)

-- An integer of 8 bytes has 20 digits at most.
pub format_integer : List ℕ → ℕ → Bool → ℕ → List ℕ
format_integer format bytes negative v =
    if is_name format (120 ∷ [])
    then 48 ∷ (120 ∷ hex_digits (2 * bytes) (word bytes negative v))
    else if v == 0
    then 48 ∷ []
    else if negative
    then 45 ∷ digits (is_least bytes v) 20 v []
    else digits false 20 v []

pub format_pointer : ℕ → List ℕ
unfolding hex_digits
format_pointer v = 48 ∷ (112 ∷ hex_digits 16 v)

-- The last character, and those before it.
abbrev pub split_last : ℕ → List ℕ → List ℕ × ℕ
split_last c [] = ([], c)
split_last c (d ∷ cs) = let r = split_last d cs in (c ∷ r.0, r.1)

-- `width - elem.size()` spaces; a negative width gives none.
abbrev pub spaces : Bool × ℕ → List ℕ → List ℕ
spaces (true, width) elem = []
spaces (false, width) elem = replicate (width - length elem) 32

abbrev pub padded : Bool → List ℕ → List ℕ → Option (List ℕ)
padded left width elem =
    stoi width >>= (λ w. some (if left then spaces w elem ++ elem else elem ++ spaces w elem))

-- `l` stands for spaces before the text, `r` or nothing for spaces behind it.
pub format_text : List ℕ → List ℕ → Option (List ℕ)
format_text [] elem = some elem
format_text (c ∷ cs) elem =
    let r = split_last c cs in
    if (r.1 == 108) || (r.1 == 114)
    then padded (r.1 == 108) r.0 elem
    else padded false (c ∷ cs) elem

pub format_element : List ℕ → Arg → Option (List ℕ)
unfolding format_text format_integer format_pointer
format_element format (integer bytes negative v) = some (format_integer format bytes negative v)
format_element format (pointer v) = some (format_pointer v)
format_element format (text elem) = format_text format elem

-- What stands before the next `}` and behind it.
abbrev pub until_close : List ℕ → Option (List ℕ × List ℕ)
until_close [] = none
until_close (c ∷ cs) =
    if c == 125 then some ([], cs) else until_close cs >>= (λ r. some (c ∷ r.0, r.1))

-- What stands behind the first colon.
abbrev pub behind_colon : List ℕ → List ℕ
behind_colon [] = []
behind_colon (c ∷ cs) = if c == 58 then cs else behind_colon cs

abbrev pub is_open : List ℕ → Bool
is_open [] = false
is_open (c ∷ cs) = c == 123

abbrev pub tail : List ℕ → List ℕ
tail [] = []
tail (c ∷ cs) = cs

abbrev pub element_at : ℕ → List ℕ → List Arg → Option (List ℕ)
element_at p format args = get_elem? args p >>= (λ a. format_element format a)

-- The loop, with `fuel` rounds at most; each takes a character at least.
pub printf_from : ℕ → ℕ → List ℕ → List Arg → Option (List ℕ)
printf_from fuel p [] args = some []
printf_from zero p (c ∷ cs) args = none
printf_from (suc fuel) p (c ∷ cs) args =
    let plain = printf_from fuel p cs args >>= (λ out. some (c ∷ out)) in
    let doubled = printf_from fuel p (tail cs) args >>= (λ out. some (123 ∷ out)) in
    if c == 123
    then (if is_open cs then doubled else elim (until_close cs) [
      | none ↦ plain
      | some (inner, rest) ↦
          element_at p (behind_colon inner) args
          >>= (λ e. printf_from fuel (p + 1) rest args >>= (λ out. some (e ++ out)))
    ])
    else plain

pub printf : List ℕ → List Arg → Option (List ℕ)
printf format args = printf_from (length format) 0 format args
