-- ===== src/Format/Tests.antt =====
-- include/wwos/format.h: "a{b" with its brace doubled, -1203, and some formatted lines.
use wwos.Prelude.{◌≡◌, refl, arith, [], ◌∷◌, true, false, none, some}
use wwos.Strings.{stoi, stoi_digits}
use wwos.Format.{
  integer, text, digits, hex_digits, format_integer, format_text, format_element, printf_from,
  printf,
}
use wwos.Format.Escape.{escape, printf-escape}
use wwos.Format.Decimal.{stoi-format_integer}

printf-escape_example :
    printf (escape (97 ∷ 123 ∷ 98 ∷ [])) (text (99 ∷ []) ∷ []) ≡ some (97 ∷ 123 ∷ 98 ∷ [])
printf-escape_example = printf-escape (97 ∷ 123 ∷ 98 ∷ []) (text (99 ∷ []) ∷ [])

stoi-format_integer_example : stoi (format_integer [] 4 true 1203) ≡ some (true, 1203)
stoi-format_integer_example =
    stoi-format_integer 4 1203 true (omega arith) (λ e. (omega arith, omega arith))

minus_run : format_integer [] 4 true 1203 ≡ 45 ∷ 49 ∷ 50 ∷ 48 ∷ 51 ∷ []
unfolding format_integer digits
minus_run = refl

-- "-/.(", of the least integer of a byte, -128
least_run : format_integer [] 1 true 128 ≡ 45 ∷ 47 ∷ 46 ∷ 40 ∷ []
unfolding format_integer digits
least_run = refl

-- "x" of -2, on a byte
hex_run : format_integer (120 ∷ []) 1 true 2 ≡ 48 ∷ 120 ∷ 102 ∷ 101 ∷ []
unfolding format_integer hex_digits
hex_run = refl

-- "<{:3l}{}>"
line_run :
    printf
      (60 ∷ 123 ∷ 58 ∷ 51 ∷ 108 ∷ 125 ∷ 123 ∷ 125 ∷ 62 ∷ [])
      (text (97 ∷ []) ∷ integer 4 false 70 ∷ [])
    ≡ some (60 ∷ 32 ∷ 32 ∷ 97 ∷ 55 ∷ 48 ∷ 62 ∷ [])
unfolding printf printf_from format_element format_text format_integer digits stoi stoi_digits
line_run = refl

-- "{}" without an argument
missing_run : printf (123 ∷ 125 ∷ []) [] ≡ none
unfolding printf printf_from
missing_run = refl

-- "{a"
open_run : printf (123 ∷ 97 ∷ []) [] ≡ some (123 ∷ 97 ∷ [])
unfolding printf printf_from
open_run = refl
