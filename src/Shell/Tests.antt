-- ===== src/Shell/Tests.antt =====
-- applications/shell/main.cc: a command line with two redirects.
use wwos.Prelude.{ℕ, ◌≡◌, ◌≢◌, refl, [], ◌∷◌, All, arith}
use wwos.Shell.{Str, CommandInvocation, parsed, less, greater, tokenize, parse}
use wwos.Shell.Tokens.{IsWord, join_words}
use wwos.Shell.Statement.{IsStatement, print_input_first, parse-print, parse-tokenize}
use mathlib.Core.List.{cons≢nil}

-- "cat"
abbrev cat : Str
cat = 99 ∷ 97 ∷ 116 ∷ []

-- "a"
abbrev file : Str
file = 97 ∷ []

-- "cat a < a > b"
abbrev command : CommandInvocation
command = record { command = cat; args = file ∷ []; input = file; output = 98 ∷ [] }

command-IsStatement : IsStatement command
command-IsStatement = record {
  command_name = refl;
  arg_names = (refl, tt);
  input_name = refl;
  output_name = refl;
}

cat-IsWord : IsWord cat
cat-IsWord = (cons≢nil, omega arith)

letter : (c : ℕ) → c ≢ 32 → IsWord (c ∷ [])
letter c n = (cons≢nil, (n, tt))

words : All IsWord (print_input_first command)
words = (
  cat-IsWord,
  (
    letter 97 (omega arith),
    (
      letter 60 (omega arith),
      (letter 97 (omega arith), (letter 62 (omega arith), (letter 98 (omega arith), tt))),
    ),
  ),
)

parse-print_example :
    (parse (cat ∷ file ∷ less ∷ file ∷ greater ∷ (98 ∷ []) ∷ []) ≡ parsed command [])
    × (parse (cat ∷ file ∷ greater ∷ (98 ∷ []) ∷ less ∷ file ∷ []) ≡ parsed command [])
parse-print_example = parse-print command command-IsStatement

parse-tokenize_example :
    parse (tokenize (join_words (print_input_first command))) ≡ parsed command []
parse-tokenize_example = parse-tokenize command command-IsStatement words
