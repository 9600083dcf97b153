-- ===== src/Shell.antt =====
-- applications/shell/main.cc: the splitting of a command line into tokens, and the parser of
-- statements. A string is the list of its characters' codes.
pub mod Tokens
pub mod Statement
mod Tests
use wwos.Prelude.{
  ℕ, zero, suc, List, [], ◌∷◌, ◌++◌, Bool, true, false, ◌&&◌, ◌||◌, ◌==◌, if◌then◌else◌,
}

abbrev pub Str : Type 0
Str = List ℕ

abbrev pub space : ℕ
space = 32

-- `if(current.size() > 0) out.push_back(current)`
abbrev pub push_token : Str → List Str → List Str
push_token [] out = out
push_token (c ∷ cs) out = out ++ ((c ∷ cs) ∷ [])

-- The loop of `tokenize` over the characters that are left.
pub tokenize_loop : Str → Str → List Str → List Str
tokenize_loop [] current out = push_token current out
tokenize_loop (c ∷ str) current out = elim (c == space) [
  | true ↦ tokenize_loop str [] (push_token current out)
  | false ↦ tokenize_loop str (current ++ c ∷ []) out
]

pub tokenize : Str → List Str
unfolding tokenize_loop
tokenize str = tokenize_loop str [] []

pub record CommandInvocation : Type 0 where
  pub command : Str
  pub args : List Str
  pub input : Str
  pub output : Str

-- The texts of `error_message`.
pub data ParseError : Type 0 where
  expected_name expected_redirect duplicate_input duplicate_output : ParseError

-- What a method of `statement_parser` leaves: its result and the tokens from `m_pos` on, or
-- `succ == false` with the error. The position only moves forward over tokens that do not change.
pub data Parsed (A : Type 0) : Type 0 where
  parsed : A → List Str → Parsed A
  failed : ParseError → Parsed A

-- `if(!success()) return {};` after each step.
abbrev pub and_then : {A B : Type 0} → Parsed A → (A → List Str → Parsed B) → Parsed B
and_then (parsed a rest) f = f a rest
and_then (failed e) f = failed e

abbrev pub eq_str : Str → Str → Bool
eq_str [] [] = true
eq_str [] (d ∷ ds) = false
eq_str (c ∷ cs) [] = false
eq_str (c ∷ cs) (d ∷ ds) = (c == d) && eq_str cs ds

-- "<" and ">"
abbrev pub less : Str
less = 60 ∷ []

abbrev pub greater : Str
greater = 62 ∷ []

abbrev pub is_redirect : Str → Bool
is_redirect t = eq_str t less || eq_str t greater

abbrev pub is_empty : Str → Bool
is_empty [] = true
is_empty (c ∷ cs) = false

pub expect_redirect : List Str → Parsed Str
expect_redirect [] = failed expected_redirect
expect_redirect (t ∷ rest) = if is_redirect t then parsed t rest else failed expected_redirect

pub expect_string : List Str → Parsed Str
expect_string [] = failed expected_name
expect_string (t ∷ rest) = if is_redirect t then failed expected_name else parsed t rest

-- The loop over the arguments: a token that is no redirect is what `expect_arg` returns.
pub parse_args : List Str → List Str → Parsed (List Str)
parse_args [] args = parsed args []
parse_args (t ∷ rest) args = elim (is_redirect t) [
  | true ↦ parsed args (t ∷ rest)
  | false ↦ parse_args rest (args ++ (t ∷ []))
]

-- One round of the loop over the redirects.
pub parse_redirect : CommandInvocation → List Str → Parsed CommandInvocation
unfolding expect_redirect expect_string
parse_redirect out tokens = and_then (expect_redirect tokens) (λ redirect rest.
    if eq_str redirect less
    then if is_empty out.input
      then and_then (expect_string rest) (λ file rest'. parsed (record out { input = file }) rest')
      else failed duplicate_input
    else if is_empty out.output
    then and_then (expect_string rest) (λ file rest'. parsed (record out { output = file }) rest')
    else failed duplicate_output)

-- The loop over the redirects, with the rounds that it still may make.
pub parse_redirects : ℕ → CommandInvocation → List Str → Parsed CommandInvocation
unfolding parse_redirect
parse_redirects zero out tokens = parsed out tokens
parse_redirects (suc rounds) out [] = parsed out []
parse_redirects (suc rounds) out (t ∷ rest) =
    and_then (parse_redirect out (t ∷ rest)) (parse_redirects rounds)

pub parse : List Str → Parsed CommandInvocation
unfolding expect_string parse_args parse_redirects
parse tokens = and_then (expect_string tokens) (λ command rest.
    and_then (parse_args rest []) (λ args rest'.
      parse_redirects 2 (record { command = command; args = args; input = []; output = [] }) rest'))
