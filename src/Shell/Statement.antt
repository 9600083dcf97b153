-- ===== src/Shell/Statement.antt =====
-- applications/shell/main.cc: statements, printed as tokens and parsed.
use wwos.Prelude.{
  ℕ, ◌≡◌, refl, ap, ◌∙◌, List, [], ◌∷◌, ◌++◌, append_assoc, append-nil, true, false, All,
}
use wwos.Shell.Tokens.{IsWord, join_words, tokenize-join_words}
use wwos.Shell.{
  tokenize, duplicate_input, Str, CommandInvocation, parsed, failed, and_then, less, greater,
  is_redirect, expect_string, expect_redirect, parse_args, parse_redirect, parse_redirects, parse,
}

-- A token that is no redirect.
abbrev pub IsName : Str → Type 0
IsName t = is_redirect t ≡ false

-- A redirect to a file, if there is a file.
abbrev pub print_redirect : Str → Str → List Str
print_redirect sign [] = []
print_redirect sign (c ∷ file) = sign ∷ (c ∷ file) ∷ []

abbrev pub print_input_first : CommandInvocation → List Str
print_input_first cmd =
    cmd.command ∷ (cmd.args ++ (print_redirect less cmd.input ++ print_redirect greater cmd.output))

abbrev pub print_output_first : CommandInvocation → List Str
print_output_first cmd =
    cmd.command ∷ (cmd.args ++ (print_redirect greater cmd.output ++ print_redirect less cmd.input))

-- The parts of a statement are no redirects.
pub record IsStatement (cmd : CommandInvocation) : Type 0 where
  pub command_name : IsName cmd.command
  pub arg_names : All IsName cmd.args
  pub input_name : IsName cmd.input
  pub output_name : IsName cmd.output

-- What stands behind the arguments: nothing, or a redirect first.
abbrev StartsRedirect : List Str → Type 0
StartsRedirect [] = Unit
StartsRedirect (t ∷ rest) = is_redirect t ≡ true

parse_args_lem :
    (names rest args : List Str)
    → All IsName names
    → StartsRedirect rest
    → parse_args (names ++ rest) args ≡ parsed (args ++ names) rest
unfolding parse_args
parse_args_lem [] [] args a s = rw append-nil
parse_args_lem [] (t ∷ rest) args a s = rw (s, parse_args, append-nil)
parse_args_lem (t ∷ names) rest args a s =
    rw (a.0, parse_args)
      (parse_args_lem names rest (args ++ (t ∷ [])) a.1 s
        ∙ ap (λ v. parsed v rest) (append_assoc args (t ∷ []) names))

parse_command :
    (command : Str) (names rest : List Str)
    → IsName command
    → All IsName names
    → StartsRedirect rest
    → parse (command ∷ (names ++ rest))
      ≡ parse_redirects 2 (record { command = command; args = names; input = []; output = [] }) rest
unfolding parse expect_string
parse_command command names rest n a s =
    rw (n, expect_string)
      (ap
        (λ p. and_then p (λ args rest'.
          parse_redirects 2 (record { command = command; args = args; input = []; output = [] })
            rest'))
        (parse_args_lem names rest [] a s))

-- The loop over two redirects takes both, in either order, and leaves what follows.
two_redirects :
    (command : Str) (args : List Str) (c : ℕ) (cs : Str) (d : ℕ) (ds : Str) (rest : List Str)
    → IsName (c ∷ cs)
    → IsName (d ∷ ds)
    → (parse_redirects 2
          (record { command = command; args = args; input = []; output = [] })
          (less ∷ (c ∷ cs) ∷ greater ∷ (d ∷ ds) ∷ rest)
        ≡ parsed (record { command = command; args = args; input = c ∷ cs; output = d ∷ ds }) rest)
      × (parse_redirects 2
            (record { command = command; args = args; input = []; output = [] })
            (greater ∷ (d ∷ ds) ∷ less ∷ (c ∷ cs) ∷ rest)
          ≡ parsed
              (record { command = command; args = args; input = c ∷ cs; output = d ∷ ds })
              rest)
unfolding parse_redirects parse_redirect expect_redirect expect_string
two_redirects command args c cs d ds rest m n =
    (rw (m, expect_string) (rw (n, expect_string)), rw (n, expect_string) (rw (m, expect_string)))

parse_redirects-print :
    (command : Str) (args : List Str) (input output : Str)
    → IsName input
    → IsName output
    → (parse_redirects 2
          (record { command = command; args = args; input = []; output = [] })
          (print_redirect less input ++ print_redirect greater output)
        ≡ parsed (record { command = command; args = args; input = input; output = output }) [])
      × (parse_redirects 2
            (record { command = command; args = args; input = []; output = [] })
            (print_redirect greater output ++ print_redirect less input)
          ≡ parsed (record { command = command; args = args; input = input; output = output }) [])
unfolding parse_redirects parse_redirect expect_redirect expect_string
parse_redirects-print command args [] [] m n = (refl, refl)
parse_redirects-print command args [] (d ∷ ds) m n = (rw (n, expect_string), rw (n, expect_string))
parse_redirects-print command args (c ∷ cs) [] m n = (rw (m, expect_string), rw (m, expect_string))
parse_redirects-print command args (c ∷ cs) (d ∷ ds) m n =
    two_redirects command args c cs d ds [] m n

print-StartsRedirect :
    (input output : Str)
    → StartsRedirect (print_redirect less input ++ print_redirect greater output)
      × StartsRedirect (print_redirect greater output ++ print_redirect less input)
print-StartsRedirect [] [] = (tt, tt)
print-StartsRedirect [] (d ∷ ds) = (refl, refl)
print-StartsRedirect (c ∷ cs) [] = (refl, refl)
print-StartsRedirect (c ∷ cs) (d ∷ ds) = (refl, refl)

-- A statement printed as tokens parses back to itself, with nothing left, in either order of its
-- redirects, where no part of it is itself a redirect.
pub parse-print :
    (cmd : CommandInvocation)
    → IsStatement cmd
    → (parse (print_input_first cmd) ≡ parsed cmd [])
      × (parse (print_output_first cmd) ≡ parsed cmd [])
parse-print cmd s =
    let (f, g) =
      parse_redirects-print cmd.command cmd.args cmd.input cmd.output s.input_name s.output_name in
    let (u, v) = print-StartsRedirect cmd.input cmd.output in
    (
      parse_command cmd.command cmd.args _ s.command_name s.arg_names u ∙ f,
      parse_command cmd.command cmd.args _ s.command_name s.arg_names v ∙ g,
    )

-- Tokens behind a second redirect are neither parsed nor reported: a statement with an input and an
-- output, none of its parts a redirect, parses to the same invocation whatever follows it.
parse_ignores :
    (command : Str) (args : List Str) (c : ℕ) (cs : Str) (d : ℕ) (ds : Str) (extra : List Str)
    → IsName command
    → All IsName args
    → IsName (c ∷ cs)
    → IsName (d ∷ ds)
    → parse (command ∷ (args ++ (less ∷ (c ∷ cs) ∷ greater ∷ (d ∷ ds) ∷ extra)))
      ≡ parsed (record { command = command; args = args; input = c ∷ cs; output = d ∷ ds }) extra
parse_ignores command args c cs d ds extra n a i o =
    parse_command command args _ n a refl ∙ (two_redirects command args c cs d ds extra i o).0

-- A second redirect of the input is an error, where no part before it is itself a redirect.
parse_duplicate :
    (command : Str) (args : List Str) (c : ℕ) (cs : Str) (rest : List Str)
    → IsName command
    → All IsName args
    → IsName (c ∷ cs)
    → parse (command ∷ (args ++ (less ∷ (c ∷ cs) ∷ less ∷ rest))) ≡ failed duplicate_input
unfolding parse_redirects parse_redirect expect_redirect expect_string
parse_duplicate command args c cs rest n a i =
    parse_command command args _ n a refl ∙ rw (i, expect_string)

-- The line that joins the printed tokens of a statement by spaces, each token non-empty and without
-- a space and no part of the statement a redirect, is split and parsed back to the statement.
pub parse-tokenize :
    (cmd : CommandInvocation)
    → IsStatement cmd
    → All IsWord (print_input_first cmd)
    → parse (tokenize (join_words (print_input_first cmd))) ≡ parsed cmd []
parse-tokenize cmd s w =
    ap parse (tokenize-join_words (print_input_first cmd) w) ∙ (parse-print cmd s).0
