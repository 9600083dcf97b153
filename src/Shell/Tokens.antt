-- ===== src/Shell/Tokens.antt =====
-- applications/shell/main.cc: the tokens of a command line.
use wwos.Prelude.{
  ◌≡◌, ◌≢◌, refl, ap, ◌∙◌, List, [], ◌∷◌, ◌++◌, append_assoc, append-nil, true, false, ◌==◌, ==_ne,
  ==_false, Bool-cases, inl, inr, All, All-append,
}
use mathlib.Core.List.{cons≢nil}
use wwos.Shell.{Str, space, push_token, tokenize_loop, tokenize}

-- A token: characters, none of them a space.
abbrev pub IsWord : Str → Type 0
IsWord w = (w ≢ []) × All (λ c. c ≢ space) w

abbrev pub following : List Str → Str
following [] = []
following (w ∷ ws) = space ∷ (w ++ following ws)

-- The words with one space between two of them.
abbrev pub join_words : List Str → Str
join_words [] = []
join_words (w ∷ ws) = w ++ following ws

abbrev pub concat : List Str → Str
concat [] = []
concat (w ∷ ws) = w ++ concat ws

abbrev pub without_spaces : Str → Str
without_spaces [] = []
without_spaces (c ∷ str) = elim (c == space) [
  | true ↦ without_spaces str
  | false ↦ c ∷ without_spaces str
]

tokenize_loop-word :
    (w str current : Str) (out : List Str)
    → All (λ c. c ≢ space) w
    → tokenize_loop (w ++ str) current out ≡ tokenize_loop str (current ++ w) out
unfolding tokenize_loop
tokenize_loop-word [] str current out a = rw append-nil
tokenize_loop-word (c ∷ w) str current out a =
    rw (==_false c space a.0, tokenize_loop)
      (tokenize_loop-word w str (current ++ (c ∷ [])) out a.1
        ∙ ap (λ v. tokenize_loop str v out) (append_assoc current (c ∷ []) w))

push_token-word : (w : Str) (out : List Str) → w ≢ [] → push_token w out ≡ out ++ (w ∷ [])
push_token-word [] out n = absurd (n refl)
push_token-word (c ∷ w) out n = refl

tokenize_loop-following :
    (ws : List Str) (current : Str) (out : List Str)
    → All IsWord ws
    → current ≢ []
    → tokenize_loop (following ws) current out ≡ out ++ (current ∷ ws)
unfolding tokenize_loop
tokenize_loop-following [] current out a n = push_token-word current out n
tokenize_loop-following (w ∷ ws) current out a n =
    tokenize_loop-word w (following ws) [] (push_token current out) a.0.1
    ∙ ap (tokenize_loop (following ws) w) (push_token-word current out n)
    ∙ tokenize_loop-following ws w (out ++ (current ∷ [])) a.1 a.0.0
    ∙ append_assoc out (current ∷ []) (w ∷ ws)

-- The line that joins words by single spaces is split into these words.
pub tokenize-join_words : (ws : List Str) → All IsWord ws → tokenize (join_words ws) ≡ ws
unfolding tokenize tokenize_loop
tokenize-join_words [] a = refl
tokenize-join_words (w ∷ ws) a =
    rw (tokenize_loop-word w (following ws) [] [] a.0.1) (tokenize_loop-following ws w [] a.1 a.0.0)

concat-append : (vs ws : List Str) → concat (vs ++ ws) ≡ concat vs ++ concat ws
concat-append [] ws = refl
concat-append (v ∷ vs) ws = rw (concat-append vs ws, append_assoc)

concat-push_token :
    (current : Str) (out : List Str) → concat (push_token current out) ≡ concat out ++ current
concat-push_token [] out = rw append-nil
concat-push_token (c ∷ cs) out = rw (concat-append, append-nil)

push_token-All :
    (current : Str) (out : List Str)
    → All (λ c. c ≢ space) current
    → All IsWord out
    → All IsWord (push_token current out)
push_token-All [] out a b = b
push_token-All (c ∷ cs) out a b = All-append IsWord out ((c ∷ cs) ∷ []) b ((cons≢nil, a), tt)

tokenize_loop_lem :
    (str current : Str) (out : List Str)
    → All (λ c. c ≢ space) current
    → All IsWord out
    → (concat (tokenize_loop str current out) ≡ concat out ++ (current ++ without_spaces str))
      × All IsWord (tokenize_loop str current out)
unfolding tokenize_loop
tokenize_loop_lem [] current out a b =
    (rw append-nil (concat-push_token current out), push_token-All current out a b)
tokenize_loop_lem (c ∷ str) current out a b = elim (Bool-cases (c == space)) [
  | inl e ↦
      let (f, g) =
        tokenize_loop_lem str [] (push_token current out) tt (push_token-All current out a b) in
      rw (e, tokenize_loop, without_spaces)
        (f ∙ rw (concat-push_token current out, append_assoc), g)
  | inr e ↦
      let n = ==_ne c space e in
      let (f, g) =
        tokenize_loop_lem str (current ++ (c ∷ [])) out
          (All-append (λ d. d ≢ space) current (c ∷ []) a (n, tt)) b in
      rw (e, tokenize_loop, without_spaces) (f ∙ rw append_assoc, g)
]

-- Whatever the line, `tokenize` returns words, and together they have the characters of the line
-- other than spaces, in their order.
tokenize_words :
    (str : Str) → (concat (tokenize str) ≡ without_spaces str) × All IsWord (tokenize str)
unfolding tokenize
tokenize_words str = tokenize_loop_lem str [] [] tt tt
