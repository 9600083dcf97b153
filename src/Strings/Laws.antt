-- ===== src/Strings/Laws.antt =====
-- include/wwos/string.h: a string is the list of its characters.
use wwos.Prelude.{
  ℕ, zero, suc, ◌+◌, ◌^◌, ◌≤◌, ◌<◌, ◌≡◌, refl, sym, ap, subst, ap₂, ◌∙◌, arith, List, [], ◌∷◌, ◌++◌,
  true, false, some, ◌>>=◌, ◌==◌, ltb-true, ltb-false, length, length-append, set, length-set,
  append_assoc, append-nil, Bool, ◌&&◌, Bool-cases, inl, inr, dec_lt,
}
use wwos.Vector
use wwos.Vector.{Vector, assign}
use wwos.Vector.Arrays.{take, drop, take-take, take-set_end, drop-cons, get_elem?-some}
use wwos.Vector.Laws.{items, IsValid, push_back-append}
use wwos.Strings.{new, size, push_back, append_from, append, add, copy, agree, starts_with}

-- The string holds the characters, and a 0 behind them.
pub record Holds (s : Vector ℕ) (cs : List ℕ) : Type 0 where
  pub valid : IsValid s
  pub chars : items s ≡ cs ++ (0 ∷ [])

length-take : (n : ℕ) (xs : List ℕ) → n ≤ length xs → length (take n xs) ≡ n
length-take zero xs h = refl
length-take (suc n) [] h = absurd (omega arith)
length-take (suc n) (x ∷ xs) h = ap suc (length-take n xs (omega arith))

take-append : (n : ℕ) (cs zs : List ℕ) → length cs ≡ n → take n (cs ++ zs) ≡ cs
take-append zero [] zs h = refl
take-append zero (c ∷ cs) zs h = absurd (omega arith)
take-append (suc n) [] zs h = absurd (omega arith)
take-append (suc n) (c ∷ cs) zs h = ap (λ xs. c ∷ xs) (take-append n cs zs (omega arith))

-- The array has the characters and the 0.
sized : (s : Vector ℕ) (cs : List ℕ) → Holds s cs → s.m_size ≡ length cs + 1
sized s cs h =
    sym (length-take s.m_size s.m_data (omega (arith, h.valid.whole, h.valid.fits)))
    ∙ ap length h.chars
    ∙ length-append cs (0 ∷ [])

size_lem : (s : Vector ℕ) (cs : List ℕ) → Holds s cs → length cs < 2 ^ 63 → size s ≡ length cs
size_lem s cs h l = omega (arith, sized s cs h, l)

-- The characters stand at the start of the array.
start_lem : (s : Vector ℕ) (cs : List ℕ) → Holds s cs → take (length cs) s.m_data ≡ cs
start_lem s cs h =
    sym (take-take s.m_data (length cs) s.m_size (omega (arith, sized s cs h)))
    ∙ ap (take (length cs)) h.chars
    ∙ take-append (length cs) cs (0 ∷ []) refl

-- A character is appended, and the 0 moves behind it.
push_back_lem :
    (c : ℕ) (s : Vector ℕ) (cs : List ℕ)
    → Holds s cs
    → length cs < 2 ^ 63
    → (s' : Vector ℕ) × (push_back c s ≡ some s') × Holds s' (cs ++ (c ∷ []))
unfolding push_back
push_back_lem c s cs h l =
    let n = length cs in
    let m = sized s cs h in
    let inside : n < length s.m_data = omega (arith, m, h.valid.whole, h.valid.fits) in
    let s1 : Vector ℕ = record s { m_data = set s.m_data n c } in
    let w : IsValid s1 = record {
      whole = length-set s.m_data n c ∙ h.valid.whole;
      room = h.valid.room;
      fits = h.valid.fits;
    } in
    let i : items s1 ≡ cs ++ (c ∷ []) =
      ap (λ k. take k (set s.m_data n c)) m
      ∙ take-set_end s.m_data n c inside
      ∙ ap (λ xs. xs ++ (c ∷ [])) (start_lem s cs h) in
    let (s', f, v, t, _) = push_back-append 0 0 s1 w in
    (
      s',
      rw (size_lem s cs h l, ltb-true n (length s.m_data) inside, ◌>>=◌) f,
      record { valid = v; chars = t ∙ ap (λ xs. xs ++ (0 ∷ [])) i },
    )

-- The loop appends the characters of the array from `i` on.
append_from_lem :
    (n i : ℕ) (from : List ℕ) (s : Vector ℕ) (cs : List ℕ)
    → Holds s cs
    → i + n ≤ length from
    → length cs + n ≤ 2 ^ 63
    → (s' : Vector ℕ) × (append_from n i from s ≡ some s') × Holds s' (cs ++ take n (drop i from))
unfolding append_from
append_from_lem zero i from s cs h p l = (s, refl, subst (Holds s) (sym (append-nil cs)) h)
append_from_lem (suc n) i from s cs h p l =
    let (c, f) = get_elem?-some from i (omega arith) in
    let (s1, g, h1) = push_back_lem c s cs h (omega arith) in
    let (s', e, h') =
      append_from_lem n (i + 1) from s1 (cs ++ (c ∷ [])) h1 (omega arith)
        (omega (arith, length-append cs (c ∷ []))) in
    (
      s',
      rw (f, ◌>>=◌) (rw (g, ◌>>=◌) e),
      subst (Holds s')
          (append_assoc cs (c ∷ []) (take n (drop (i + 1) from))
            ∙ ap (λ xs. cs ++ take (suc n) xs) (sym (drop-cons from i c f)))
          h',
    )

new_lem : (s : Vector ℕ) × (new ≡ some s) × Holds s []
unfolding new
new_lem =
    let (s, f, w, t, _) =
      push_back-append 0 0 (Vector.new 0)
        (record { whole = refl; room = omega arith; fits = omega arith }) in
    (s, f, record { valid = w; chars = t })

append_lem :
    (s t : Vector ℕ) (cs ds : List ℕ)
    → Holds s cs
    → Holds t ds
    → length cs + length ds < 2 ^ 63
    → (r : Vector ℕ) × (append s t ≡ some r) × Holds r (cs ++ ds)
unfolding append
append_lem s t cs ds h k l =
    let (r, f, u) =
      append_from_lem (length ds) 0 t.m_data s cs h
        (omega (arith, sized t ds k, k.valid.whole, k.valid.fits)) (omega arith) in
    (
      r,
      rw (size_lem t ds k (omega arith)) f,
      subst (Holds r) (ap (λ xs. cs ++ xs) (start_lem t ds k)) u,
    )

copy_lem :
    (s : Vector ℕ) (cs : List ℕ)
    → Holds s cs
    → length cs < 2 ^ 63
    → (r : Vector ℕ) × (copy s ≡ some r) × Holds r cs
unfolding copy append
copy_lem s cs h l =
    let (o, f, u) = new_lem in
    let (r, g, k) = append_lem o s [] cs u h (omega arith) in (r, rw (f, ◌>>=◌) g, k)

-- The sum of two strings holds the characters of the first and then those of the second, with a 0
-- behind them; no access is outside an array. Their lengths together are below 2 ^ 63.
pub add-append :
    (s t : Vector ℕ) (cs ds : List ℕ)
    → Holds s cs
    → Holds t ds
    → length cs + length ds < 2 ^ 63
    → (r : Vector ℕ) × (add s t ≡ some r) × Holds r (cs ++ ds)
unfolding add
add-append s t cs ds h k l =
    let (o, f, u) = copy_lem s cs h (omega arith) in
    let (r, g, v) = append_lem o t cs ds u k l in (r, rw (f, ◌>>=◌) g, v)

-- The first characters of the second list are all those of the first.
abbrev pub is_prefix : List ℕ → List ℕ → Bool
is_prefix [] cs = true
is_prefix (d ∷ ds) [] = false
is_prefix (d ∷ ds) (c ∷ cs) = (c == d) && is_prefix ds cs

is_prefix-take :
    (ds cs : List ℕ) → length ds ≤ length cs → is_prefix ds (take (length ds) cs) ≡ is_prefix ds cs
is_prefix-take [] cs h = refl
is_prefix-take (d ∷ ds) [] h = absurd (omega arith)
is_prefix-take (d ∷ ds) (c ∷ cs) h = ap (λ b. (c == d) && b) (is_prefix-take ds cs (omega arith))

is_prefix-short : (ds cs : List ℕ) → length cs < length ds → is_prefix ds cs ≡ false
is_prefix-short [] cs h = absurd (omega arith)
is_prefix-short (d ∷ ds) [] h = refl
is_prefix-short (d ∷ ds) (c ∷ cs) h = rw (is_prefix-short ds cs (omega arith)) (and_false (c == d))
  where
    and_false : (b : Bool) → (b && false) ≡ false
    and_false true = refl
    and_false false = refl

agree_lem :
    (n i : ℕ) (a b : List ℕ)
    → i + n ≤ length a
    → i + n ≤ length b
    → agree n i a b ≡ some (is_prefix (take n (drop i b)) (take n (drop i a)))
unfolding agree
agree_lem zero i a b p q = refl
agree_lem (suc n) i a b p q =
    let (x, f) = get_elem?-some a i (omega arith) in
    let (y, g) = get_elem?-some b i (omega arith) in
    let ih = agree_lem n (i + 1) a b (omega arith) (omega arith) in
    rw (f, g, ◌>>=◌, drop-cons a i x f, drop-cons b i y g)
      (elim (Bool-cases (x == y)) [ inl e ↦ rw (e) ih | inr e ↦ rw (e) refl ])

-- `starts_with` answers whether the characters of the second string are the first characters of the
-- first string; no access is outside an array. The lengths are below 2 ^ 63.
starts_with-is_prefix :
    (s t : Vector ℕ) (cs ds : List ℕ)
    → Holds s cs
    → Holds t ds
    → length cs < 2 ^ 63
    → length ds < 2 ^ 63
    → starts_with s t ≡ some (is_prefix ds cs)
unfolding starts_with
starts_with-is_prefix s t cs ds h k l m =
    rw (size_lem s cs h l, size_lem t ds k m)
      (elim (dec_lt (length cs) (length ds)) [
        | yes p ↦ rw (ltb-true (length cs) (length ds) p) (ap some (sym (is_prefix-short ds cs p)))
        | no p ↦
            let e : length ds ≤ length cs = omega (arith, p) in
            rw (ltb-false (length cs) (length ds) e) (
              agree_lem (length ds) 0 s.m_data t.m_data
                (omega (arith, sized s cs h, h.valid.whole, h.valid.fits))
                (omega (arith, sized t ds k, k.valid.whole, k.valid.fits))
              ∙ ap₂ (λ xs ys. some (is_prefix xs ys)) (start_lem t ds k)
                  (sym (take-take s.m_data (length ds) (length cs) e)
                    ∙ ap (take (length ds)) (start_lem s cs h))
              ∙ ap some (is_prefix-take ds cs e))
      ])
