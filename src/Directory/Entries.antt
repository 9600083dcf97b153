-- ===== src/Directory/Entries.antt =====
-- libwwos/wwfs.cc: the entries of a directory, as `create` writes them and `get_children` reads them.
use wwos.Prelude.{
  ℕ, zero, suc, ◌+◌, ◌-◌, ◌^◌, ◌≤◌, ◌<◌, ◌≡◌, refl, sym, ap, ap₂, ◌∙◌, arith, List, [], ◌∷◌, inl,
  inr, some, ltb-true, ltb-false, ◌>>=◌, length, false, ==_true, ◌==◌, All, Bool-cases, dec_lt,
}
use wwos.Bytes.{Buffer, zeros, copy, load}
use wwos.Bytes.Copies.{copy-inside, copy-outside}
use wwos.Bytes.Words.{load-shift, load-store, store-below}
use wwos.Directory.{align_up_8, chars, entry_size, entry, c_string, entries, has_zero}

-- A name without the character 0, and the word of an inode.
abbrev pub IsEntry : List ℕ × ℕ → Type 0
IsEntry e = (has_zero e.0 ≡ false) × (e.1 < 2 ^ 64)

-- The file of a directory, in which `create` has put one entry behind the other from byte `i` on.
abbrev pub listing : ℕ → List (List ℕ × ℕ) → Buffer → Buffer
listing i [] b = b
listing i ((name, id) ∷ es) b =
    listing (i + entry_size name) es (copy (entry name id) 0 b i (entry_size name))

abbrev pub listing_size : List (List ℕ × ℕ) → ℕ
listing_size [] = 0
listing_size ((name, id) ∷ es) = entry_size name + listing_size es

listing-below :
    (es : List (List ℕ × ℕ)) (i : ℕ) (b : Buffer) (x : ℕ) → x < i → listing i es b x ≡ b x
listing-below [] i b x h = refl
listing-below ((name, id) ∷ es) i b x h =
    listing-below es (i + entry_size name) (copy (entry name id) 0 b i (entry_size name)) x
      (omega arith)
    ∙ copy-outside (entry name id) 0 b i (entry_size name) x (inl h)

-- The characters of the name stand from byte `i` on, and a 0 behind them.
abbrev pub Spells : Buffer → ℕ → List ℕ → Type 0
Spells b i [] = b i ≡ 0
Spells b i (c ∷ cs) = (b i ≡ c) × Spells b (i + 1) cs

pub c_string-Spells :
    (name : List ℕ) (n i : ℕ) (b : Buffer)
    → Spells b i name
    → has_zero name ≡ false
    → length name < n
    → c_string n i b ≡ some name
unfolding c_string
c_string-Spells name zero i b s z l = absurd (omega arith)
c_string-Spells [] (suc n) i b s z l = rw (==_true (b i) 0 s) refl
c_string-Spells (c ∷ cs) (suc n) i b s z l = elim (Bool-cases (c == 0)) [
  | inl e ↦ absurd (let f = rw e at z in cc)
  | inr e ↦
      let ih = c_string-Spells cs n (i + 1) b s.1 (rw e at z) (omega arith) in
      rw (s.0, e, ih, ◌>>=◌) refl
]

pub chars-Spells :
    (name : List ℕ) (b : Buffer) (i : ℕ)
    → ((k : ℕ) → k ≤ length name → b (i + k) ≡ chars name k)
    → Spells b i name
chars-Spells [] b i e = ap b (omega arith) ∙ e 0 (omega arith)
chars-Spells (c ∷ cs) b i e = (
  ap b (omega arith) ∙ e 0 (omega arith),
  chars-Spells cs b (i + 1) (λ k h. ap b (omega arith) ∙ e (suc k) (omega arith)),
)

pub chars-behind : (name : List ℕ) (k : ℕ) → length name ≤ k → chars name k ≡ 0
chars-behind [] k h = refl
chars-behind (c ∷ cs) zero h = absurd (omega arith)
chars-behind (c ∷ cs) (suc k) h = chars-behind cs k (omega arith)

entry-name : (name : List ℕ) (id k : ℕ) → k ≤ length name → entry name id k ≡ chars name k
unfolding entry
entry-name name id k h =
    store-below 8 (copy (chars name) 0 zeros 0 (length name)) (align_up_8 (length name + 1)) id k
      (omega arith)
    ∙ elim (dec_lt k (length name)) [
      | yes p ↦
          copy-inside (chars name) 0 zeros 0 (length name) k (omega arith) (omega arith)
          ∙ ap (chars name) (omega arith)
      | no p ↦
          copy-outside (chars name) 0 zeros 0 (length name) k (inr (omega (arith, p)))
          ∙ sym (chars-behind name k (omega (arith, p)))
    ]

-- The bytes of the first entry
in_entry :
    (name : List ℕ) (id i : ℕ) (es : List (List ℕ × ℕ)) (b : Buffer) (k : ℕ)
    → k < entry_size name
    → listing i ((name, id) ∷ es) b (i + k) ≡ entry name id k
in_entry name id i es b k h =
    let sz = entry_size name in
    let b' = copy (entry name id) 0 b i sz in
    listing-below es (i + sz) b' (i + k) (omega (arith, h))
    ∙ copy-inside (entry name id) 0 b i sz (i + k) (omega arith) (omega (arith, h))
    ∙ ap (entry name id) {x = 0 + (i + k - i)} {y = k} (omega arith)

entry_name :
    (name : List ℕ) (id i : ℕ) (es : List (List ℕ × ℕ)) (b : Buffer)
    → has_zero name ≡ false
    → c_string (entry_size name + listing_size es) i (listing i ((name, id) ∷ es) b) ≡ some name
entry_name name id i es b z =
    c_string-Spells name (entry_size name + listing_size es) i (listing i ((name, id) ∷ es) b)
      (chars-Spells name (listing i ((name, id) ∷ es) b) i
        (λ k l. in_entry name id i es b k (omega (arith, l)) ∙ entry-name name id k l))
      z (omega arith)

entry_id :
    (name : List ℕ) (id i : ℕ) (es : List (List ℕ × ℕ)) (b : Buffer)
    → id < 2 ^ 64
    → load 8 (listing i ((name, id) ∷ es) b) (i + align_up_8 (length name + 1)) ≡ id
unfolding entry
entry_id name id i es b h =
    load-shift 8 (listing i ((name, id) ∷ es) b) (entry name id) i (align_up_8 (length name + 1))
      (λ k l. in_entry name id i es b k l)
    ∙ load-store 8 (copy (chars name) 0 zeros 0 (length name)) (align_up_8 (length name + 1)) id h

-- `get_children` reads from a directory the names and inodes that `create` has put there, in this
-- order, if no name has a character 0 and each inode is a word. A round for each entry is enough.
pub entries-listing :
    (es : List (List ℕ × ℕ)) (fuel i : ℕ) (b : Buffer)
    → All IsEntry es
    → length es ≤ fuel
    → entries fuel i (i + listing_size es) (listing i es b) ≡ some es
unfolding entries
entries-listing [] zero i b a f = rw (ltb-false i (i + 0) (omega arith)) refl
entries-listing [] (suc fuel) i b a f = rw (ltb-false i (i + 0) (omega arith)) refl
entries-listing (e ∷ es) zero i b a f = absurd (omega arith)
entries-listing ((name, id) ∷ es) (suc fuel) i b a f =
    let size = listing_size ((name, id) ∷ es) in
    let all = listing i ((name, id) ∷ es) b in
    let ih =
      entries-listing es fuel (i + entry_size name) (copy (entry name id) 0 b i (entry_size name))
        a.1 (omega (arith, f)) in
    rw (ltb-true i (i + size) (omega arith)) (
      ap
        (λ n. c_string n i all >>= (λ cs.
          entries fuel (i + align_up_8 (length cs + 1) + 8) (i + size) all
          >>= (λ rest. some ((cs, load 8 all (i + align_up_8 (length cs + 1))) ∷ rest))))
        {x = i + size - i} {y = size} (omega arith)
      ∙ ap
          (λ o. o >>= (λ cs.
            entries fuel (i + align_up_8 (length cs + 1) + 8) (i + size) all
            >>= (λ rest. some ((cs, load 8 all (i + align_up_8 (length cs + 1))) ∷ rest))))
          (entry_name name id i es b a.0.0)
      ∙ ap₂ (λ o v. o >>= (λ rest. some ((name, v) ∷ rest)))
          (ap₂ (λ j n. entries fuel j n all) {x = i + align_up_8 (length name + 1) + 8}
              {y = i + entry_size name} {u = i + size} {v = i + entry_size name + listing_size es}
              (omega arith) (omega arith)
            ∙ ih)
          (entry_id name id i es b a.0.1))
