-- ===== src/Nodes/Children.antt =====
-- kernel/filesystem.cc: the names of a directory's children in the buffer that `get_flattened_children`
-- fills.
use wwos.Prelude.{
  ℕ, zero, suc, ◌+◌, ◌-◌, ◌≤◌, ◌<◌, ◌≡◌, inl, refl, sym, ap, ◌∙◌, arith, List, [], ◌∷◌, Bool, true,
  false, some, ==_true, ==_false, ltb, ltb-true, ltb-false, if◌then◌else◌, length, dec_lt, ◌≢◌,
}
use wwos.Bytes.{Buffer, put, copy}
use wwos.Bytes.Copies.{copy-inside, copy-outside}
use wwos.Directory
use wwos.Directory.{chars}
use wwos.Directory.Entries.{chars-Spells, chars-behind}
use wwos.Nodes.{Nodes, flatten, fill_zeros, flattened_size, get_flattened_children}
use wwos.Client.Names.{SpellsAll, names_size}

abbrev pub names_of : List (List ℕ × ℕ) → List (List ℕ)
names_of [] = []
names_of ((name, id) ∷ children) = name ∷ names_of children

pub names_size-eq : (es : List (List ℕ × ℕ)) → names_size (names_of es) ≡ flattened_size es
names_size-eq [] = refl
names_size-eq ((name, id) ∷ es) = omega (arith, names_size-eq es)

-- The buffer with a name in it
abbrev named : ℕ → List ℕ → Buffer → Buffer
named i name b = put (copy (chars name) 0 b i (length name)) (i + length name) 0

flatten-below : (es : List (List ℕ × ℕ)) (i k : ℕ) (b : Buffer) → k < i → flatten i es b k ≡ b k
unfolding flatten
flatten-below [] i k b h = refl
flatten-below ((name, id) ∷ es) i k b h =
    flatten-below es (i + length name + 1) k (named i name b) (omega arith)
    ∙ rw (==_false (i + length name) k (omega arith)) refl
    ∙ copy-outside (chars name) 0 b i (length name) k (inl h)

named-inside :
    (name : List ℕ) (i k : ℕ) (b : Buffer) → k ≤ length name → named i name b (i + k) ≡ chars name k
named-inside name i k b h = elim (dec_lt k (length name)) [
  | yes l ↦
      rw (==_false (i + length name) (i + k) (omega arith)) refl
      ∙ copy-inside (chars name) 0 b i (length name) (i + k) (omega arith) (omega (arith, l))
      ∙ ap (chars name) {x = 0 + (i + k - i)} {y = k} (omega arith)
  | no n ↦
      rw (==_true (i + length name) (i + k) (omega (arith, n))) refl
      ∙ sym (chars-behind name k (omega (arith, n)))
]

-- A buffer that has the names where `flatten` puts them.
flatten-SpellsAll :
    (es : List (List ℕ × ℕ)) (i : ℕ) (b out : Buffer)
    → ((k : ℕ) → k < i + flattened_size es → out k ≡ flatten i es b k)
    → SpellsAll out i (names_of es)
unfolding flatten
flatten-SpellsAll [] i b out h = tt
flatten-SpellsAll ((name, id) ∷ es) i b out h =
    let b' = named i name b in
    (
      chars-Spells name out i (λ k l.
          h (i + k) (omega (arith, l))
          ∙ flatten-below es (i + length name + 1) (i + k) b' (omega (arith, l))
          ∙ named-inside name i k b l),
      flatten-SpellsAll es (i + length name + 1) b' out (λ k l. h k (omega (arith, l))),
    )

fill_zeros-below : (n i k : ℕ) (b : Buffer) → k < i → fill_zeros n i b k ≡ b k
unfolding fill_zeros
fill_zeros-below zero i k b h = refl
fill_zeros-below (suc n) i k b h =
    fill_zeros-below n (i + 1) k (put b i 0) (omega arith) ∙ rw (==_false i k (omega arith)) refl

fill_zeros-first : (n i : ℕ) (b : Buffer) → 0 < n → fill_zeros n i b i ≡ 0
unfolding fill_zeros
fill_zeros-first zero i b h = absurd (omega arith)
fill_zeros-first (suc n) i b h =
    fill_zeros-below n (i + 1) i (put b i 0) (omega arith) ∙ rw (==_true i i refl) refl

abbrev pub flattened : ℕ → List (List ℕ × ℕ) → Buffer → Buffer
flattened size es b = fill_zeros (size - flattened_size es) (flattened_size es) (flatten 0 es b)

-- The buffer has the names from its beginning on, and a zero behind them if there is room.
pub flattened_lem :
    (size : ℕ) (es : List (List ℕ × ℕ)) (b : Buffer)
    → SpellsAll (flattened size es b) 0 (names_of es)
      × ((if ltb (flattened_size es) size then flattened size es b (flattened_size es) else 0) ≡ 0)
flattened_lem size es b = (
  flatten-SpellsAll es 0 b (flattened size es b) (λ k l.
      fill_zeros-below (size - flattened_size es) (flattened_size es) k (flatten 0 es b)
        (omega (arith, l))),
  elim (dec_lt (flattened_size es) size) [
    | yes l ↦ rw (ltb-true (flattened_size es) size l) (
        fill_zeros-first (size - flattened_size es) (flattened_size es) (flatten 0 es b)
          (omega (arith, l)))
    | no n ↦ rw (ltb-false (flattened_size es) size (omega (arith, n))) refl
  ],
)

-- The two branches of `get_flattened_children`.
pub get_flattened_children_lem :
    (sfn size : ℕ) (s : Nodes) (b : Buffer) (es : List (List ℕ × ℕ))
    → sfn ≢ 0
    → Directory.get_children s.fs (s.node sfn).inode ≡ some es
    → get_flattened_children sfn s b size
      ≡ some (
          if ltb size (flattened_size es) then (flattened_size es, b) else (0, flattened size es b))
unfolding get_flattened_children
get_flattened_children_lem sfn size s b es t e =
    rw (==_false sfn 0 t) (
      rw e (if_some (ltb size (flattened_size es)) (flattened_size es, b) (0, flattened size es b)))
  where
    if_some :
        (c : Bool) (x y : ℕ × Buffer) → (if c then some x else some y) ≡ some (if c then x else y)
    if_some true x y = refl
    if_some false x y = refl
