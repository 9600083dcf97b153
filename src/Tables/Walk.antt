-- ===== src/Tables/Walk.antt =====
-- kernel/aarch64/memory.cc: the pages that `set_page` maps, as the machine walks the tables.
use wwos.Prelude.{
  ℕ, zero, suc, ◌+◌, ◌-◌, ◌*◌, ◌/◌, ◌%◌, ◌^◌, ◌≤◌, ◌<◌, ◌≡◌, ◌≢◌, refl, sym, ap, ap₂, ◌∙◌, arith,
  List, [], ◌∷◌, Bool, true, false, ◌&&◌, Option, none, some, ◌==◌, ==_true, ==_false, ltb-true,
  if◌then◌else◌, All,
}
use wwos.Tables.{
  Regime, Tables, set_word, get_bits, set_bits, shifted, is_valid, index, page, table, next_table,
  kernel, user,
}

-- Where the machine goes on from a descriptor.
abbrev pub next_of : ℕ → ℕ → ℕ
next_of ka_begin raw = (get_bits 12 28 raw * 2 ^ 12 + ka_begin) % 2 ^ 64

-- The descriptor is valid and of type 1: one of a table, or of a page on the last level.
abbrev pub is_table : ℕ → Bool
is_table raw = raw % 4 == 3

-- A page that the machine may use without a fault: the access flag, too, is set.
abbrev pub is_page : ℕ → Bool
is_page raw = (raw % 4 == 3) && (raw / 2 ^ 10 % 2 == 1)

-- The walk of the machine from the table `t`, with `left` levels below it; `none` is a fault.
abbrev pub translate : ℕ → ℕ → ℕ → ℕ → Tables → Option ℕ
translate ka_begin va zero t s =
    let raw = s.words t (index 0 va) in
    if is_page raw then some (get_bits 12 28 raw * 2 ^ 12) else none
translate ka_begin va (suc left) t s =
    let raw = s.words t (index (suc left) va) in
    let rest = translate ka_begin va left (next_of ka_begin raw) s in
    if is_table raw then rest else none

-- The tables on its way.
abbrev pub path : ℕ → ℕ → ℕ → ℕ → Tables → List ℕ
path ka_begin va zero t s = t ∷ []
path ka_begin va (suc left) t s =
    let raw = s.words t (index (suc left) va) in
    let rest = path ka_begin va left (next_of ka_begin raw) s in
    t ∷ (if is_valid raw then rest else [])

-- The descriptors on its way are those of tables, and lead below 2 GB.
abbrev pub IsLow : ℕ → ℕ → ℕ → ℕ → Tables → Type 0
IsLow ka_begin va zero t s = Unit
IsLow ka_begin va (suc left) t s =
    let raw = s.words t (index (suc left) va) in
    let rest = IsLow ka_begin va left (next_of ka_begin raw) s in
    if is_valid raw
    then (is_table raw ≡ true) × (get_bits 12 28 raw * 2 ^ 12 < 2 ^ 31) × rest
    else Unit

abbrev pub IsDistinct : List ℕ → Type 0
IsDistinct [] = Unit
IsDistinct (x ∷ xs) = All (λ y. y ≢ x) xs × IsDistinct xs

-- An address of the kernel's space that is a multiple of 4096 and below 2 GB behind its beginning.
abbrev pub IsFrame : ℕ → ℕ → Type 0
IsFrame ka_begin f =
    (ka_begin ≤ f) × (f < ka_begin + 2 ^ 31) × (f < 2 ^ 64) × ((f - ka_begin) % 2 ^ 12 ≡ 0)

pub shifted-low : (a : ℕ) → a * 2 ^ 12 < 2 ^ 31 → shifted a ≡ a * 2 ^ 12
shifted-low a l =
    let e : a * 2 ^ 12 % 2 ^ 32 ≡ a * 2 ^ 12 = omega arith in
    rw e (rw (ltb-true (a * 2 ^ 12) (2 ^ 31) l) refl)

table-bits :
    (pa raw : ℕ)
    → (is_valid (table pa raw) ≡ true)
      × (is_table (table pa raw) ≡ true)
      × (get_bits 12 28 (table pa raw) ≡ pa / 2 ^ 12 % 2 ^ 28)
unfolding table set_bits
table-bits pa raw = (==_true _ 1 (omega arith), ==_true _ 3 (omega arith), omega arith)

page_flags :
    (regime : Regime) (pa raw : ℕ)
    → (page regime pa raw % 4 ≡ 3) × (page regime pa raw / 2 ^ 10 % 2 ≡ 1)
unfolding page set_bits
page_flags kernel pa raw = (omega arith, omega arith)
page_flags user pa raw = (omega arith, omega arith)

page-is_page : (regime : Regime) (pa raw : ℕ) → is_page (page regime pa raw) ≡ true
page-is_page regime pa raw =
    let (t, a) = page_flags regime pa raw in
    ap₂ (λ (x y : Bool). x && y) (==_true (page regime pa raw % 4) 3 t)
      (==_true (page regime pa raw / 2 ^ 10 % 2) 1 a)

pub page-bits :
    (regime : Regime) (pa raw : ℕ)
    → (is_page (page regime pa raw) ≡ true)
      × (get_bits 12 28 (page regime pa raw) ≡ pa / 2 ^ 12 % 2 ^ 28)
unfolding page set_bits
page-bits kernel pa raw = (page-is_page kernel pa raw, omega arith)
page-bits user pa raw = (page-is_page user pa raw, omega arith)

-- What the walk makes of the word in the first table.
abbrev pub from_word : ℕ → ℕ → ℕ → Tables → ℕ → Option ℕ
from_word ka_begin va left s raw =
    let rest = translate ka_begin va left (next_of ka_begin raw) s in
    if is_table raw then rest else none

pub written : (t i v : ℕ) (s : Tables) → (set_word t i v s).words t i ≡ v
written t i v s = rw (==_true t t refl, ==_true i i refl) refl

pub elsewhere : (t i v u j : ℕ) (s : Tables) → t ≢ u → (set_word t i v s).words u j ≡ s.words u j
elsewhere t i v u j s n = rw (==_false u t (λ e. n (sym e))) refl

-- A table of zeros.
pub empty_lem :
    (ka_begin va left f : ℕ) (s : Tables)
    → ((j : ℕ) → s.words f j ≡ 0)
    → (path ka_begin va left f s ≡ f ∷ []) × IsLow ka_begin va left f s
empty_lem ka_begin va zero f s h = (refl, tt)
empty_lem ka_begin va (suc left) f s h =
    let z : is_valid (s.words f (index (suc left) va)) ≡ false =
      ap (λ raw. raw % 2 == 1) (h (index (suc left) va)) in
    (rw z refl, rw z tt)

module _ (ka_begin f raw : ℕ) (fr : IsFrame ka_begin f) where
  abbrev pub descriptor : ℕ
  descriptor = table ((f + 2 ^ 64 - ka_begin) % 2 ^ 64) raw

  pub descriptor-lem :
      (is_valid descriptor ≡ true)
      × (is_table descriptor ≡ true)
      × (next_of ka_begin descriptor ≡ f)
      × (next_table ka_begin descriptor ≡ f)
  descriptor-lem =
      let (v, u, b) = table-bits ((f + 2 ^ 64 - ka_begin) % 2 ^ 64) raw in
      let a : (f + 2 ^ 64 - ka_begin) % 2 ^ 64 / 2 ^ 12 % 2 ^ 28 * 2 ^ 12 ≡ f - ka_begin =
        omega (arith, fr) in
      let e = ap (λ x. x * 2 ^ 12) b ∙ a in
      let n : next_of ka_begin descriptor ≡ f =
        ap (λ x. (x + ka_begin) % 2 ^ 64) e ∙ omega (arith, fr) in
      (
        v,
        u,
        n,
        ap (λ x. (x + ka_begin) % 2 ^ 64)
              (shifted-low (get_bits 12 28 descriptor) (omega (arith, e, fr)))
            ∙ n,
      )
