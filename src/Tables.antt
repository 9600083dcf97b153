-- ===== src/Tables.antt =====
-- kernel/aarch64/memory.cc, kernel/aarch64/memory.h: the translation tables of an address space. The
-- tables are given by their addresses and 512 words each; no two of them overlap. The kernel's
-- allocator and the first address of the kernel's space are parameters: `fresh` lists the addresses
-- that `new` returns. `activate` and `dump` only drive the machine.
pub mod Walk
pub mod Mapped
mod Tests
use wwos.Prelude.{
  ℕ, zero, suc, ◌+◌, ◌-◌, ◌*◌, ◌/◌, ◌%◌, ◌^◌, List, [], ◌∷◌, ◌++◌, Bool, true, false, Option, none,
  some, ◌>>=◌, ◌==◌, ltb, if◌then◌else◌,
}

pub data Regime : Type 0 where
  kernel : Regime
  user : Regime

abbrev pub is_user : Regime → Bool
is_user kernel = false
is_user user = true

pub record Tables : Type 0 where
  pub words : ℕ → ℕ → ℕ
  pub fresh : List ℕ

abbrev pub set_word : ℕ → ℕ → ℕ → Tables → Tables
set_word t i v s = record s {
  words = λ u j. if u == t then (if j == i then v else s.words u j) else s.words u j;
}

-- A field of `width` bits from bit `begin` on, and writing it.
abbrev pub get_bits : ℕ → ℕ → ℕ → ℕ
get_bits begin width raw = raw / 2 ^ begin % 2 ^ width

pub set_bits : ℕ → ℕ → ℕ → ℕ → ℕ
set_bits begin width v raw =
    raw % 2 ^ begin + (v % 2 ^ width) * 2 ^ begin + raw / 2 ^ (begin + width) * 2 ^ (begin + width)

-- `addr << 12`: a field of 28 bits is an `int` there, and is extended by its sign.
abbrev pub shifted : ℕ → ℕ
shifted addr =
    let low = addr * 2 ^ 12 % 2 ^ 32 in if ltb low (2 ^ 31) then low else low + 2 ^ 64 - 2 ^ 32

abbrev pub is_valid : ℕ → Bool
is_valid raw = raw % 2 == 1

-- `LEVEL_OFFSET[level]` of the level with `left` levels below it.
abbrev pub level_offset : ℕ → ℕ
level_offset left = 12 + 9 * left

abbrev pub index : ℕ → ℕ → ℕ
index left va = va / 2 ^ level_offset left % 512

-- The fields that `set_page` writes: `valid`, `type`, `addr`, `af`, `sh` and, for a user, `ap`.
pub page : Regime → ℕ → ℕ → ℕ
page regime pa raw =
    let p =
      set_bits 8 2 3
        (set_bits 10 1 1 (set_bits 12 28 (pa / 2 ^ 12) (set_bits 1 1 1 (set_bits 0 1 1 raw)))) in
    if is_user regime then set_bits 6 2 1 p else p

-- `valid`, `type` and `next_level_table_addr`
pub table : ℕ → ℕ → ℕ
table pa raw = set_bits 12 28 (pa / 2 ^ 12) (set_bits 1 1 1 (set_bits 0 1 1 raw))

module _ (ka_begin : ℕ) where
  abbrev pub next_table : ℕ → ℕ
  next_table raw = (shifted (get_bits 12 28 raw) + ka_begin) % 2 ^ 64

  -- A new table of zeros, and its descriptor; `none` where `new` has no memory.
  pub add_table : ℕ → ℕ → Tables → Option Tables
  add_table t i s = elim s.fresh [
    | [] ↦ none
    | f ∷ fs ↦ some (
        set_word t i (table ((f + 2 ^ 64 - ka_begin) % 2 ^ 64) (s.words t i))
          (record { words = λ u j. if u == f then 0 else s.words u j; fresh = fs }))
  ]

  -- `level_items`, which a null pointer leaves out.
  abbrev pub or_items : ℕ → ℕ → ℕ
  or_items items level_items = if level_items == 0 then items else level_items

  -- With `left` levels below; the defaults `level = 1` and `nullptr` are `left = 2` and 0.
  pub set_page : ℕ → Regime → ℕ → ℕ → ℕ → ℕ → Tables → Option Tables
  set_page items regime va pa zero level_items s =
      let t = or_items items level_items in
      let i = index 0 va in some (set_word t i (page regime pa (s.words t i)) s)
  set_page items regime va pa (suc left) level_items s =
      let t = or_items items level_items in
      let i = index (suc left) va in
      (if is_valid (s.words t i) then some s else add_table t i s)
      >>= (λ s'. set_page items regime va pa left (next_table (s'.words t i)) s')

  -- The pages that the words of the table `t` from the index `i` on lead to, `n` of them; `below`
  -- gives those of a table of the next level.
  pub collect_entries : (ℕ → ℕ → List (ℕ × ℕ)) → ℕ → ℕ → ℕ → ℕ → ℕ → Tables → List (ℕ × ℕ)
  collect_entries below left goffset zero i t s = []
  collect_entries below left goffset (suc n) i t s =
      let rest = collect_entries below left goffset n (i + 1) t s in
      let raw = s.words t i in
      let offset = (goffset + i * 2 ^ level_offset left) % 2 ^ 64 in
      if is_valid raw then below offset raw ++ rest else rest

  pub collect_pages : ℕ → ℕ → ℕ → ℕ → Tables → List (ℕ × ℕ)
  collect_pages items zero goffset level_items s =
      let t = or_items items level_items in
      collect_entries (λ offset raw. (offset, shifted (get_bits 12 28 raw)) ∷ []) 0 goffset 512 0 t
        s
  collect_pages items (suc left) goffset level_items s =
      let t = or_items items level_items in
      collect_entries (λ offset raw. collect_pages items left offset (next_table raw) s) (suc left)
        goffset 512 0 t s

  -- Level 1 has two levels below it.
  pub get_all_pages : ℕ → Tables → List (ℕ × ℕ)
  get_all_pages items s = collect_pages items 2 0 0 s

  -- The addresses that are given back, and the tables; `below` destroys the table behind a descriptor.
  pub destroy_entries : (ℕ → Tables → List ℕ × Tables) → ℕ → ℕ → ℕ → Tables → List ℕ × Tables
  destroy_entries below zero i t s = ([], s)
  destroy_entries below (suc n) i t s =
      let raw = s.words t i in
      let r = if is_valid raw then below raw s else ([], s) in
      let rest = destroy_entries below n (i + 1) t (set_word t i 0 r.1) in (r.0 ++ rest.0, rest.1)

  pub destroy_recursively : ℕ → ℕ → Tables → List ℕ × Tables
  destroy_recursively zero t s =
      let r = destroy_entries (λ raw s'. ([], s')) 512 0 t s in
      if t == 0 then ([], s) else (r.0 ++ (t ∷ []), r.1)
  destroy_recursively (suc left) t s =
      let r = destroy_entries (λ raw s'. destroy_recursively left (next_table raw) s') 512 0 t s in
      if t == 0 then ([], s) else (r.0 ++ (t ∷ []), r.1)
