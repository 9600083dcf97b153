-- ===== src/Tables/Mapped.antt =====
-- kernel/aarch64/memory.cc: what `set_page` maps and what it leaves alone.
use wwos.Prelude.{
  ℕ, zero, suc, ◌+◌, ◌-◌, ◌*◌, ◌/◌, ◌%◌, ◌^◌, ◌≤◌, ◌<◌, ◌≡◌, ◌≢◌, refl, sym, ap, subst, ◌∙◌, arith,
  List, [], ◌∷◌, ◌++◌, Bool, true, false, Option, none, some, ◌==◌, ==_true, ==_false, ==_ne, ◌||◌,
  if◌then◌else◌, length, All, Bool-cases, inl, inr,
}
use wwos.Tables.{
  Regime, Tables, set_word, get_bits, is_valid, index, page, table, next_table, add_table, set_page,
}
use wwos.Tables.Walk.{
  next_of, is_table, is_page, translate, path, IsLow, IsDistinct, IsFrame, shifted-low, page-bits,
  from_word, written, elsewhere, empty_lem, descriptor-lem,
}

-- The result of `set_page`.
Maps : ℕ → ℕ → Regime → ℕ → ℕ → ℕ → ℕ → List ℕ → Tables → Type 0
Maps ka_begin items regime va pa left t fresh s =
    (s' : Tables) × (set_page ka_begin items regime va pa left t s ≡ some s')
    × (translate ka_begin va left t s' ≡ some (pa / 2 ^ 12 % 2 ^ 28 * 2 ^ 12))
    × ((u j : ℕ)
        → All (λ x. x ≢ u) (path ka_begin va left t s ++ fresh)
        → s'.words u j ≡ s.words u j)

last_level :
    (ka_begin items va pa t : ℕ) (regime : Regime) (fresh : List ℕ) (s : Tables)
    → t ≢ 0
    → Maps ka_begin items regime va pa 0 t fresh s
unfolding Maps set_page
last_level ka_begin items va pa t regime fresh s z =
    let v = page regime pa (s.words t (index 0 va)) in
    let (b, c) = page-bits regime pa (s.words t (index 0 va)) in
    (
      set_word t (index 0 va) v s,
      rw (==_false t 0 z) refl,
      ap (λ raw. if is_page raw then some (get_bits 12 28 raw * 2 ^ 12) else none)
            (written t (index 0 va) v s)
          ∙ rw b (ap (λ a. some (a * 2 ^ 12)) c),
      λ u j n. elsewhere t (index 0 va) v u j s n.0,
    )

-- The table of the next level is there.
go_down :
    (ka_begin items va pa left t : ℕ) (regime : Regime) (fresh : List ℕ) (s : Tables)
    → t ≢ 0
    → is_valid (s.words t (index (suc left) va)) ≡ true
    → is_table (s.words t (index (suc left) va)) ≡ true
    → get_bits 12 28 (s.words t (index (suc left) va)) * 2 ^ 12 < 2 ^ 31
    → IsDistinct (path ka_begin va (suc left) t s ++ fresh)
    → Maps ka_begin items regime va pa left
        (next_of ka_begin (s.words t (index (suc left) va)))
        fresh
        s
    → Maps ka_begin items regime va pa (suc left) t fresh s
unfolding Maps set_page
go_down ka_begin items va pa left t regime fresh s z e b l d (s', m, w, o) =
    let raw = s.words t (index (suc left) va) in
    let n : next_table ka_begin raw ≡ next_of ka_begin raw =
      ap (λ a. (a + ka_begin) % 2 ^ 64) (shifted-low (get_bits 12 28 raw) l) in
    let d' = (rw e at d) in
    (
      s',
      rw (==_false t 0 z) (rw e (ap (λ k. set_page ka_begin items regime va pa left k s) n ∙ m)),
      ap (from_word ka_begin va left s') (o t (index (suc left) va) d'.0) ∙ rw b w,
      λ u j k. let k' = (rw e at k) in o u j k'.1,
    )

-- The heap with a new table in it.
added : ℕ → ℕ → ℕ → ℕ → List ℕ → Tables → Tables
added ka_begin t i f fresh s =
    set_word t i (table ((f + 2 ^ 64 - ka_begin) % 2 ^ 64) (s.words t i))
      (record { words = λ u j. if u == f then 0 else s.words u j; fresh = fresh })

add_table_lem :
    (ka_begin t i f : ℕ) (fresh : List ℕ) (s : Tables)
    → s.fresh ≡ f ∷ fresh
    → add_table ka_begin t i s ≡ some (added ka_begin t i f fresh s)
unfolding add_table added
add_table_lem ka_begin t i f fresh s e = rw e refl

added_words :
    (ka_begin t i f : ℕ) (fresh : List ℕ) (s : Tables)
    → f ≢ t
    → ((added ka_begin t i f fresh s).fresh ≡ fresh)
      × ((added ka_begin t i f fresh s).words t i
          ≡ table ((f + 2 ^ 64 - ka_begin) % 2 ^ 64) (s.words t i))
      × ((j : ℕ) → (added ka_begin t i f fresh s).words f j ≡ 0)
      × ((u j : ℕ) → t ≢ u → f ≢ u → (added ka_begin t i f fresh s).words u j ≡ s.words u j)
unfolding added
added_words ka_begin t i f fresh s n = (
  refl,
  rw (==_true t t refl, ==_true i i refl) refl,
  λ j. rw (==_false f t n, ==_true f f refl) refl,
  λ u j a b. rw (==_false u t (λ e. a (sym e)), ==_false u f (λ e. b (sym e))) refl,
)

-- The table of the next level is new.
go_new :
    (ka_begin items va pa left t f : ℕ) (regime : Regime) (fresh : List ℕ) (s : Tables)
    → t ≢ 0
    → is_valid (s.words t (index (suc left) va)) ≡ false
    → s.fresh ≡ f ∷ fresh
    → IsFrame ka_begin f
    → IsDistinct (t ∷ (f ∷ fresh))
    → Maps ka_begin items regime va pa left f fresh
        (added ka_begin t (index (suc left) va) f fresh s)
    → Maps ka_begin items regime va pa (suc left) t (f ∷ fresh) s
unfolding Maps set_page
go_new ka_begin items va pa left t f regime fresh s z e g fr d (s', m, w, o) =
    let i = index (suc left) va in
    let s1 = added ka_begin t i f fresh s in
    let (h, a, b, c) = added_words ka_begin t i f fresh s d.0.0 in
    let (v, q0, n, k) = descriptor-lem ka_begin f (s.words t i) fr in
    let (p, q) = empty_lem ka_begin va left f s1 b in
    (
      s',
      rw (==_false t 0 z) (
          rw e (
            rw (add_table_lem ka_begin t i f fresh s g) (
              ap (λ raw. set_page ka_begin items regime va pa left (next_table ka_begin raw) s1) a
              ∙ ap (λ x. set_page ka_begin items regime va pa left x s1) k
              ∙ m))),
      ap (from_word ka_begin va left s')
            (o t i (subst (λ xs. All (λ x. x ≢ t) (xs ++ fresh)) (sym p) d.0) ∙ a)
          ∙ rw q0 (ap (λ x. translate ka_begin va left x s') n ∙ w),
      λ u j k.
          let k' = (rw e at k) in
          o u j (subst (λ xs. All (λ x. x ≢ u) (xs ++ fresh)) (sym p) k'.1) ∙ c u j k'.0 k'.1.0,
    )

next_of-there :
    (ka_begin raw : ℕ)
    → 0 < ka_begin
    → ka_begin + 2 ^ 31 ≤ 2 ^ 64
    → get_bits 12 28 raw * 2 ^ 12 < 2 ^ 31
    → next_of ka_begin raw ≢ 0
next_of-there ka_begin raw a b l = omega arith

maps_lem :
    (left ka_begin items va pa t : ℕ) (regime : Regime) (fresh : List ℕ) (s : Tables)
    → t ≢ 0
    → 0 < ka_begin
    → ka_begin + 2 ^ 31 ≤ 2 ^ 64
    → s.fresh ≡ fresh
    → All (IsFrame ka_begin) fresh
    → left ≤ length fresh
    → IsLow ka_begin va left t s
    → IsDistinct (path ka_begin va left t s ++ fresh)
    → Maps ka_begin items regime va pa left t fresh s
maps_lem zero ka_begin items va pa t regime fresh s z ka kb g a l w d =
    last_level ka_begin items va pa t regime fresh s z
maps_lem (suc left) ka_begin items va pa t regime [] s z ka kb g a l w d = absurd (omega arith)
maps_lem (suc left) ka_begin items va pa t regime (f ∷ fresh) s z ka kb g a l w d =
    elim (Bool-cases (is_valid (s.words t (index (suc left) va)))) [
      | inl e ↦
          let w' = (rw e at w) in
          let d' = (rw e at d) in
          go_down ka_begin items va pa left t regime (f ∷ fresh) s z e w'.0 w'.1 d (
            maps_lem left ka_begin items va pa (next_of ka_begin (s.words t (index (suc left) va)))
              regime (f ∷ fresh) s
              (next_of-there ka_begin (s.words t (index (suc left) va)) ka kb w'.1) ka kb g a
              (omega (arith, l)) w'.2 d'.1)
      | inr e ↦
          let i = index (suc left) va in
          let d' = (rw e at d) in
          let s1 = added ka_begin t i f fresh s in
          let (h, x, b, c) = added_words ka_begin t i f fresh s d'.0.0 in
          let (p, q) = empty_lem ka_begin va left f s1 b in
          go_new ka_begin items va pa left t f regime fresh s z e g a.0 d' (
            maps_lem left ka_begin items va pa f regime fresh s1 (omega (arith, a.0.0)) ka kb h a.1
              (omega (arith, l)) q (subst (λ xs. IsDistinct (xs ++ fresh)) (sym p) d'.1))
    ]

abbrev pub has : ℕ → List ℕ → Bool
has u [] = false
has u (x ∷ xs) = (x == u) || has u xs

has-All : (u : ℕ) (xs : List ℕ) → has u xs ≡ false → All (λ x. x ≢ u) xs
has-All u [] h = tt
has-All u (x ∷ xs) h = elim (Bool-cases (x == u)) [
  | inl e ↦ absurd (let f = (rw e at h) in cc)
  | inr e ↦ (==_ne x u e, has-All u xs (rw e at h))
]

default_items :
    (ka_begin items : ℕ) (regime : Regime) (va pa : ℕ) (s : Tables)
    → items ≢ 0
    → set_page ka_begin items regime va pa 2 0 s ≡ set_page ka_begin items regime va pa 2 items s
unfolding set_page
default_items ka_begin items regime va pa s z = rw (==_false items 0 z) refl

-- A word of a table that is not in the list.
abbrev pub outside : List ℕ → Tables → ℕ → ℕ → Option ℕ
outside xs s u j = if has u xs then none else some (s.words u j)

-- `set_page` of an address and a page, with no table given and with as many new tables as there may
-- have to be, maps the address to the page: the machine's walk from the first table leads to it, cut
-- to 40 bits and to its beginning. The walk faults at a descriptor that is not valid or not of type 1,
-- and at a page without the access flag. No table is changed but those on the way and the new ones. The
-- tables on the way and the new ones are different, stand in the first 2 GB of the kernel's space, which
-- does not begin at 0, and the descriptors on the way lead to tables.
pub translate-set_page :
    (ka_begin va pa items : ℕ) (regime : Regime) (s : Tables)
    → 0 < ka_begin
    → ka_begin + 2 ^ 31 ≤ 2 ^ 64
    → items ≢ 0
    → All (IsFrame ka_begin) s.fresh
    → 2 ≤ length s.fresh
    → IsLow ka_begin va 2 items s
    → IsDistinct (path ka_begin va 2 items s ++ s.fresh)
    → (s' : Tables) × (set_page ka_begin items regime va pa 2 0 s ≡ some s')
      × (translate ka_begin va 2 items s' ≡ some (pa / 2 ^ 12 % 2 ^ 28 * 2 ^ 12))
      × ((u j : ℕ)
          → outside (path ka_begin va 2 items s ++ s.fresh) s' u j
            ≡ outside (path ka_begin va 2 items s ++ s.fresh) s u j)
unfolding Maps
translate-set_page ka_begin va pa items regime s ka kb z a l w d =
    let (s', m, t, o) =
      maps_lem 2 ka_begin items va pa items regime s.fresh s z ka kb refl a l w d in
    let tables = path ka_begin va 2 items s ++ s.fresh in
    (
      s',
      default_items ka_begin items regime va pa s z ∙ m,
      t,
      λ u j. elim (Bool-cases (has u tables)) [
        | inl e ↦ rw e refl
        | inr e ↦ rw e (ap some (o u j (has-All u tables e)))
      ],
    )
