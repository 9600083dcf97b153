-- ===== src/Pages/Place.antt =====
-- kernel/memory.cc: one range put between the ranges on its sides.
use wwos.Prelude.{
  ℕ, ◌+◌, ◌-◌, ◌^◌, ◌<◌, ◌≡◌, refl, sym, ap, ◌∙◌, List, ◌∷◌, Bool, true, false, ◌||◌, ◌==◌, ==_ne,
  ◌≢◌, arith,
}
use wwos.Pages.{PhysicalPageNode, add_64, unskip}
use wwos.Pages.Ranges.{
  covers, is_free, IsAbove, IsBelow, add_64_lem, unskip-IsAbove, is_free-unskip, or_comm,
}

or_shuffle : (p n a b g : Bool) → (p || ((a || (g || b)) || n)) ≡ (g || ((a || p) || (b || n)))
or_shuffle true n a b true = refl
or_shuffle true n true b false = refl
or_shuffle true n false b false = refl
or_shuffle false n true b true = refl
or_shuffle false n false b true = refl
or_shuffle false n true b false = refl
or_shuffle false n false true false = refl
or_shuffle false n false false false = refl

-- A list with one new node in the middle is in order, and covers what its parts do.
place_lem :
    (passed ns : List PhysicalPageNode) (r : PhysicalPageNode)
    → IsBelow r.addr passed
    → 0 < r.size
    → r.addr + r.size < 2 ^ 64
    → IsAbove (r.addr + r.size + 1) ns
    → IsAbove 0 (unskip passed (r ∷ ns))
place_lem passed ns r b s e a =
    unskip-IsAbove r.addr passed (r ∷ ns) (omega arith) b (omega arith, s, e, a)

is_free-place :
    (passed ns : List PhysicalPageNode) (r : PhysicalPageNode) (x : ℕ) (a b g : Bool)
    → covers r x ≡ (a || (g || b))
    → is_free (unskip passed (r ∷ ns)) x ≡ (g || ((a || is_free passed x) || (b || is_free ns x)))
is_free-place passed ns r x a b g e =
    is_free-unskip passed (r ∷ ns) x
    ∙ ap (λ c. is_free passed x || (c || is_free ns x)) e
    ∙ or_shuffle (is_free passed x) (is_free ns x) a b g

pub covers_both :
    (n m : PhysicalPageNode) (addr page x : ℕ)
    → n.addr + n.size ≡ addr
    → addr + page ≡ m.addr
    → covers (record { addr = n.addr; size = n.size + (m.size + page) }) x
      ≡ (covers n x || (covers (record { addr = addr; size = page }) x || covers m x))
covers_both n m addr page x e f = ground arith

pub covers_left :
    (n : PhysicalPageNode) (addr page x : ℕ)
    → n.addr + n.size ≡ addr
    → covers (record { addr = n.addr; size = n.size + page }) x
      ≡ (covers n x || (covers (record { addr = addr; size = page }) x || false))
covers_left n addr page x e = ground arith

pub covers_right :
    (m : PhysicalPageNode) (addr page x : ℕ)
    → addr + page ≡ m.addr
    → covers (record { addr = m.addr - page; size = m.size + page }) x
      ≡ (covers (record { addr = addr; size = page }) x || covers m x)
covers_right m addr page x f = ground arith

pub covers_new :
    (addr page x : ℕ)
    → covers (record { addr = addr; size = page }) x
      ≡ (covers (record { addr = addr; size = page }) x || false)
covers_new addr page x = or_comm false (covers (record { addr = addr; size = page }) x)

pub touches : (a b c : ℕ) → a + b < 2 ^ 64 → (add_64 a b == c) ≡ true → a + b ≡ c
touches a b c h e = ==_eq (a + b) c (rw (sym (add_64_lem a b h)) e)
  where
    ==_eq : (i j : ℕ) → (i == j) ≡ true → i ≡ j
    ==_eq i j f = ground arith

pub stays_off : (a b c : ℕ) → a + b < 2 ^ 64 → (add_64 a b == c) ≡ false → a + b ≢ c
stays_off a b c h e = ==_ne (a + b) c (rw (sym (add_64_lem a b h)) e)

-- One node in the middle stands for the page, and for nodes `a` and `b` that were on its sides.
pub placed :
    (addr page : ℕ) (passed ns : List PhysicalPageNode) (r : PhysicalPageNode) (a b : ℕ → Bool)
    → IsBelow r.addr passed
    → 0 < r.size
    → r.addr + r.size < 2 ^ 64
    → IsAbove (r.addr + r.size + 1) ns
    → ((x : ℕ) → covers r x ≡ (a x || (covers (record { addr = addr; size = page }) x || b x)))
    → IsAbove 0 (unskip passed (r ∷ ns))
      × ((x : ℕ)
          → is_free (unskip passed (r ∷ ns)) x ≡ (
              covers (record { addr = addr; size = page }) x
              || ((a x || is_free passed x) || (b x || is_free ns x))))
placed addr page passed ns r a b below size end above e = (
  place_lem passed ns r below size end above,
  λ x. is_free-place passed ns r x (a x) (b x) _ (e x),
)
