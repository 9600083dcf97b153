-- ===== src/Pages/Ranges.antt =====
-- kernel/memory.cc: which addresses a list of free ranges covers, and when the list is in order.
use wwos.Prelude.{
  ℕ, ◌+◌, ◌-◌, ◌^◌, ◌≤◌, ◌<◌, ◌≡◌, refl, ap, ◌∙◌, List, [], ◌∷◌, Bool, true, false, ◌&&◌, ◌||◌, leb,
  ltb, arith, All,
}
use wwos.Pages.{PhysicalPageNode, add_64, sub_64, unskip}

abbrev pub covers : PhysicalPageNode → ℕ → Bool
covers n x = leb n.addr x && ltb x (n.addr + n.size)

-- The byte at the address is in some free range.
abbrev pub is_free : List PhysicalPageNode → ℕ → Bool
is_free [] x = false
is_free (n ∷ ns) x = covers n x || is_free ns x

-- From `low` on: ranges with bytes between them, none empty, none beyond the end of memory.
abbrev pub IsAbove : ℕ → List PhysicalPageNode → Type 0
IsAbove low [] = Unit
IsAbove low (n ∷ ns) =
    (low ≤ n.addr) × (0 < n.size) × (n.addr + n.size < 2 ^ 64) × IsAbove (n.addr + n.size + 1) ns

-- The same downwards, below `high`.
abbrev pub IsBelow : ℕ → List PhysicalPageNode → Type 0
IsBelow high [] = Unit
IsBelow high (n ∷ ns) = (0 < n.size) × (n.addr + n.size < high) × IsBelow n.addr ns

pub add_64_lem : (a b : ℕ) → a + b < 2 ^ 64 → add_64 a b ≡ a + b
unfolding add_64
add_64_lem a b h = omega arith

pub sub_64_lem : (a b : ℕ) → b ≤ a → a < 2 ^ 64 → sub_64 a b ≡ a - b
unfolding sub_64
sub_64_lem a b h l = omega arith

IsAbove-mono :
    (low high : ℕ) (ns : List PhysicalPageNode) → low ≤ high → IsAbove high ns → IsAbove low ns
IsAbove-mono low high [] h a = tt
IsAbove-mono low high (n ∷ ns) h a = (omega (arith, a.0), a.1, a.2, a.3)

pub unskip-IsAbove :
    (high : ℕ) (passed ns : List PhysicalPageNode)
    → high ≤ 2 ^ 64
    → IsBelow high passed
    → IsAbove high ns
    → IsAbove 0 (unskip passed ns)
unskip-IsAbove high [] ns h b a = IsAbove-mono 0 high ns (omega arith) a
unskip-IsAbove high (n ∷ passed) ns h b a =
    unskip-IsAbove n.addr passed (n ∷ ns) (omega (arith, b.1)) b.2 (
      omega arith,
      b.0,
      omega (arith, b.1),
      IsAbove-mono (n.addr + n.size + 1) high ns (omega (arith, b.1)) a,
    )

or_assoc : (a b c : Bool) → (a || (b || c)) ≡ ((a || b) || c)
or_assoc true b c = refl
or_assoc false b c = refl

pub or_comm : (a b : Bool) → (a || b) ≡ (b || a)
or_comm true true = refl
or_comm true false = refl
or_comm false true = refl
or_comm false false = refl

pub is_free-unskip :
    (passed ns : List PhysicalPageNode) (x : ℕ)
    → is_free (unskip passed ns) x ≡ (is_free passed x || is_free ns x)
is_free-unskip [] ns x = refl
is_free-unskip (n ∷ passed) ns x =
    is_free-unskip passed (n ∷ ns) x
    ∙ or_assoc (is_free passed x) (covers n x) (is_free ns x)
    ∙ ap (λ b. b || is_free ns x) (or_comm (is_free passed x) (covers n x))

pub All-unskip :
    (P : PhysicalPageNode → Type 0) (passed ns : List PhysicalPageNode)
    → All P (unskip passed ns)
    → All P passed × All P ns
All-unskip P [] ns a = (tt, a)
All-unskip P (n ∷ passed) ns a = let (b, c) = All-unskip P passed (n ∷ ns) a in ((c.0, b), c.1)
