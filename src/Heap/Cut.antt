-- ===== src/Heap/Cut.antt =====
-- libwwos/alloc.cc: the numbers and the words of the memory when a chunk is cut in two.
use native.Mathlib.Nat.{pow-suc}
use wwos.Prelude.{
  ℕ, zero, suc, ==_true, ◌∙◌, ◌*◌, ◌/◌, ◌+◌, ◌-◌, ◌%◌, ◌^◌, ◌≤◌, ◌<◌, ◌≡◌, ◌≢◌, ◌⊎◌, refl, ap,
  arith, List, [], ◌∷◌, ◌==◌, if◌then◌else◌, inl, inr,
}
use wwos.Heap.{Allocator, size_at, next_at, clear_bits, align_up}
use wwos.Heap.Chain.{Leads, IsApart, last}

pow_pos : (j : ℕ) → 0 < 2 ^ j
pow_pos zero = omega arith
pow_pos (suc j) = omega (arith, pow-suc 2 j, pow_pos j)

clear_none : (w x : ℕ) → x < 2 ^ w → clear_bits w x 0 ≡ x
unfolding clear_bits
clear_none zero x l = omega arith
clear_none (suc w) x l =
    let rest = clear_none w (x / 2) (omega (arith, pow-suc 2 w)) in
    ap (λ r. x % 2 + 2 * r) rest ∙ omega arith

-- The mask of `j + 1` bits.
mask_bits : (j : ℕ) → ((2 ^ suc j - 1) % 2 ≡ 1) × ((2 ^ suc j - 1) / 2 ≡ 2 ^ j - 1)
mask_bits j = (omega (arith, pow-suc 2 j, pow_pos j), omega (arith, pow-suc 2 j, pow_pos j))

clear_low :
    (j w x : ℕ)
    → j ≤ w
    → x < 2 ^ w
    → (x < clear_bits w x (2 ^ j - 1) + 2 ^ j) × (clear_bits w x (2 ^ j - 1) ≤ x)
unfolding clear_bits
clear_low zero w x k l = let e = clear_none w x l in (omega (arith, e), omega (arith, e))
clear_low (suc j) zero x k l = absurd (omega arith)
clear_low (suc j) (suc w) x k l =
    let (o, h) = mask_bits j in
    let (u, v) = clear_low j w (x / 2) (omega arith) (omega (arith, pow-suc 2 w)) in
    rw (==_true ((2 ^ suc j - 1) % 2) 1 o, h) (omega (arith, u, pow-suc 2 j), omega (arith, v))

pub align_up_lem :
    (v j : ℕ)
    → j < 64
    → v + 2 ^ j < 2 ^ 64
    → (v ≤ align_up v (2 ^ j)) × (align_up v (2 ^ j) < v + 2 ^ j)
unfolding align_up
align_up_lem v j p l =
    let z = pow_pos j in
    let value : (v + 2 ^ j + (2 ^ 64 - 1)) % 2 ^ 64 ≡ v + 2 ^ j - 1 = omega (arith, z) in
    let mask : (2 ^ j + (2 ^ 64 - 1)) % 2 ^ 64 ≡ 2 ^ j - 1 = omega (arith, z) in
    let (u, w) = clear_low j 64 (v + 2 ^ j - 1) (omega arith) (omega arith) in
    rw (value, mask) (omega (arith, u, z), omega (arith, w, z))

apart-le : (ps : List (ℕ × ℕ)) (lo hi : ℕ) → IsApart lo ps hi → lo ≤ hi
apart-le [] lo hi a = a
apart-le ((b, s) ∷ ps) lo hi a = omega (arith, a.0, apart-le ps (b + 16 + s + 1) hi a.1)

-- Where the last chunk ends.
pub last_end :
    (ps : List (ℕ × ℕ)) (prev lo c q : ℕ) (h : Allocator)
    → Leads h (next_at h prev) ps q
    → prev + 16 + size_at h prev ≤ lo
    → IsApart lo ps c
    → (last prev ps + 16 + size_at h (last prev ps) ≤ c)
      × ((last prev ps ≡ prev) ⊎ (last prev ps + 16 + size_at h (last prev ps) < c))
last_end [] prev lo c q h l g a = (omega arith, inl refl)
last_end ((b, s) ∷ ps) prev lo c q h l g a =
    let (x, y) = last_end ps b (b + 16 + s + 1) c q h l.3 (omega (arith, l.2)) a.1 in
    let n = apart-le ps (b + 16 + s + 1) c a.1 in
    (x, inr (elim y [ inl e ↦ omega (arith, e, ap (size_at h) e, l.2, n) | inr k ↦ k ]))

-- The words of the memory once the chunk `c` is cut at `e` and its front handed out, with the header
-- at `d`; and once it is back.
abbrev pub cut : (ℕ → ℕ) → ℕ → ℕ → ℕ → ℕ → ℕ → ℕ → ℕ → ℕ → ℕ
cut w c prev e d u n r x =
    if d + 8 == x
    then c
    else if d == x
    then u
    else if prev + 8 == x
    then e
    else if e + 8 == x
    then n
    else if e == x
    then r
    else w x

module _ (w : ℕ → ℕ) (c prev e d u n r : ℕ) (b : prev + 16 ≤ c) (dc : c ≤ d) (de : d + 16 ≤ e) where
  pub cut-below : (x : ℕ) → x < c → x ≢ prev + 8 → cut w c prev e d u n r x ≡ w x
  cut-below x l z = ground arith

  pub cut-above : (x : ℕ) → e + 16 ≤ x → cut w c prev e d u n r x ≡ w x
  cut-above x l = ground arith

  pub cut-cells :
      (cut w c prev e d u n r (prev + 8) ≡ e)
      × (cut w c prev e d u n r (e + 8) ≡ n)
      × (cut w c prev e d u n r e ≡ r)
      × (cut w c prev e d u n r d ≡ u)
      × (cut w c prev e d u n r (d + 8) ≡ c)
  cut-cells = (ground arith, ground arith, ground arith, ground arith, ground arith)
