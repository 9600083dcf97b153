-- ===== src/Pages/Merge.antt =====
-- kernel/memory.cc: the cases of `free`, by the ranges that the page touches.
use wwos.Prelude.{
  ℕ, ◌+◌, ◌-◌, ◌^◌, ◌≤◌, ◌<◌, ◌≡◌, refl, List, [], ◌∷◌, true, false, ◌||◌, ◌==◌, ◌≢◌, subst, ◌⊎◌,
  inl, inr, Bool-cases, arith, All,
}
use wwos.Pages.{PhysicalPageNode, add_64, left_contiguous, right_contiguous, merge}
use wwos.Pages.Ranges.{covers, is_free, IsAbove, IsBelow, add_64_lem, sub_64_lem}
use wwos.Pages.Place.{
  covers_both, covers_left, covers_right, covers_new, touches, stays_off, placed,
}

-- The last node passed starts below the address, and the ones before it are in order.
abbrev pub IsPassed : ℕ → List PhysicalPageNode → Type 0
IsPassed addr [] = Unit
IsPassed addr (n ∷ passed) =
    (n.addr < addr) × (0 < n.size) × (n.addr + n.size < 2 ^ 64) × IsBelow n.addr passed

abbrev pub IsBehind : List PhysicalPageNode → List PhysicalPageNode → Type 0
IsBehind [] ns = IsAbove 0 ns
IsBehind (n ∷ passed) ns = IsAbove (n.addr + n.size + 1) ns

abbrev pub StartsFrom : ℕ → List PhysicalPageNode → Type 0
StartsFrom addr [] = Unit
StartsFrom addr (n ∷ ns) = addr ≤ n.addr

-- No byte of the page is in the node.
abbrev pub IsApart : ℕ → ℕ → PhysicalPageNode → Type 0
IsApart addr page n = (n.addr + n.size ≤ addr) ⊎ (addr + page ≤ n.addr)

-- The page is joined to what stands on its sides.
unfoldable pub Merged : ℕ → ℕ → List PhysicalPageNode → List PhysicalPageNode → Type 0
Merged addr page passed ns =
    let ms =
      merge (left_contiguous addr passed) (right_contiguous addr page ns) addr page passed ns in
    IsAbove 0 ms
    × ((x : ℕ)
        → is_free ms x
          ≡ (covers (record { addr = addr; size = page }) x || (is_free passed x || is_free ns x)))

-- The nodes behind the page, where it does not touch them.
stays_behind :
    (addr page : ℕ) (m : PhysicalPageNode) (ns : List PhysicalPageNode) (low : ℕ)
    → IsAbove low (m ∷ ns)
    → addr ≤ m.addr
    → 0 < page
    → IsApart addr page m
    → addr + page ≢ m.addr
    → IsAbove (addr + page + 1) (m ∷ ns)
stays_behind addr page m ns low b s z (inl u) n = absurd (omega (arith, b.1))
stays_behind addr page m ns low b s z (inr u) n = (omega arith, b.1, b.2, b.3)

-- The nodes before the page, where it does not touch them.
stays_before :
    (addr page : ℕ) (n : PhysicalPageNode) (passed : List PhysicalPageNode)
    → IsPassed addr (n ∷ passed)
    → 0 < page
    → IsApart addr page n
    → n.addr + n.size ≢ addr
    → IsBelow addr (n ∷ passed)
stays_before addr page n passed p z (inl u) ne = (p.1, omega arith, p.3)
stays_before addr page n passed p z (inr u) ne = absurd (omega (arith, p.0))

merge-no_left :
    (addr page : ℕ) (passed ns : List PhysicalPageNode) (low : ℕ)
    → 0 < page
    → addr + page < 2 ^ 64
    → left_contiguous addr passed ≡ false
    → IsBelow addr passed
    → IsAbove low ns
    → StartsFrom addr ns
    → All (IsApart addr page) ns
    → Merged addr page passed ns
unfolding Merged
merge-no_left addr page passed [] low z w l below b s ap2 = rw l (
    placed addr page passed [] (record { addr = addr; size = page }) (λ x. false) (λ x. false) below
      z w tt (covers_new addr page))
merge-no_left addr page passed (m ∷ ns) low z w l below b s ap2 =
    elim (Bool-cases (add_64 addr page == m.addr)) [
      | inl e ↦
          let t = touches addr page m.addr w e in
          rw
            (
              l,
              e,
              sub_64_lem m.addr page (omega arith) (omega (arith, b.2)),
              add_64_lem m.size page (omega (arith, b.2)),
            )
            (placed addr page passed ns (record { addr = m.addr - page; size = m.size + page })
              (λ x. false) (covers m) (subst (λ a. IsBelow a passed) (omega arith) below)
              (omega arith) (omega (arith, b.2)) (subst (λ a. IsAbove a ns) (omega arith) b.3)
              (λ x. covers_right m addr page x t))
      | inr e ↦
          rw (l, e)
            (placed addr page passed (m ∷ ns) (record { addr = addr; size = page }) (λ x. false)
              (λ x. false) below z w
              (stays_behind addr page m ns low b s z ap2.0 (stays_off addr page m.addr w e))
              (covers_new addr page))
    ]

merge-left :
    (addr page : ℕ) (n : PhysicalPageNode) (passed ns : List PhysicalPageNode)
    → 0 < page
    → addr + page < 2 ^ 64
    → left_contiguous addr (n ∷ passed) ≡ true
    → n.addr + n.size ≡ addr
    → IsPassed addr (n ∷ passed)
    → IsBehind (n ∷ passed) ns
    → StartsFrom addr ns
    → All (IsApart addr page) ns
    → Merged addr page (n ∷ passed) ns
unfolding Merged
merge-left addr page n passed [] z w l t p b s ap2 =
    rw (l, add_64_lem n.size page (omega arith))
      (placed addr page passed [] (record { addr = n.addr; size = n.size + page }) (covers n)
        (λ x. false) p.3 (omega arith) (omega arith) tt (λ x. covers_left n addr page x t))
merge-left addr page n passed (m ∷ ns) z w l t p b s ap2 =
    elim (Bool-cases (add_64 addr page == m.addr)) [
      | inl e ↦
          let u = touches addr page m.addr w e in
          rw
            (
              l,
              e,
              add_64_lem m.size page (omega (arith, b.2)),
              add_64_lem n.size (m.size + page) (omega (arith, b.2)),
            )
            (placed addr page passed ns (record { addr = n.addr; size = n.size + (m.size + page) })
              (covers n) (covers m) p.3 (omega arith) (omega (arith, b.2))
              (subst (λ a. IsAbove a ns) (omega arith) b.3) (λ x. covers_both n m addr page x t u))
      | inr e ↦
          rw (l, e, add_64_lem n.size page (omega arith))
            (placed addr page passed (m ∷ ns) (record { addr = n.addr; size = n.size + page })
              (covers n) (λ x. false) p.3 (omega arith) (omega arith)
              (subst (λ a. IsAbove a (m ∷ ns)) (omega arith)
                (stays_behind addr page m ns (n.addr + n.size + 1) b s z ap2.0
                  (stays_off addr page m.addr w e)))
              (λ x. covers_left n addr page x t))
    ]

pub merge_lem :
    (addr page : ℕ) (passed ns : List PhysicalPageNode)
    → 0 < page
    → addr + page < 2 ^ 64
    → IsPassed addr passed
    → IsBehind passed ns
    → StartsFrom addr ns
    → All (IsApart addr page) passed
    → All (IsApart addr page) ns
    → Merged addr page passed ns
merge_lem addr page [] ns z w p b s ap1 ap2 = merge-no_left addr page [] ns 0 z w refl tt b s ap2
merge_lem addr page (n ∷ passed) ns z w p b s ap1 ap2 =
    elim (Bool-cases (left_contiguous addr (n ∷ passed))) [
      | inl e ↦ merge-left addr page n passed ns z w e (touches n.addr n.size addr p.2 e) p b s ap2
      | inr e ↦
          merge-no_left addr page (n ∷ passed) ns (n.addr + n.size + 1) z w e
            (stays_before addr page n passed p z ap1.0 (stays_off n.addr n.size addr p.2 e)) b s ap2
    ]
