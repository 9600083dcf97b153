-- ===== src/Pages/Free.antt =====
-- kernel/memory.cc: `free`, which finds the place of the page and joins it with what it touches.
use wwos.Prelude.{
  ℕ, ◌≢◌, ◌+◌, ◌^◌, ◌≤◌, ◌<◌, ◌≡◌, ◌⊎◌, true, false, not, ◌&&◌, ==_true, ==_false, and_false, some,
  length, refl, sym, ap, ◌∙◌, List, [], ◌∷◌, ◌||◌, leb, leb→le, subst, inl, inr, Bool-cases, arith,
  All,
}
use wwos.Pages.{
  PhysicalPageNode, PhysicalMemoryPageAllocator, skip, unskip, left_contiguous, right_contiguous,
  merge, is_full, free,
}
use wwos.Pages.Ranges.{
  covers, is_free, IsAbove, IsBelow, add_64_lem, is_free-unskip, All-unskip, or_comm,
}
use wwos.Pages.Merge.{IsPassed, IsBehind, StartsFrom, IsApart, Merged, merge_lem}

IsPassed-IsBelow :
    (addr : ℕ) (passed : List PhysicalPageNode) (n : PhysicalPageNode) (ns : List PhysicalPageNode)
    → IsPassed addr passed
    → IsBehind passed (n ∷ ns)
    → IsBelow n.addr passed
      × (0 < n.size)
      × (n.addr + n.size < 2 ^ 64)
      × IsAbove (n.addr + n.size + 1) ns
IsPassed-IsBelow addr [] n ns p b = (tt, b.1, b.2, b.3)
IsPassed-IsBelow addr (m ∷ passed) n ns p b = ((p.1, omega (arith, b.0), p.3), b.1, b.2, b.3)

skip_lem :
    (addr : ℕ) (passed ns : List PhysicalPageNode)
    → IsPassed addr passed
    → IsBehind passed ns
    → IsPassed addr (skip addr passed ns).0
      × IsBehind (skip addr passed ns).0 (skip addr passed ns).1
      × StartsFrom addr (skip addr passed ns).1
      × (unskip (skip addr passed ns).0 (skip addr passed ns).1 ≡ unskip passed ns)
unfolding skip
skip_lem addr passed [] p b = (p, b, tt, refl)
skip_lem addr passed (n ∷ ns) p b = elim (Bool-cases (leb addr n.addr)) [
  | inl e ↦ rw (e, skip) (p, b, leb→le addr n.addr e, refl)
  | inr e ↦
      let (c, d, f, g) = IsPassed-IsBelow addr passed n ns p b in
      rw (e, skip) (skip_lem addr (n ∷ passed) ns (ground (arith, e), d, f, c) g)
]

-- The page touches the start of a range.
abbrev pub Touches : ℕ → ℕ → List PhysicalPageNode → Type 0
Touches addr page [] = ⊥
Touches addr page (n ∷ ns) = (addr + page ≡ n.addr) ⊎ Touches addr page ns

Touches-le :
    (addr page low : ℕ) (ns : List PhysicalPageNode)
    → IsAbove low ns
    → Touches addr page ns
    → low ≤ addr + page
Touches-le addr page low [] v t = elim t [ ]
Touches-le addr page low (n ∷ ns) v (inl t) = omega (arith, v.0)
Touches-le addr page low (n ∷ ns) v (inr t) =
    omega (arith, v.0, Touches-le addr page (n.addr + n.size + 1) ns v.3 t)

Touches-right :
    (addr page low : ℕ) (passed ns : List PhysicalPageNode)
    → IsAbove low ns
    → 0 < page
    → addr + page < 2 ^ 64
    → All (IsApart addr page) ns
    → Touches addr page ns
    → right_contiguous addr page (skip addr passed ns).1 ≡ true
unfolding skip
Touches-right addr page low passed [] v z w a t = elim t [ ]
Touches-right addr page low passed (n ∷ ns) v z w a t = elim (Bool-cases (leb addr n.addr)) [
  | inl e ↦
      rw (e, skip) (rw (add_64_lem addr page w) (==_true (addr + page) n.addr (first e a.0 t)))
  | inr e ↦
      rw (e, skip)
        (Touches-right addr page (n.addr + n.size + 1) (n ∷ passed) ns v.3 z w a.1 (behind e t))
]
  where
    first :
        leb addr n.addr ≡ true
        → IsApart addr page n
        → Touches addr page (n ∷ ns)
        → addr + page ≡ n.addr
    first e b (inl u) = u
    first e (inl b) (inr u) = absurd (omega (arith, v.1, leb→le addr n.addr e))
    first e (inr b) (inr u) =
        absurd (omega (arith, Touches-le addr page (n.addr + n.size + 1) ns v.3 u))

    above : leb addr n.addr ≡ false → n.addr < addr
    above e = ground arith

    behind : leb addr n.addr ≡ false → Touches addr page (n ∷ ns) → Touches addr page ns
    behind e (inl u) = absurd (omega (arith, above e))
    behind e (inr u) = u

-- What `free` leaves.
pub record Freed (addr : ℕ) (a a' : PhysicalMemoryPageAllocator) : Type 0 where
  pub order : IsAbove 0 a'.freelist
  pub same_page_size : a'.page_size ≡ a.page_size
  pub same_capacity : a'.capacity ≡ a.capacity
  pub exact :
      (x : ℕ)
      → is_free a'.freelist x
        ≡ (covers (record { addr = addr; size = a.page_size }) x || is_free a.freelist x)

pub free_lem :
    (addr : ℕ) (a : PhysicalMemoryPageAllocator)
    → IsAbove 0 a.freelist
    → 0 < a.page_size
    → addr + a.page_size < 2 ^ 64
    → All (IsApart addr a.page_size) a.freelist
    → (length a.freelist < a.capacity) ⊎ Touches addr a.page_size a.freelist
    → (a' : PhysicalMemoryPageAllocator) × (free addr a ≡ some a') × Freed addr a a'
unfolding free Merged
free_lem addr a v z w taken room =
    let (p, b, s, whole) = skip_lem addr [] a.freelist tt v in
    let passed = (skip addr [] a.freelist).0 in
    let ns = (skip addr [] a.freelist).1 in
    let (ap1, ap2) =
      All-unskip (IsApart addr a.page_size) passed ns
        (subst (All (IsApart addr a.page_size)) (sym whole) taken) in
    let (order, exact) = merge_lem addr a.page_size passed ns z w p b s ap1 ap2 in
    (
      record a {
        freelist =
            merge (left_contiguous addr passed) (right_contiguous addr a.page_size ns) addr
              a.page_size passed ns;
      },
      rw (goes_on room) refl,
      record {
        order = order;
        same_page_size = refl;
        same_capacity = refl;
        exact = λ x.
            exact x
            ∙ ap (λ c. covers (record { addr = addr; size = a.page_size }) x || c)
                (sym (is_free-unskip passed ns x) ∙ ap (λ l. is_free l x) whole);
      },
    )
  where
    goes_on :
        (length a.freelist < a.capacity) ⊎ Touches addr a.page_size a.freelist
        → (not (
              left_contiguous addr (skip addr [] a.freelist).0
              || right_contiguous addr a.page_size (skip addr [] a.freelist).1)
            && is_full a)
          ≡ false
    goes_on (inl h) = rw (==_false (length a.freelist) a.capacity (omega arith)) (and_false _)
    goes_on (inr t) =
        rw
          (
            Touches-right addr a.page_size 0 [] a.freelist v z w taken t,
            or_comm (left_contiguous addr (skip addr [] a.freelist).0) true,
          )
          refl

-- The range is in memory, and the page touches neither of its ends.
abbrev pub IsFar : ℕ → ℕ → PhysicalPageNode → Type 0
IsFar addr page n = (n.addr + n.size < 2 ^ 64) × (n.addr + n.size ≢ addr) × (addr + page ≢ n.addr)

-- `free` of a page none of whose bytes is free, in memory and in a list in order whose array is not
-- full, does not stop the program. It makes the bytes of the page free and no others, and keeps the list
-- in order, with no two ranges touching.
pub free_refines :
    (addr : ℕ) (a : PhysicalMemoryPageAllocator)
    → IsAbove 0 a.freelist
    → 0 < a.page_size
    → addr + a.page_size < 2 ^ 64
    → All (IsApart addr a.page_size) a.freelist
    → length a.freelist < a.capacity
    → (a' : PhysicalMemoryPageAllocator) × (free addr a ≡ some a') × Freed addr a a'
free_refines addr a v z w taken room = free_lem addr a v z w taken (inl room)
