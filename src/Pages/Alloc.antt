-- ===== src/Pages/Alloc.antt =====
-- kernel/memory.cc: `alloc` and `alloc_specific_page`.
use wwos.Prelude.{
  ℕ, ◌+◌, ◌-◌, ◌*◌, ◌^◌, ◌≤◌, ◌<◌, ◌≡◌, refl, sym, ap, ◌∙◌, List, [], ◌∷◌, Bool, true, false, ◌||◌,
  leb, ◌==◌, ==_ne, ==_false, ==_true, ltb-true, inl, inr, Bool-cases, some, arith, All, length,
  ◌⊎◌,
}
use wwos.Pages.{
  PhysicalPageNode, PhysicalMemoryPageAllocator, add_64, sub_64, take_page, mul_64, end_of,
  alloc_back, alloc, first_fit, alloc_specific_page, free, skip, reserve, reserve_in,
}
use wwos.Pages.Ranges.{covers, is_free, IsAbove, add_64_lem, sub_64_lem, or_comm}
use wwos.Pages.Merge.{IsApart}
use wwos.Pages.Free.{Touches, free_lem}

-- The range is of one page or more.
abbrev pub HasPage : ℕ → PhysicalPageNode → Type 0
HasPage page n = page ≤ n.size

covers_split :
    (n : PhysicalPageNode) (page x : ℕ)
    → page ≤ n.size
    → covers n x ≡ (
        covers (record { addr = n.addr; size = page }) x
        || covers (record { addr = n.addr + page; size = n.size - page }) x)
covers_split n page x h = ground arith

take_page_lem :
    (page low : ℕ) (n : PhysicalPageNode)
    → IsAbove low (n ∷ [])
    → 0 < page
    → page ≤ n.size
    → IsAbove low (take_page page n)
      × All (IsApart n.addr page) (take_page page n)
      × ((x : ℕ)
          → is_free (n ∷ []) x
            ≡ (covers (record { addr = n.addr; size = page }) x || is_free (take_page page n) x))
take_page_lem page low n v z h = elim (Bool-cases (sub_64 n.size page == 0)) [
  | inl e ↦
      let same : n.size ≡ page =
        all_taken (rw (sym (sub_64_lem n.size page h (omega (arith, v.2)))) e) in
      rw e (tt, tt, λ x. ap (λ s. covers (record { addr = n.addr; size = s }) x || false) same)
  | inr e ↦
      let d = sub_64_lem n.size page h (omega (arith, v.2)) in
      let left = ==_ne (n.size - page) 0 (rw (sym d) e) in
      rw (e, d, add_64_lem n.addr page (omega (arith, v.2)))
        (
          (omega (arith, v.0), omega arith, omega (arith, v.2), tt),
          (inr (omega arith), tt),
          λ x.
              rw
                (
                  or_false (covers n x),
                  or_false (covers (record { addr = n.addr + page; size = n.size - page }) x),
                )
                (covers_split n page x h),
        )
]
  where
    all_taken : (n.size - page == 0) ≡ true → n.size ≡ page
    all_taken e = ground arith

    or_false : (b : Bool) → (b || false) ≡ b
    or_false b = or_comm b false

or_swap : (a b c : Bool) → (a || (b || c)) ≡ (b || (a || c))
or_swap true true c = refl
or_swap true false c = refl
or_swap false b c = refl

-- What `alloc_back` leaves: the page of `addr` is taken from the free bytes.
record Taken (page low addr : ℕ) (ns rest : List PhysicalPageNode) : Type 0 where
  order : IsAbove low rest
  apart : All (IsApart addr page) rest
  low_le : low ≤ addr
  in_memory : addr + page < 2 ^ 64
  exact :
      (x : ℕ) → is_free ns x ≡ (covers (record { addr = addr; size = page }) x || is_free rest x)
  joins : (length rest < length ns) ⊎ Touches addr page rest

take_page-Touches :
    (page : ℕ) (n : PhysicalPageNode)
    → n.addr + n.size < 2 ^ 64
    → page ≤ n.size
    → (length (take_page page n) < 1) ⊎ Touches n.addr page (take_page page n)
take_page-Touches page n w h = elim (Bool-cases (sub_64 n.size page == 0)) [
  | inl e ↦ rw e (inl (omega arith))
  | inr e ↦ rw e (inr (inl (sym (add_64_lem n.addr page (omega arith)))))
]

alloc_back_lem :
    (page low : ℕ) (n : PhysicalPageNode) (ns : List PhysicalPageNode)
    → IsAbove low (n ∷ ns)
    → 0 < page
    → All (HasPage page) (n ∷ ns)
    → Taken page low (alloc_back page n ns).0 (n ∷ ns) (alloc_back page n ns).1
unfolding alloc_back
alloc_back_lem page low n [] v z h =
    let (o, ap1, ex) = take_page_lem page low n v z h.0 in
    record {
      order = o;
      apart = ap1;
      low_le = v.0;
      in_memory = omega (arith, v.2, h.0);
      exact = ex;
      joins = take_page-Touches page n v.2 h.0;
    }
alloc_back_lem page low n (m ∷ ns) v z h =
    let t = alloc_back_lem page (n.addr + n.size + 1) m ns v.3 z h.1 in
    record {
      order = (v.0, v.1, v.2, t.order);
      apart = (inl (omega (arith, t.low_le)), t.apart);
      low_le = omega (arith, t.low_le, v.0);
      in_memory = t.in_memory;
      exact = λ x.
          ap (λ c. covers n x || c) (t.exact x)
          ∙ or_swap (covers n x)
              (covers (record { addr = (alloc_back page m ns).0; size = page }) x)
              (is_free (alloc_back page m ns).1 x);
      joins = elim t.joins [ inl l ↦ inl (omega (arith, l)) | inr u ↦ inr (inr u) ];
    }

-- From a list in order, not empty, whose ranges have a page each, `alloc` of one page takes a page
-- that was free out of the free bytes and changes no other. The list stays in order, and the page
-- meets what `free` asks for.
pub alloc_one_refines :
    (page capacity : ℕ) (n : PhysicalPageNode) (ns : List PhysicalPageNode)
    → IsAbove 0 (n ∷ ns)
    → 0 < page
    → All (HasPage page) (n ∷ ns)
    → (addr : ℕ) × (rest : List PhysicalPageNode) × (alloc 1
          (record { freelist = n ∷ ns; capacity = capacity; page_size = page })
        ≡ some (addr, record { freelist = rest; capacity = capacity; page_size = page }))
      × IsAbove 0 rest
      × (addr + page < 2 ^ 64)
      × All (IsApart addr page) rest
      × ((x : ℕ)
          → is_free (n ∷ ns) x ≡ (covers (record { addr = addr; size = page }) x || is_free rest x))
unfolding alloc
alloc_one_refines page capacity n ns v z h =
    let t = alloc_back_lem page 0 n ns v z h in
    (
      (alloc_back page n ns).0,
      (alloc_back page n ns).1,
      refl,
      t.order,
      t.in_memory,
      t.apart,
      t.exact,
    )

-- A page that `alloc` took and `free` gave back is free as before, with every other byte, and the
-- list is in order again. Neither stops the program, even where the array of the list is full.
pub free-alloc :
    (page capacity : ℕ) (n : PhysicalPageNode) (ns : List PhysicalPageNode)
    → IsAbove 0 (n ∷ ns)
    → 0 < page
    → All (HasPage page) (n ∷ ns)
    → length (n ∷ ns) ≤ capacity
    → (addr : ℕ) × (a a' : PhysicalMemoryPageAllocator) × (alloc 1
          (record { freelist = n ∷ ns; capacity = capacity; page_size = page })
        ≡ some (addr, a))
      × (free addr a ≡ some a')
      × IsAbove 0 a'.freelist
      × ((x : ℕ) → is_free a'.freelist x ≡ is_free (n ∷ ns) x)
unfolding alloc
free-alloc page capacity n ns v z h l =
    let t = alloc_back_lem page 0 n ns v z h in
    let addr = (alloc_back page n ns).0 in
    let a : PhysicalMemoryPageAllocator = record {
      freelist = (alloc_back page n ns).1;
      capacity = capacity;
      page_size = page;
    } in
    let (a', e, f) =
      free_lem addr a t.order z t.in_memory t.apart
        (elim t.joins [ inl u ↦ inl (omega (arith, u, l)) | inr u ↦ inr u ]) in
    (addr, a, a', refl, e, f.order, λ x. f.exact x ∙ sym (t.exact x))

leb-true : (i k : ℕ) → i ≤ k → leb i k ≡ true
leb-true i k h = ground arith

skip_first :
    (n : PhysicalPageNode) (ns : List PhysicalPageNode) → skip n.addr [] (n ∷ ns) ≡ ([], n ∷ ns)
unfolding skip
skip_first n ns = rw (leb-true n.addr n.addr (omega arith), skip)

reserve_front :
    (page : ℕ) (n : PhysicalPageNode)
    → n.addr + n.size < 2 ^ 64
    → page < n.size
    → reserve n.addr page n ≡ record { addr = n.addr + page; size = n.size - page } ∷ []
unfolding reserve
reserve_front page n w h =
    rw (==_false n.size page (omega arith), reserve)
      (rw (==_true n.addr n.addr refl, reserve)
        (rw (
          add_64_lem n.addr page (omega arith),
          sub_64_lem n.size page (omega arith) (omega arith),
        )))

-- One page at the front of the first range.
reserve_first :
    (page capacity : ℕ) (n : PhysicalPageNode) (ns : List PhysicalPageNode)
    → n.addr + n.size < 2 ^ 64
    → page < n.size
    → alloc_specific_page n.addr 1
        (record { freelist = n ∷ ns; capacity = capacity; page_size = page })
      ≡ some (
        true,
        record {
          freelist = record { addr = n.addr + page; size = n.size - page } ∷ ns;
          capacity = capacity;
          page_size = page;
        },
      )
unfolding alloc_specific_page
reserve_first page capacity n ns w h =
    let one : mul_64 1 page ≡ page = omega arith in
    let fits : leb (add_64 n.addr page) (end_of n) ≡ true =
      rw (add_64_lem n.addr page (omega arith), add_64_lem n.addr n.size w)
        (leb-true _ _ (omega arith)) in
    rw (skip_first n ns, alloc_specific_page)
      (rw one (
        rw (fits, reserve_in)
          (rw
            (
              reserve_front page n w h,
              ==_false n.size page (omega arith),
              ==_true n.addr n.addr refl,
            )
            refl)))

-- `alloc` of two pages or more takes only the first of them: the range that it chose is at the
-- front of the list, in memory, and not smaller than the pages asked for, and the second page is still
-- free afterwards.
alloc_takes_one :
    (j page capacity : ℕ) (n : PhysicalPageNode) (ns : List PhysicalPageNode)
    → 0 < page
    → n.addr + n.size < 2 ^ 64
    → (2 + j) * page ≤ n.size
    → (a : PhysicalMemoryPageAllocator) × (alloc
          (2 + j)
          (record { freelist = n ∷ ns; capacity = capacity; page_size = page })
        ≡ some (n.addr, a))
      × (is_free a.freelist (n.addr + page) ≡ true)
unfolding alloc first_fit
alloc_takes_one j page capacity n ns z w h =
    let less : page < n.size = omega arith in
    let no_wrap : mul_64 (2 + j) page ≡ (2 + j) * page = omega arith in
    (
      record {
        freelist = record { addr = n.addr + page; size = n.size - page } ∷ ns;
        capacity = capacity;
        page_size = page;
      },
      rw (==_false (2 + j) 1 (omega arith)) (
          rw (no_wrap, first_fit)
            (rw (leb-true _ _ h, first_fit) (rw (reserve_first page capacity n ns w less)))),
      rw (
        leb-true (n.addr + page) (n.addr + page) (omega arith),
        ltb-true (n.addr + page) (n.addr + page + (n.size - page)) (omega arith),
      ),
    )
