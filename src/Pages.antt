-- ===== src/Pages.antt =====
-- kernel/memory.cc, kernel/memory.h: the allocator of physical pages over a sorted list of free
-- ranges.
pub mod Ranges
mod Place
pub mod Merge
pub mod Free
pub mod Alloc
mod Tests
use wwos.Prelude.{
  ℕ, ◌+◌, ◌-◌, ◌*◌, ◌^◌, ◌%◌, List, [], ◌∷◌, Bool, true, false, not, ◌&&◌, ◌||◌, Option, none, some,
  ◌==◌, leb, if◌then◌else◌, length,
}

pub record PhysicalPageNode : Type 0 where
  pub addr : ℕ
  pub size : ℕ

-- `capacity` is that of the vector `freelist`.
pub record PhysicalMemoryPageAllocator : Type 0 where
  pub freelist : List PhysicalPageNode
  pub capacity : ℕ
  pub page_size : ℕ

-- `size_t` wraps around at 2^64.
pub add_64 : ℕ → ℕ → ℕ
add_64 a b = (a + b) % 2 ^ 64

pub sub_64 : ℕ → ℕ → ℕ
sub_64 a b = (a + (2 ^ 64 - b)) % 2 ^ 64

abbrev pub mul_64 : ℕ → ℕ → ℕ
mul_64 a b = a * b % 2 ^ 64

-- `wwassert` stops the program at a range that is not made of whole pages.
pub new : ℕ → ℕ → ℕ → Option PhysicalMemoryPageAllocator
new begin size page_size =
    if (begin % page_size == 0) && (size % page_size == 0)
    then some (record {
      freelist = record { addr = begin; size = size } ∷ [];
      capacity = 16;
      page_size = page_size;
    })
    else none

-- Where `freelist.insert` stops the program: it moves the full array before it looks at the position,
-- which leads into the old one.
abbrev pub is_full : PhysicalMemoryPageAllocator → Bool
is_full a = length a.freelist == a.capacity

-- The node with a page less at its front; no node at all when nothing is left.
abbrev pub take_page : ℕ → PhysicalPageNode → List PhysicalPageNode
take_page page n =
    if sub_64 n.size page == 0
    then []
    else record { addr = add_64 n.addr page; size = sub_64 n.size page } ∷ []

-- `alloc(1)` on the list of this node and the next ones: the page comes from the last node.
pub alloc_back : ℕ → PhysicalPageNode → List PhysicalPageNode → ℕ × List PhysicalPageNode
alloc_back page n [] = (n.addr, take_page page n)
alloc_back page n (m ∷ ns) = let (a, rest) = alloc_back page m ns in (a, n ∷ rest)

-- The loop that finds the first node at or above `addr`: the nodes passed, the last one first, are
-- those below the index `i`, and the others those from `i` on.
pub skip :
    ℕ
    → List PhysicalPageNode
    → List PhysicalPageNode
    → List PhysicalPageNode × List PhysicalPageNode
skip addr passed [] = (passed, [])
skip addr passed (n ∷ ns) = elim (leb addr n.addr) [
  | true ↦ (passed, n ∷ ns)
  | false ↦ skip addr (n ∷ passed) ns
]

-- The whole list, from the nodes passed and the others.
abbrev pub unskip : List PhysicalPageNode → List PhysicalPageNode → List PhysicalPageNode
unskip [] ns = ns
unskip (n ∷ passed) ns = unskip passed (n ∷ ns)

abbrev pub end_of : PhysicalPageNode → ℕ
end_of n = add_64 n.addr n.size

-- What becomes of the node at the index: its pages from `addr` on are taken.
pub reserve : ℕ → ℕ → PhysicalPageNode → List PhysicalPageNode
reserve addr bytes n =
    if n.size == bytes
    then []
    else if n.addr == addr
    then record { addr = add_64 n.addr bytes; size = sub_64 n.size bytes } ∷ []
    else if end_of n == add_64 addr bytes
    then record { addr = n.addr; size = sub_64 n.size bytes } ∷ []
    else record { addr = n.addr; size = sub_64 addr n.addr }
      ∷ record {
        addr = add_64 addr bytes;
        size = sub_64 (sub_64 n.size (sub_64 addr n.addr)) bytes;
      }
      ∷ []

-- Whether `reserve` inserts a node.
abbrev pub splits : ℕ → ℕ → PhysicalPageNode → Bool
splits addr bytes n =
    not ((n.size == bytes) || ((n.addr == addr) || (end_of n == add_64 addr bytes)))

abbrev pub append_nodes : List PhysicalPageNode → List PhysicalPageNode → List PhysicalPageNode
append_nodes [] ns = ns
append_nodes (n ∷ ms) ns = n ∷ append_nodes ms ns

abbrev pub reserve_in :
    ℕ
    → ℕ
    → List PhysicalPageNode
    → List PhysicalPageNode
    → PhysicalMemoryPageAllocator
    → Option (Bool × PhysicalMemoryPageAllocator)
reserve_in addr bytes passed [] a = some (false, a)
reserve_in addr bytes passed (n ∷ ns) a =
    if leb (add_64 addr bytes) (end_of n)
    then (if splits addr bytes n && is_full a
        then none
        else some
            (true, record a { freelist = unskip passed (append_nodes (reserve addr bytes n) ns) }))
    else some (false, a)

-- `none`: the insertion stops the program.
pub alloc_specific_page :
    ℕ → ℕ → PhysicalMemoryPageAllocator → Option (Bool × PhysicalMemoryPageAllocator)
unfolding skip reserve
alloc_specific_page addr n a =
    let (passed, ns) = skip addr [] a.freelist in reserve_in addr (mul_64 n a.page_size) passed ns a

-- The loop of `alloc`: the first node with enough bytes.
pub first_fit : ℕ → List PhysicalPageNode → Option ℕ
first_fit bytes [] = none
first_fit bytes (n ∷ ns) = elim (leb bytes n.size) [
  | true ↦ some n.addr
  | false ↦ first_fit bytes ns
]

abbrev pub alloc_one : PhysicalMemoryPageAllocator → ℕ × PhysicalMemoryPageAllocator
alloc_one a = elim a.freelist [
  | [] ↦ (0, a)
  | n ∷ ns ↦
      let (addr, freelist) = alloc_back a.page_size n ns in (addr, record a { freelist = freelist })
]

-- `none`: `wwassert` fails.
pub alloc : ℕ → PhysicalMemoryPageAllocator → Option (ℕ × PhysicalMemoryPageAllocator)
unfolding alloc_back first_fit alloc_specific_page
alloc n a =
    if n == 1 then some (alloc_one a) else elim (first_fit (mul_64 n a.page_size) a.freelist) [
      | none ↦ some (0, a)
      | some addr ↦ elim (alloc_specific_page addr 1 a) [
        | none ↦ none
        | some (found, a') ↦ if found then some (addr, a') else none
      ]
    ]

abbrev pub left_contiguous : ℕ → List PhysicalPageNode → Bool
left_contiguous addr [] = false
left_contiguous addr (n ∷ passed) = end_of n == addr

abbrev pub right_contiguous : ℕ → ℕ → List PhysicalPageNode → Bool
right_contiguous addr page [] = false
right_contiguous addr page (n ∷ ns) = add_64 addr page == n.addr

-- The new list, from the two tests and the nodes on both sides.
abbrev pub merge :
    Bool → Bool → ℕ → ℕ → List PhysicalPageNode → List PhysicalPageNode → List PhysicalPageNode
merge true true addr page (n ∷ passed) (m ∷ ns) =
    unskip passed (record { addr = n.addr; size = add_64 n.size (add_64 m.size page) } ∷ ns)
merge true _ addr page (n ∷ passed) ns =
    unskip passed (record { addr = n.addr; size = add_64 n.size page } ∷ ns)
merge _ true addr page passed (m ∷ ns) =
    unskip passed (record { addr = sub_64 m.addr page; size = add_64 m.size page } ∷ ns)
merge _ _ addr page passed ns = unskip passed (record { addr = addr; size = page } ∷ ns)

-- `none`: the insertion of a new node stops the program.
pub free : ℕ → PhysicalMemoryPageAllocator → Option PhysicalMemoryPageAllocator
unfolding skip
free addr a =
    let (passed, ns) = skip addr [] a.freelist in
    let on_left = left_contiguous addr passed in
    let on_right = right_contiguous addr a.page_size ns in
    if not (on_left || on_right) && is_full a
    then none
    else some (record a { freelist = merge on_left on_right addr a.page_size passed ns })
