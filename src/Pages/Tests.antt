-- ===== src/Pages/Tests.antt =====
-- kernel/memory.cc: two free ranges with a page taken between them.
use wwos.Prelude.{ℕ, ◌+◌, ◌^◌, ◌<◌, ◌≡◌, List, [], ◌∷◌, ◌||◌, some, inl, inr, All, arith}
use wwos.Pages.{PhysicalPageNode, PhysicalMemoryPageAllocator, alloc, free}
use wwos.Pages.Ranges.{covers, is_free, IsAbove}
use wwos.Pages.Merge.{IsApart}
use wwos.Pages.Free.{Freed, free_refines}
use wwos.Pages.Alloc.{alloc_one_refines, free-alloc}

abbrev range : ℕ → ℕ → PhysicalPageNode
range addr size = record { addr = addr; size = size }

abbrev ranges : List PhysicalPageNode
ranges = range 4096 8192 ∷ range 16384 4096 ∷ []

abbrev pages : PhysicalMemoryPageAllocator
pages = record { freelist = ranges; capacity = 16; page_size = 4096 }

free_refines_example :
    (a : PhysicalMemoryPageAllocator) × (free 12288 pages ≡ some a) × Freed 12288 pages a
free_refines_example =
    free_refines 12288 pages (omega arith) (omega arith) (omega arith)
      (inl (omega arith), (inr (omega arith), tt)) (omega arith)

alloc_one_refines_example :
    (addr : ℕ) × (rest : List PhysicalPageNode) × (alloc 1 pages
      ≡ some (addr, record { freelist = rest; capacity = 16; page_size = 4096 }))
    × IsAbove 0 rest
    × (addr + 4096 < 2 ^ 64)
    × All (IsApart addr 4096) rest
    × ((x : ℕ) → is_free ranges x ≡ (covers (range addr 4096) x || is_free rest x))
alloc_one_refines_example =
    alloc_one_refines 4096 16 (range 4096 8192) (range 16384 4096 ∷ []) (omega arith) (omega arith)
      (omega arith)

free-alloc_example :
    (addr : ℕ) × (a a' : PhysicalMemoryPageAllocator) × (alloc 1 pages ≡ some (addr, a))
    × (free addr a ≡ some a')
    × IsAbove 0 a'.freelist
    × ((x : ℕ) → is_free a'.freelist x ≡ is_free ranges x)
free-alloc_example =
    free-alloc 4096 16 (range 4096 8192) (range 16384 4096 ∷ []) (omega arith) (omega arith)
      (omega arith) (omega arith)
