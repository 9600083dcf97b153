-- ===== src/Heap/Tests.antt =====
-- libwwos/alloc.cc: a heap with a small chunk and a large one.
use wwos.Prelude.{
  leb, ℕ, ◌+◌, ◌≤◌, ◌<◌, ◌≡◌, refl, arith, [], ◌∷◌, some, if◌then◌else◌, ◌==◌, false,
}
use wwos.Heap.{Allocator, next_at, clear_bits, align_up, taken, allocate, deallocate}
use wwos.Heap.Chain.{Leads}
use wwos.Heap.Back.{deallocate-allocate}
use wwos.Heap.Room.{HasRoom}

-- 24 bytes are free at 4128, and 8000 at 8192.
abbrev words : ℕ → ℕ
words x =
    if x == 4104
    then 4128
    else if x == 4128
    then 24
    else if x == 4136
    then 8192
    else if x == 8192
    then 8000
    else 0

abbrev heap : Allocator
heap = record { words = words; head = 4096; begin = 4096; size = 65536 }

heap-HasRoom : HasRoom ((4128, 24) ∷ []) 8192 8000 [] (align_up 100 8) (align_up 64 8) heap
unfolding align_up clear_bits
heap-HasRoom = record {
  top = 65536;
  some_head = omega arith;
  head_size = refl;
  before = (refl, omega arith, refl, refl);
  there = omega arith;
  chunk_size = refl;
  after = refl;
  apart = (omega arith, omega arith);
  apart_after = omega arith;
  power = 6;
  align_is = refl;
  power_bound = omega arith;
  bound = omega arith;
  size_bound = omega arith;
  room = refl;
}

too_small : leb (taken 4128 (align_up 100 8) (align_up 64 8)) 24 ≡ false
unfolding align_up clear_bits
too_small = refl

deallocate-allocate_example :
    (address : ℕ) × (h' : Allocator) × (h'' : Allocator) × (allocate 2 heap 100 64
      ≡ some (address, h'))
    × (8208 ≤ address)
    × (address + align_up 100 8 < 16192)
    × (deallocate 2 h' address ≡ some h'')
    × Leads h'' (next_at h'' 4096) ((4128, 24) ∷ ((8192, 8000) ∷ [])) 0
    × (h''.head ≡ 4096)
deallocate-allocate_example =
    deallocate-allocate ((4128, 24) ∷ []) 8192 8000 [] 2 100 6 heap heap-HasRoom (too_small, tt)
      (omega arith)
