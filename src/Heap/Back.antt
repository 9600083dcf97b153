-- ===== src/Heap/Back.antt =====
-- libwwos/alloc.cc: memory that is allocated from a chunk with room to spare, and given back at once.
use wwos.Prelude.{
  ℕ, ◌+◌, ◌^◌, ◌≤◌, ◌<◌, ◌≡◌, ◌≢◌, refl, ap₂, ◌∙◌, arith, List, ◌∷◌, ◌++◌, false, some, ==_false,
  leb, length, All,
}
use wwos.Heap.{
  Allocator, size_at, next_at, set_size, minus, align_up, aligned_start, taken, find_chunk,
  take_chunk, hand_out, allocate, link_from, deallocate,
}
use wwos.Heap.Chain.{Leads}
use wwos.Heap.Room.{
  HasRoom, numbers, cells, given, back, prev, find_chunk_lem, take_chunk_lem, link_from_lem,
  back-Leads,
}

found :
    (fuel size align prev c address : ℕ) (h h' : Allocator)
    → find_chunk fuel h (align_up size 8) (align_up align 8) ≡ some (prev, c)
    → c ≢ 0
    → hand_out c
        (align_up size 8)
        (align_up align 8)
        (take_chunk h prev c (align_up size 8) (align_up align 8))
      ≡ h'
    → aligned_start c (align_up align 8) ≡ address
    → allocate fuel h size align ≡ some (address, h')
unfolding allocate
found fuel size align prev c address h h' e z k a =
    rw e (rw (==_false c 0 z) (ap₂ (λ (x : ℕ) (y : Allocator). some (x, y)) a k))

handed_back :
    (fuel address size chunk : ℕ) (h : Allocator)
    → address ≢ 0
    → size_at h (minus address 16) ≡ size
    → next_at h (minus address 16) ≡ chunk
    → deallocate fuel h address
      ≡ link_from fuel (set_size chunk size h) h.head chunk (next_at (set_size chunk size h) h.head)
unfolding deallocate
handed_back fuel address size chunk h z e g = rw (==_false address 0 z) (
    ap₂ (λ (k l : ℕ). link_from fuel (set_size l k h) h.head l (next_at (set_size l k h) h.head)) e
      g)

-- Where `c` is the first free chunk in which the request fits, and it has room for a header and more
-- behind it, `allocate` gives memory inside of that chunk, and `deallocate` of that memory gives back
-- a heap with the same free chunks. The alignment is a power of two, no address is 2^63 or more, and
-- the fuel exceeds the number of chunks before `c`.
pub deallocate-allocate :
    (ps : List (ℕ × ℕ)) (c s : ℕ) (rest : List (ℕ × ℕ)) (fuel size j : ℕ) (h : Allocator)
    → HasRoom ps c s rest (align_up size 8) (align_up (2 ^ j) 8) h
    → All (λ x. leb (taken x.0 (align_up size 8) (align_up (2 ^ j) 8)) x.1 ≡ false) ps
    → length ps < fuel
    → (address : ℕ) × (h' : Allocator) × (h'' : Allocator) × (allocate fuel h size (2 ^ j)
        ≡ some (address, h'))
      × (c + 16 ≤ address)
      × (address + align_up size 8 < c + s)
      × (deallocate fuel h' address ≡ some h'')
      × Leads h'' (next_at h'' h.head) (ps ++ ((c, s) ∷ rest)) 0
      × (h''.head ≡ h.head)
deallocate-allocate ps c s rest fuel size j h f a l =
    let align = 2 ^ j in
    let sz = align_up size 8 in
    let al = align_up align 8 in
    let (n, e, t, r, d) = numbers ps c s rest sz al h f in
    let (u, v, w, y, z, q) = cells ps c s rest sz al h f in
    (
      aligned_start c al,
      given ps c s rest sz al h f,
      back ps c s rest sz al h f,
      found fuel size align (prev ps c s rest sz al h f) c (aligned_start c al) h
          (given ps c s rest sz al h f) (find_chunk_lem ps c s rest sz al h f fuel a l) f.there
          (take_chunk_lem ps c s rest sz al h f) refl,
      n,
      omega (arith, e, t, r),
      handed_back fuel (aligned_start c al) (taken c sz al) c (given ps c s rest sz al h f)
            (omega (arith, n)) z q
          ∙ link_from_lem ps c s rest sz al h f fuel l,
      back-Leads ps c s rest sz al h f,
      refl,
    )
