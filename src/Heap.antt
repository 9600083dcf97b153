-- ===== src/Heap.antt =====
-- libwwos/alloc.cc, include/wwos/alloc.h: the heap allocator, a list of free chunks in the memory that
-- it manages. Addresses are words; the memory gives the word at each address that is a multiple of 8.
-- A chunk's header is its size, and 8 bytes behind it the address of the next chunk, where 0 is the
-- null pointer. A result `none` is a failed `wwassert`. The prints of `logging` are left out.
pub mod Chain
pub mod Cut
pub mod Room
pub mod Back
mod Tests
use wwos.Prelude.{
  ℕ, zero, suc, ◌+◌, ◌-◌, ◌*◌, ◌/◌, ◌%◌, ◌^◌, Bool, true, false, not, ◌&&◌, ◌||◌, Option, none,
  some, ◌>>=◌, ◌==◌, ltb, leb, if◌then◌else◌,
}

pub record Allocator : Type 0 where
  pub words : ℕ → ℕ
  pub head : ℕ
  pub begin : ℕ
  pub size : ℕ

-- `chunk->size` and `chunk->next`, and writing them.
abbrev pub size_at : Allocator → ℕ → ℕ
size_at h c = h.words c

abbrev pub next_at : Allocator → ℕ → ℕ
next_at h c = h.words (c + 8)

abbrev pub put : ℕ → ℕ → Allocator → Allocator
put a v h = record h { words = λ b. if a == b then v else h.words b }

abbrev pub set_size : ℕ → ℕ → Allocator → Allocator
set_size c v h = put c v h

abbrev pub set_next : ℕ → ℕ → Allocator → Allocator
set_next c v h = put (c + 8) v h

-- a + b and a - b
abbrev pub plus : ℕ → ℕ → ℕ
plus a b = (a + b) % 2 ^ 64

abbrev pub minus : ℕ → ℕ → ℕ
minus a b = (a + 2 ^ 64 - b) % 2 ^ 64

-- `value & ~mask`, on words of `width` bits.
pub clear_bits : ℕ → ℕ → ℕ → ℕ
clear_bits zero value mask = 0
clear_bits (suc width) value mask =
    (if mask % 2 == 1 then 0 else value % 2) + 2 * clear_bits width (value / 2) (mask / 2)

pub align_up : ℕ → ℕ → ℕ
align_up value align =
    clear_bits 64 ((value + align + (2 ^ 64 - 1)) % 2 ^ 64) ((align + (2 ^ 64 - 1)) % 2 ^ 64)

-- The constructor, on the words that it finds.
pub new : (ℕ → ℕ) → ℕ → ℕ → Option Allocator
new words address size =
    if ltb size 16
    then none
    else let next = plus address 16 in
      let h : Allocator = record { words = words; head = address; begin = address; size = size } in
      some (
        set_next next 0
          (set_size next (minus size 32) (set_next address next (set_size address 0 h))))

-- Where the memory begins that a chunk would give, and how much of the chunk it takes.
abbrev pub aligned_start : ℕ → ℕ → ℕ
aligned_start chunk align = align_up (plus chunk 16) align

abbrev pub end_of : ℕ → ℕ → ℕ → ℕ
end_of chunk size align = plus (aligned_start chunk align) size

abbrev pub taken : ℕ → ℕ → ℕ → ℕ
taken chunk size align = minus (end_of chunk size align) (plus chunk 16)

-- The loop of `find_chunk`, with `fuel` rounds at most; a pair of null pointers where no chunk fits.
pub find_from : ℕ → Allocator → ℕ → ℕ → ℕ → ℕ → Option (ℕ × ℕ)
find_from zero h size align prev current = if current == 0 then some (0, 0) else none
find_from (suc fuel) h size align prev current =
    let rest = find_from fuel h size align current (next_at h current) in
    if current == 0
    then some (0, 0)
    else if leb (taken current size align) (size_at h current)
    then some (prev, current)
    else rest

pub find_chunk : ℕ → Allocator → ℕ → ℕ → Option (ℕ × ℕ)
find_chunk fuel h size align = find_from fuel h size align h.head (next_at h h.head)

-- The chunk is taken out of the list, or what is left of it takes its place.
pub take_chunk : Allocator → ℕ → ℕ → ℕ → ℕ → Allocator
take_chunk h prev chunk size align =
    let end = end_of chunk size align in
    let used = taken chunk size align in
    if ltb (plus used 16) (size_at h chunk)
    then set_next prev end
        (set_next end (next_at h chunk) (set_size end (minus (minus (size_at h chunk) used) 16) h))
    else set_next prev (next_at h chunk) h

-- The header of the chunk that is handed out: its `next` is the chunk that it was cut from.
abbrev pub hand_out : ℕ → ℕ → ℕ → Allocator → Allocator
hand_out chunk size align h =
    let header = minus (aligned_start chunk align) 16 in
    set_next header chunk (set_size header (taken chunk size align) h)

-- The address of the memory, 0 for a null pointer.
pub allocate : ℕ → Allocator → ℕ → ℕ → Option (ℕ × Allocator)
allocate fuel h size align =
    let a = align_up align 8 in
    let s = align_up size 8 in
    find_chunk fuel h s a >>= (λ f.
      if f.1 == 0
      then some (0, h)
      else some (aligned_start f.1 a, hand_out f.1 s a (take_chunk h f.0 f.1 s a)))

-- `new_p_chunk` between `prev` and `current`, one with its neighbours where it touches them.
pub link : Allocator → ℕ → ℕ → ℕ → Option Allocator
link h prev chunk current =
    let size = size_at h chunk in
    let end_of_prev = plus (plus prev 16) (size_at h prev) in
    let end_of_chunk = plus (plus chunk 16) size in
    let touches_prev = (end_of_prev == chunk) && not (prev == h.head) in
    let touches_current = (end_of_chunk == current) && not (current == 0) in
    if ltb chunk end_of_prev || (not (current == 0) && ltb current end_of_chunk)
    then none
    else if touches_prev && touches_current
    then some (
        set_next prev (next_at h current)
          (set_size prev (plus (size_at h prev) (plus (plus 32 size) (size_at h current))) h))
    else if touches_prev
    then some (set_next prev current (set_size prev (plus (size_at h prev) (plus 16 size)) h))
    else if touches_current
    then some (
        set_next prev chunk (
          set_next chunk (next_at h current)
            (set_size chunk (plus size (plus 16 (size_at h current))) h)))
    else some (set_next prev chunk (set_size chunk size (set_next chunk current h)))

-- The loop of `deallocate`, with `fuel` rounds at most; `none` also behind the end of the list.
pub link_from : ℕ → Allocator → ℕ → ℕ → ℕ → Option Allocator
link_from zero h prev chunk current = none
link_from (suc fuel) h prev chunk current =
    let rest = link_from fuel h current chunk (next_at h current) in
    if prev == 0
    then none
    else if ltb prev chunk && (ltb chunk current || (current == 0))
    then link h prev chunk current
    else if current == 0
    then none
    else rest

pub deallocate : ℕ → Allocator → ℕ → Option Allocator
deallocate fuel h address =
    if address == 0
    then some h
    else let header = minus address 16 in
      let size = size_at h header in
      let chunk = next_at h header in
      link_from fuel (set_size chunk size h) h.head chunk (next_at (set_size chunk size h) h.head)

-- The loop of `get_tail`, with `fuel` rounds at most.
pub tail_from : ℕ → Allocator → ℕ → ℕ → Option ℕ
tail_from zero h prev current = if current == 0 then some prev else none
tail_from (suc fuel) h prev current =
    let rest = tail_from fuel h current (next_at h current) in
    if current == 0 then some prev else rest

pub get_tail : ℕ → Allocator → Option ℕ
get_tail fuel h = tail_from fuel h h.head (next_at h h.head)

pub extend : ℕ → Allocator → ℕ → Option Allocator
extend fuel h new_end =
    let end = plus h.begin h.size in
    get_tail fuel h >>= (λ tail.
      let h' =
        if plus (plus tail (size_at h tail)) 16 == end
        then set_size tail (plus (size_at h tail) (minus new_end end)) h
        else set_next tail end (set_next end 0 (set_size end (minus (minus new_end end) 16) h)) in
      some (record h' { size = minus new_end h.begin }))

pub get_used_address_upperbound : ℕ → Allocator → Option ℕ
get_used_address_upperbound fuel h = get_tail fuel h >>= (λ tail. some (
    if plus (plus tail (size_at h tail)) 16 == plus h.begin h.size
    then plus tail 16
    else plus h.begin h.size))
