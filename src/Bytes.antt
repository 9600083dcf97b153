-- ===== src/Bytes.antt =====
-- libwwos/alloc.cc, libwwos/wwfs.cc: buffers of bytes, and the words that the code reads and writes
-- in them through pointer casts. A buffer gives the byte at each offset.
pub mod Words
pub mod Copies
use wwos.Prelude.{
  ℕ, zero, suc, ◌+◌, ◌-◌, ◌*◌, ◌/◌, ◌%◌, Bool, true, false, ◌&&◌, ◌==◌, ltb, leb, if◌then◌else◌,
}

abbrev pub Buffer : Type 0
Buffer = ℕ → ℕ

-- `memset(buffer, 0, n)` on a buffer that is new.
abbrev pub zeros : Buffer
zeros i = 0

-- `buffer[o] = v`
abbrev pub put : Buffer → ℕ → ℕ → Buffer
put b o v i = if o == i then v else b i

abbrev pub in_range : ℕ → ℕ → ℕ → Bool
in_range o n i = leb o i && ltb i (o + n)

-- `memcpy(dst + to, src + from, n)`
unfoldable pub copy : Buffer → ℕ → Buffer → ℕ → ℕ → Buffer
copy src from dst to n i = if in_range to n i then src (from + (i - to)) else dst i

-- The little-endian number of `n` bytes at an offset.
unfoldable pub load : ℕ → Buffer → ℕ → ℕ
load zero b o = 0
load (suc n) b o = b o + 256 * load n b (o + 1)

unfoldable pub store : ℕ → Buffer → ℕ → ℕ → Buffer
store zero b o v = b
store (suc n) b o v = store n (put b o (v % 256)) (o + 1) (v / 256)
