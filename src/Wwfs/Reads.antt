-- ===== src/Wwfs/Reads.antt =====
-- libwwos/wwfs.cc: the loop of `rw_inode_data_unaligned` that reads.
use native.Mathlib.Nat.{div-lt_iff_lt-mul}
use wwos.Prelude.{
  ℕ, zero, suc, ◌+◌, ◌-◌, ◌*◌, ◌/◌, ◌^◌, ◌≤◌, ◌<◌, ◌≡◌, inl, inr, refl, sym, ap, ◌∙◌, arith, List,
  some, ltb-true, ◌>>=◌, if◌then◌else◌, length, Bool, true, false, Bool-cases, ==_eq, ==_false,
  ◌==◌, ◌&&◌, min, max,
}
use wwos.Bytes.{Buffer, copy, in_range}
use wwos.Bytes.Copies.{
  in_range-true, in_range-lower, in_range-upper, in_range-outside, copy-inside, copy-outside,
}
use wwos.Disk.{FileSystem, Inode}
use wwos.Wwfs.{begin_addr, read_parts, read_inode_data, begin_block_index, end_block_index}
use wwos.Wwfs.Content.{IsFile, content, place_lem, ==-in_range, div_bounds, div_mono}
use wwos.Wwfs.Parts.{HasPart, start, amount, read_part_lem}

-- The bytes of a part, among those that are asked for.
pub in_part :
    (offset size bs index i : ℕ)
    → 0 < bs
    → HasPart offset size bs index
    → in_range (begin_addr offset bs index - offset) (amount offset size bs index) i
      ≡ (in_range 0 size i && ((offset + i) / bs == index))
in_part offset size bs index i z h =
    rw (==-in_range (offset + i) bs index z)
      (steps (index * bs) ((index + 1) * bs) (omega arith) h.0 h.1)
  where
    steps :
        (a b : ℕ)
        → b ≡ a + bs
        → a < offset + size
        → offset < a + bs
        → in_range (max offset a - offset) (min (offset + size) b - max offset a) i
          ≡ (in_range 0 size i && in_range a bs (offset + i))
    steps a b e p q = ground arith

pub in_parts :
    (a : Bool) (index count q x y : ℕ)
    → (if a && in_range (index + 1) count q then x else (if a && (q == index) then x else y))
      ≡ (if a && in_range index (suc count) q then x else y)
in_parts true index count q x y = ground arith
in_parts false index count q x y = refl

pub loop_end :
    (first count last bs upto : ℕ)
    → first + count ≡ last + 1
    → last * bs < upto
    → (first + count) * bs < upto + bs
loop_end first count last bs upto e h = omega (arith, ap (λ (t : ℕ). t * bs) e)

pub and_right : (a b : Bool) → (a && b) ≡ true → b ≡ true
and_right true b e = e
and_right false b e = cc

pub no_parts : (a : Bool) (index q x y : ℕ) → y ≡ (if a && in_range index 0 q then x else y)
no_parts true index q x y = ground arith
no_parts false index q x y = refl

copied :
    (fs : FileSystem) (n : Inode) (blocks : List ℕ) (offset size index i : ℕ) (buffer : Buffer)
    → IsFile fs n blocks
    → index < length blocks
    → HasPart offset size fs.meta.block_size index
    → copy fs.hw.memory
        (start fs blocks offset index)
        buffer
        (begin_addr offset fs.meta.block_size index - offset)
        (amount offset size fs.meta.block_size index)
        i
      ≡ (if in_range 0 size i && ((offset + i) / fs.meta.block_size == index)
          then content fs blocks (offset + i)
          else buffer i)
copied fs n blocks offset size index i buffer w l h =
    let bs = fs.meta.block_size in
    let part = in_part offset size bs index i w.some_size h in
    let from = begin_addr offset bs index - offset in
    let len = amount offset size bs index in
    elim (Bool-cases (in_range from len i)) [
      | inl e ↦
          let f = sym part ∙ e in
          let q =
            ==_eq ((offset + i) / bs) index
              (and_right (in_range 0 size i) ((offset + i) / bs == index) f) in
          let b = in_range-lower from len i e in
          rw (f, ltb-true ((offset + i) / bs) (length blocks) (omega (arith, q, l)))
            (copy-inside fs.hw.memory (start fs blocks offset index) buffer from len i b
                (in_range-upper from len i e)
              ∙ ap fs.hw.memory (omega (arith, b, h))
              ∙ ap fs.hw.memory (sym (place_lem fs blocks (offset + i) index q)))
      | inr e ↦ rw (sym part ∙ e) (
          copy-outside fs.hw.memory (start fs blocks offset index) buffer from len i
            (in_range-outside from len i e))
    ]

parts_lem :
    (count : ℕ) (fs : FileSystem) (n : Inode) (blocks : List ℕ) (offset size index : ℕ)
    (buffer : Buffer)
    → IsFile fs n blocks
    → index + count ≤ length blocks
    → (index + count) * fs.meta.block_size < offset + size + fs.meta.block_size
    → offset < index * fs.meta.block_size + fs.meta.block_size
    → offset + size < 2 ^ 64
    → 0 < size
    → (out : Buffer) × (read_parts count fs n offset size index buffer ≡ some out)
      × ((i : ℕ)
          → out i ≡ (
              if in_range 0 size i && in_range index count ((offset + i) / fs.meta.block_size)
              then content fs blocks (offset + i)
              else buffer i))
unfolding read_parts
parts_lem zero fs n blocks offset size index buffer w l u o e z = (
  buffer,
  refl,
  λ i.
      no_parts (in_range 0 size i) index ((offset + i) / fs.meta.block_size)
        (content fs blocks (offset + i)) (buffer i),
)
parts_lem (suc count) fs n blocks offset size index buffer w l u o e z =
    let bs = fs.meta.block_size in
    let h : HasPart offset size bs index = (omega (arith, u), o, e, z) in
    let next =
      copy fs.hw.memory (start fs blocks offset index) buffer (begin_addr offset bs index - offset)
        (amount offset size bs index) in
    let (out, f, g) =
      parts_lem count fs n blocks offset size (index + 1) next w (omega (arith, l))
        (omega (arith, u)) (omega (arith, o)) e z in
    (
      out,
      rw (read_part_lem fs n blocks offset size index buffer w (omega (arith, l)) h, ◌>>=◌) f,
      λ i.
          g i
          ∙ ap
              (λ y.
                if in_range 0 size i && in_range (index + 1) count ((offset + i) / bs)
                then content fs blocks (offset + i)
                else y)
              (copied fs n blocks offset size index i buffer w (omega (arith, l)) h)
          ∙ in_parts (in_range 0 size i) index count ((offset + i) / bs)
              (content fs blocks (offset + i)) (buffer i),
    )

-- The rounds of the loop cover the bytes that are asked for.
pub record IsCovered (offset size bs total : ℕ) : Type 0 where
  pub end_index : end_block_index offset size bs ≡ (offset + size - 1) / bs
  pub in_order : begin_block_index offset bs ≤ (offset + size - 1) / bs
  pub last : (offset + size - 1) / bs < total
  pub starts : offset / bs * bs ≤ offset
  pub first_part : offset < offset / bs * bs + bs
  pub last_part : (offset + size - 1) / bs * bs < offset + size

pub covered_lem :
    (offset size bs total : ℕ)
    → 0 < bs
    → 0 < size
    → offset + size ≤ total * bs
    → offset + size < 2 ^ 64
    → IsCovered offset size bs total
covered_lem offset size bs total z s l e =
    let b = div_bounds (offset + size - 1) bs z in
    let a = div_bounds offset bs z in
    record {
      end_index = ap (λ (x : ℕ). x / bs) (omega arith);
      in_order = div_mono offset (offset + size - 1) bs z (omega arith);
      last = (div-lt_iff_lt-mul z).1 (omega arith);
      starts = a.0;
      first_part = a.1;
      last_part = omega (arith, b.0);
    }

pub covers_all :
    (offset size bs i : ℕ)
    → 0 < bs
    → in_range 0 size i ≡ true
    → in_range (offset / bs) ((offset + size - 1) / bs + 1 - offset / bs) ((offset + i) / bs) ≡ true
covers_all offset size bs i z e =
    let p : i < size = omega (arith, in_range-upper 0 size i e) in
    let a = div_mono offset (offset + i) bs z (omega arith) in
    let b = div_mono (offset + i) (offset + size - 1) bs z (omega (arith, p)) in
    in_range-true (offset / bs) ((offset + size - 1) / bs + 1 - offset / bs) ((offset + i) / bs) a
      (omega (arith, a, b))

-- Reading `size` bytes from `offset` on, inside the blocks of a file, gives a buffer with these bytes
-- of the file at its start, and is else what it was.
pub read_inode_data_lem :
    (fs : FileSystem) (n : Inode) (blocks : List ℕ) (offset size : ℕ) (buffer : Buffer)
    → IsFile fs n blocks
    → offset + size ≤ length blocks * fs.meta.block_size
    → offset + size < 2 ^ 64
    → 0 < size
    → (out : Buffer) × (read_inode_data fs n offset size buffer ≡ some out)
      × ((i : ℕ) → out i ≡ (if in_range 0 size i then content fs blocks (offset + i) else buffer i))
unfolding read_inode_data
read_inode_data_lem fs n blocks offset size buffer w l e z =
    let bs = fs.meta.block_size in
    let c = covered_lem offset size bs (length blocks) w.some_size z l e in
    let first = offset / bs in
    let last = (offset + size - 1) / bs in
    let order : first ≤ last = c.in_order in
    let count = last + 1 - first in
    let (out, f, g) =
      parts_lem count fs n blocks offset size first buffer w (omega (arith, c.last, order))
        (loop_end first count last bs (offset + size) (omega (arith, order)) c.last_part)
        c.first_part e z in
    (
      out,
      rw (==_false size 0 (omega arith), c.end_index) f,
      λ i. g i ∙ all_of i (in_range 0 size i) refl,
    )
  where
    all_of :
        (i : ℕ) (b : Bool)
        → in_range 0 size i ≡ b
        → (if in_range 0 size i
              && in_range
                  (offset / fs.meta.block_size)
                  ((offset + size - 1) / fs.meta.block_size + 1 - offset / fs.meta.block_size)
                  ((offset + i) / fs.meta.block_size)
            then content fs blocks (offset + i)
            else buffer i)
          ≡ (if in_range 0 size i then content fs blocks (offset + i) else buffer i)
    all_of i true h = rw (h, covers_all offset size fs.meta.block_size i w.some_size h) refl
    all_of i false h = rw h refl
