-- ===== src/Wwfs/Overwrite.antt =====
-- libwwos/wwfs.cc: `write_data` inside a file, and what `read_data` then gives.
use wwos.Prelude.{
  ℕ, zero, suc, ◌+◌, ◌-◌, ◌*◌, ◌/◌, ◌%◌, ◌^◌, ◌≤◌, ◌<◌, ◌≡◌, refl, sym, ap, ◌∙◌, arith, List, inl,
  none, some, ltb, ltb-false, leb-false, ◌>>=◌, if◌then◌else◌, length, Bool, true, false, ==_true,
  ==_false, min,
}
use wwos.Bytes.{Buffer, zeros, in_range}
use wwos.Bytes.Copies.{copy-congr, copy-outside, in_range-upper, in_range-true}
use wwos.Disk.{FileSystem, Inode, InodeType, code, get_inode, size_of, type_of, inode_bid}
use wwos.Disk.Blocks.{IsShaped, slot}
use wwos.Disk.Inodes.{get_inode_lem}
use wwos.Wwfs.{read_data, write_data, write_parts, write_inode_data, begin_addr}
use wwos.Wwfs.Content.{IsFile, content}
use wwos.Wwfs.Parts.{HasPart, start, amount, write_part_lem}
use wwos.Wwfs.Reads.{covered_lem, loop_end}
use wwos.Wwfs.Written.{after_part, after_part-IsFile}
use wwos.Wwfs.Writes.{write_inode_data_lem}
use wwos.Wwfs.Data.{read_data_lem}

-- The inode stands before the blocks of data.
abbrev pub IsBefore : FileSystem → ℕ → Type 0
IsBefore fs id = slot fs id + 128 ≤ fs.bid_data * fs.hw.block_size

part_keeps :
    (fs : FileSystem) (units id : ℕ) (blocks : List ℕ) (offset size index : ℕ) (buffer : Buffer)
    → IsShaped fs units
    → IsBefore fs id
    → get_inode (after_part fs blocks offset size index buffer) id ≡ get_inode fs id
part_keeps fs units id blocks offset size index buffer w h =
    let fs1 = after_part fs blocks offset size index buffer in
    get_inode_lem fs1 units id
      (record { some_units = w.some_units; meta_size = w.meta_size; hw_size = w.hw_size })
    ∙ ap (λ m. if ltb (inode_bid fs id) fs.hw.block_count then some m else none)
        (copy-congr fs1.hw.memory fs.hw.memory (slot fs id) (slot fs id) zeros 0 128 (λ i p.
          copy-outside buffer (begin_addr offset fs.meta.block_size index - offset) fs.hw.memory
            (start fs blocks offset index) (amount offset size fs.meta.block_size index)
            (slot fs id + i) (inl (omega (arith, h, p)))))
    ∙ sym (get_inode_lem fs units id w)

loop_keeps :
    (count : ℕ) (fs : FileSystem) (n : Inode) (blocks : List ℕ) (offset size index : ℕ)
    (buffer : Buffer) (units id : ℕ) (fs' : FileSystem)
    → IsShaped fs units
    → IsBefore fs id
    → IsFile fs n blocks
    → index + count ≤ length blocks
    → (index + count) * fs.meta.block_size < offset + size + fs.meta.block_size
    → offset < index * fs.meta.block_size + fs.meta.block_size
    → offset + size < 2 ^ 64
    → 0 < size
    → write_parts count fs n offset size index buffer ≡ some fs'
    → get_inode fs' id ≡ get_inode fs id
unfolding write_parts
loop_keeps zero fs n blocks offset size index buffer units id fs' s b w l u o e z f =
    let g : fs ≡ fs' = cc in ap (λ (d : FileSystem). get_inode d id) (sym g)
loop_keeps (suc count) fs n blocks offset size index buffer units id fs' s b w l u o e z f =
    let h : HasPart offset size fs.meta.block_size index = (omega (arith, u), o, e, z) in
    let fs1 = after_part fs blocks offset size index buffer in
    loop_keeps count fs1 n blocks offset size (index + 1) buffer units id fs'
      (record { some_units = s.some_units; meta_size = s.meta_size; hw_size = s.hw_size }) b
      (after_part-IsFile fs n blocks offset size index buffer w (omega (arith, l)) h)
      (omega (arith, l)) (omega (arith, u)) (omega (arith, o)) e z
      (rw
        (
          write_part_lem fs n blocks offset size index buffer w (omega (arith, l)) h,
          write_parts,
          ◌>>=◌,
        )
        at f)
    ∙ part_keeps fs units id blocks offset size index buffer s b

keeps_lem :
    (fs : FileSystem) (n : Inode) (blocks : List ℕ) (offset size : ℕ) (buffer : Buffer)
    (units id : ℕ) (fs' : FileSystem)
    → IsShaped fs units
    → IsBefore fs id
    → IsFile fs n blocks
    → offset + size ≤ length blocks * fs.meta.block_size
    → offset + size < 2 ^ 64
    → 0 < size
    → write_inode_data fs n offset size buffer ≡ some fs'
    → get_inode fs' id ≡ get_inode fs id
unfolding write_inode_data
keeps_lem fs n blocks offset size buffer units id fs' s b w l e z f =
    let bs = fs.meta.block_size in
    let c = covered_lem offset size bs (length blocks) w.some_size z l e in
    let first = offset / bs in
    let last = (offset + size - 1) / bs in
    let order : first ≤ last = c.in_order in
    let count = last + 1 - first in
    loop_keeps count fs n blocks offset size first buffer units id fs' s b w
      (omega (arith, c.last, order))
      (loop_end first count last bs (offset + size) (omega (arith, order)) c.last_part) c.first_part
      e z (rw (==_false size 0 (omega arith), c.end_index, write_inode_data) at f)

-- `write_data` inside a file takes all bytes, and `read_data` of the same range then returns as many and
-- gives these bytes; the rest of the reader's buffer is not touched. The range ends at the end of the
-- file or before it, and the inode stands before the blocks of data.
pub read_data-write_data :
    (fs : FileSystem) (id offset size : ℕ) (buffer room : Buffer) (n : Inode) (blocks : List ℕ)
    (units : ℕ)
    → IsShaped fs units
    → IsBefore fs id
    → id < 2 ^ 63
    → 0 < size
    → get_inode fs id ≡ some n
    → type_of n ≡ code InodeType.file
    → IsFile fs n blocks
    → size_of n ≤ length blocks * fs.meta.block_size
    → size_of n < 2 ^ 64
    → offset + size ≤ size_of n
    → (fs' : FileSystem) × (out : Buffer) × (write_data fs id offset size buffer ≡ some (size, fs'))
      × (read_data fs' id offset size room ≡ some (size, out))
      × ((i : ℕ) → out i ≡ (if in_range 0 size i then buffer i else room i))
unfolding write_data
read_data-write_data fs id offset size buffer room n blocks units s b g z e t w l m o =
    let (fs', f, w', bs, c) =
      write_inode_data_lem fs n blocks offset size buffer w (omega (arith, o, l))
        (omega (arith, o, m)) z in
    let k =
      keeps_lem fs n blocks offset size buffer units id fs' s b w (omega (arith, o, l))
        (omega (arith, o, m)) z f in
    let (out, h, v) =
      read_data_lem fs' id offset size room n blocks g z (k ∙ e) t w' (rw bs l) m
        (omega (arith, o, z)) (omega (arith, o, m)) in
    let count : min size (size_of n - offset) ≡ size = omega (arith, o) in
    let total : (offset + size) % 2 ^ 64 ≡ offset + size = omega (arith, o, m) in
    (
      fs',
      out,
      rw
          (
            ==_false size 0 (omega (arith, z)),
            leb-false (2 ^ 63) id g,
            e,
            ◌>>=◌,
            ==_true (type_of n) 1 t,
          )
          (rw (total, ltb-false (size_of n) (offset + size) o, f, ◌>>=◌) refl),
      h ∙ ap (λ a. some (a, out)) count,
      λ i.
          v i
          ∙ ap (λ a. if in_range 0 a i then content fs' blocks (offset + i) else room i) count
          ∙ back fs' c i (in_range 0 size i) refl,
    )
  where
    back :
        (fs' : FileSystem)
        → ((p : ℕ)
            → content fs' blocks p
              ≡ (if in_range offset size p then buffer (p - offset) else content fs blocks p))
        → (i : ℕ) (b : Bool) → in_range 0 size i ≡ b
        → (if in_range 0 size i then content fs' blocks (offset + i) else room i)
          ≡ (if in_range 0 size i then buffer i else room i)
    back fs' c i true h =
        let v = in_range-upper 0 size i h in
        rw h (
          c (offset + i)
          ∙ rw (in_range-true offset size (offset + i) (omega arith) (omega (arith, v)))
              (ap buffer (omega arith)))
    back fs' c i false h = rw h refl
