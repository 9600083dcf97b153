-- ===== src/Wwfs/Writes.antt =====
-- libwwos/wwfs.cc: the loop of `rw_inode_data_unaligned` that writes.
use wwos.Prelude.{
  ℕ, zero, suc, ◌+◌, ◌-◌, ◌*◌, ◌/◌, ◌^◌, ◌≤◌, ◌<◌, ◌≡◌, refl, ap, ◌∙◌, arith, List, some, ◌>>=◌,
  if◌then◌else◌, length, Bool, true, false, ==_false, ◌&&◌, subst,
}
use wwos.Bytes.{Buffer, in_range}
use wwos.Bytes.Copies.{in_range-true, in_range-lower, in_range-upper}
use wwos.Disk.{FileSystem, Inode}
use wwos.Wwfs.{write_parts, write_inode_data}
use wwos.Wwfs.Content.{IsFile, content}
use wwos.Wwfs.Parts.{HasPart, write_part_lem}
use wwos.Wwfs.Written.{after_part, after_part-IsFile, written}
use wwos.Wwfs.Reads.{in_parts, no_parts, covered_lem, covers_all, loop_end}

loop_lem :
    (count : ℕ) (fs : FileSystem) (n : Inode) (blocks : List ℕ) (offset size index : ℕ)
    (buffer : Buffer)
    → IsFile fs n blocks
    → index + count ≤ length blocks
    → (index + count) * fs.meta.block_size < offset + size + fs.meta.block_size
    → offset < index * fs.meta.block_size + fs.meta.block_size
    → offset + size < 2 ^ 64
    → 0 < size
    → (fs' : FileSystem) × (write_parts count fs n offset size index buffer ≡ some fs')
      × IsFile fs' n blocks
      × (fs'.meta.block_size ≡ fs.meta.block_size)
      × ((p : ℕ)
          → content fs' blocks p ≡ (
              if in_range offset size p && in_range index count (p / fs.meta.block_size)
              then buffer (p - offset)
              else content fs blocks p))
unfolding write_parts
loop_lem zero fs n blocks offset size index buffer w l u o e z = (
  fs,
  refl,
  w,
  refl,
  λ p.
      no_parts (in_range offset size p) index (p / fs.meta.block_size) (buffer (p - offset))
        (content fs blocks p),
)
loop_lem (suc count) fs n blocks offset size index buffer w l u o e z =
    let bs = fs.meta.block_size in
    let h : HasPart offset size bs index = (omega (arith, u), o, e, z) in
    let fs1 = after_part fs blocks offset size index buffer in
    let (fs', f, w', m, g) =
      loop_lem count fs1 n blocks offset size (index + 1) buffer
        (after_part-IsFile fs n blocks offset size index buffer w (omega (arith, l)) h)
        (omega (arith, l)) (omega (arith, u)) (omega (arith, o)) e z in
    (
      fs',
      rw (write_part_lem fs n blocks offset size index buffer w (omega (arith, l)) h, ◌>>=◌) f,
      w',
      m,
      λ p.
          g p
          ∙ ap
              (λ y.
                if in_range offset size p && in_range (index + 1) count (p / bs)
                then buffer (p - offset)
                else y)
              (written fs n blocks offset size index p buffer w (omega (arith, l)) h)
          ∙ in_parts (in_range offset size p) index count (p / bs) (buffer (p - offset))
              (content fs blocks p),
    )

-- Writing `size` bytes at `offset`, inside the blocks of a file, leaves a file of the same blocks, whose
-- bytes are those of the buffer in this range and what they were elsewhere.
pub write_inode_data_lem :
    (fs : FileSystem) (n : Inode) (blocks : List ℕ) (offset size : ℕ) (buffer : Buffer)
    → IsFile fs n blocks
    → offset + size ≤ length blocks * fs.meta.block_size
    → offset + size < 2 ^ 64
    → 0 < size
    → (fs' : FileSystem) × (write_inode_data fs n offset size buffer ≡ some fs')
      × IsFile fs' n blocks
      × (fs'.meta.block_size ≡ fs.meta.block_size)
      × ((p : ℕ)
          → content fs' blocks p
            ≡ (if in_range offset size p then buffer (p - offset) else content fs blocks p))
unfolding write_inode_data
write_inode_data_lem fs n blocks offset size buffer w l e z =
    let bs = fs.meta.block_size in
    let c = covered_lem offset size bs (length blocks) w.some_size z l e in
    let first = offset / bs in
    let last = (offset + size - 1) / bs in
    let order : first ≤ last = c.in_order in
    let count = last + 1 - first in
    let (fs', f, w', m, g) =
      loop_lem count fs n blocks offset size first buffer w (omega (arith, c.last, order))
        (loop_end first count last bs (offset + size) (omega (arith, order)) c.last_part)
        c.first_part e z in
    (
      fs',
      rw (==_false size 0 (omega arith), c.end_index) f,
      w',
      m,
      λ p. g p ∙ all_of p (in_range offset size p) refl,
    )
  where
    all_of :
        (p : ℕ) (b : Bool)
        → in_range offset size p ≡ b
        → (if in_range offset size p
              && in_range
                  (offset / fs.meta.block_size)
                  ((offset + size - 1) / fs.meta.block_size + 1 - offset / fs.meta.block_size)
                  (p / fs.meta.block_size)
            then buffer (p - offset)
            else content fs blocks p)
          ≡ (if in_range offset size p then buffer (p - offset) else content fs blocks p)
    all_of p true h =
        let u = in_range-lower offset size p h in
        let v = in_range-upper offset size p h in
        let k : offset + (p - offset) ≡ p = omega (arith, u) in
        let c =
          subst
            (λ x.
              in_range (offset / fs.meta.block_size)
                ((offset + size - 1) / fs.meta.block_size + 1 - offset / fs.meta.block_size)
                (x / fs.meta.block_size)
              ≡ true)
            k
            (covers_all offset size fs.meta.block_size (p - offset) w.some_size
              (in_range-true 0 size (p - offset) (omega arith) (omega (arith, u, v)))) in
        rw (h, c) refl
    all_of p false h = rw h refl
