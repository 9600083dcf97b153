-- ===== src/Wwfs/Data.antt =====
-- libwwos/wwfs.cc: `read_data`, before and behind the end of a file.
use wwos.Prelude.{
  leb-false, ℕ, ◌+◌, ◌-◌, ◌*◌, ◌/◌, ◌%◌, ◌^◌, ◌≤◌, ◌<◌, ◌≡◌, refl, ap, ◌∙◌, arith, List, some, ltb,
  ◌>>=◌, if◌then◌else◌, length, ==_true, ==_false, min,
}
use wwos.Bytes.{Buffer, in_range}
use wwos.Disk.{FileSystem, Inode, InodeType, code, get_inode, size_of, type_of}
use wwos.Wwfs.{read_data, read_inode_data, read_parts}
use wwos.Wwfs.Content.{IsFile, content}
use wwos.Wwfs.Reads.{read_inode_data_lem}

count_of : ℕ → ℕ → ℕ → ℕ
count_of total offset size =
    if ltb total ((offset + size) % 2 ^ 64) then (total + 2 ^ 64 - offset) % 2 ^ 64 else size

-- `read_data` once the guards are passed.
passed :
    (fs : FileSystem) (id offset size : ℕ) (buffer : Buffer) (n : Inode)
    → id < 2 ^ 63
    → 0 < size
    → get_inode fs id ≡ some n
    → type_of n ≡ code InodeType.file
    → read_data fs id offset size buffer ≡ (
        read_inode_data fs n offset (count_of (size_of n) offset size) buffer
        >>= (λ out. some (count_of (size_of n) offset size, out)))
unfolding read_data count_of
passed fs id offset size buffer n g z e t =
    rw (==_false size 0 (omega arith), leb-false (2 ^ 63) id g, e, ◌>>=◌, ==_true (type_of n) 1 t)
      refl

-- A read of a byte or more that starts before the end of a file, and for which the sum of offset and
-- size does not wrap around, gives the bytes there, and as many as there are up to the end if fewer
-- than asked for; it returns how many. The rest of the reader's buffer is not touched. The blocks of
-- the file are in the inode, in the memory, and enough for its size.
pub read_data_lem :
    (fs : FileSystem) (id offset size : ℕ) (buffer : Buffer) (n : Inode) (blocks : List ℕ)
    → id < 2 ^ 63
    → 0 < size
    → get_inode fs id ≡ some n
    → type_of n ≡ code InodeType.file
    → IsFile fs n blocks
    → size_of n ≤ length blocks * fs.meta.block_size
    → size_of n < 2 ^ 64
    → offset < size_of n
    → offset + size < 2 ^ 64
    → (out : Buffer) × (read_data fs id offset size buffer
        ≡ some (min size (size_of n - offset), out))
      × ((i : ℕ)
          → out i ≡ (
              if in_range 0 (min size (size_of n - offset)) i
              then content fs blocks (offset + i)
              else buffer i))
unfolding count_of
read_data_lem fs id offset size buffer n blocks g z e t w l m o u =
    let c = min size (size_of n - offset) in
    let k : count_of (size_of n) offset size ≡ c = count_lem (size_of n) offset size m o u in
    let (out, f, h) =
      read_inode_data_lem fs n blocks offset c buffer w (omega arith) (omega arith) (omega arith) in
    (
      out,
      passed fs id offset size buffer n g z e t
          ∙ ap (λ k. read_inode_data fs n offset k buffer >>= (λ b. some (k, b))) k
          ∙ ap (λ o. o >>= (λ b. some (c, b))) f,
      h,
    )
  where
    count_lem :
        (total offset size : ℕ)
        → total < 2 ^ 64
        → offset < total
        → offset + size < 2 ^ 64
        → count_of total offset size ≡ min size (total - offset)
    count_lem total offset size m o u = ground arith

-- At the end of a file, nothing is read.
pub read_data_end :
    (fs : FileSystem) (id size : ℕ) (buffer : Buffer) (n : Inode)
    → id < 2 ^ 63
    → 0 < size
    → get_inode fs id ≡ some n
    → type_of n ≡ code InodeType.file
    → size_of n + size < 2 ^ 64
    → read_data fs id (size_of n) size buffer ≡ some (0, buffer)
unfolding read_inode_data count_of
read_data_end fs id size buffer n g z e t u =
    let k : count_of (size_of n) (size_of n) size ≡ 0 = count_lem (size_of n) size z u in
    passed fs id (size_of n) size buffer n g z e t
    ∙ ap (λ c. read_inode_data fs n (size_of n) c buffer >>= (λ out. some (c, out))) k
  where
    count_lem : (total size : ℕ) → 0 < size → total + size < 2 ^ 64 → count_of total total size ≡ 0
    count_lem total size z u = ground arith

-- A read of a byte or more from a file that is not empty, which starts behind the block in which the
-- file ends, and for which the sum of offset and size does not wrap around, reads nothing, and returns
-- not 0 but the distance from the end as a negative word.
pub read_data_behind :
    (fs : FileSystem) (id offset size : ℕ) (buffer : Buffer) (n : Inode)
    → id < 2 ^ 63
    → 0 < size
    → get_inode fs id ≡ some n
    → type_of n ≡ code InodeType.file
    → 0 < size_of n
    → size_of n < offset
    → offset + size < 2 ^ 64
    → (size_of n - 1) / fs.meta.block_size < offset / fs.meta.block_size
    → read_data fs id offset size buffer ≡ some (2 ^ 64 - (offset - size_of n), buffer)
unfolding read_inode_data read_parts count_of
read_data_behind fs id offset size buffer n g z e t p o u d =
    let k : count_of (size_of n) offset size ≡ 2 ^ 64 - (offset - size_of n) =
      count_lem (size_of n) offset size o u in
    let last : (offset + (2 ^ 64 - (offset - size_of n)) + (2 ^ 64 - 1)) % 2 ^ 64 ≡ size_of n - 1 =
      omega (arith, p, o, u) in
    let rounds : (size_of n - 1) / fs.meta.block_size + 1 - offset / fs.meta.block_size ≡ 0 =
      omega (arith, d) in
    passed fs id offset size buffer n g z e t
    ∙ rw k (
        rw
          (
            read_inode_data,
            ==_false (2 ^ 64 - (offset - size_of n)) 0 (omega (arith, o, u)),
            last,
            rounds,
            ◌>>=◌,
          )
          refl)
  where
    count_lem :
        (total offset size : ℕ)
        → total < offset
        → offset + size < 2 ^ 64
        → count_of total offset size ≡ 2 ^ 64 - (offset - total)
    count_lem total offset size o u = ground arith
