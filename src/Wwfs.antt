-- ===== src/Wwfs.antt =====
-- libwwos/wwfs.cc: files and directories on the disk. A result `none` is a failed `wwassert` or an
-- access out of bounds. A name is the list of its characters; a buffer of the caller starts at 0.
pub mod Content
pub mod Parts
pub mod Reads
pub mod Written
pub mod Writes
pub mod Data
pub mod Upto
pub mod Sample
pub mod Full
pub mod Overwrite
mod Tests
use wwos.Prelude.{
  ℕ, zero, suc, ◌+◌, ◌-◌, ◌*◌, ◌/◌, ◌%◌, ◌^◌, min, max, List, [], ◌∷◌, Bool, true, false, not, ◌&&◌,
  ◌||◌, Option, none, some, ◌>>=◌, ◌==◌, ltb, leb, if◌then◌else◌, length,
}
use wwos.Bytes.{Buffer, zeros, copy, load, store}
use wwos.Disk.{
  FileSystem, Meta, Inode, InodeType, code, type_of, size_of, set_type, set_size, blocks_l0,
  block_l1, store_meta, write, initialize, get_inode, set_inode, read_block, write_block, with_hw,
  allocate_inode, allocate_block, deallocate_block,
}

unfoldable pub get_blockid_of_inode : FileSystem → Inode → ℕ → Option ℕ
get_blockid_of_inode fs n index =
    if ltb index 10
    then some (blocks_l0 n index)
    else if ltb index (10 + fs.meta.block_size / 8)
    then read_block fs (block_l1 n) zeros 0 >>= (λ buffer. some (load 8 buffer (8 * (index - 10))))
    else none

pub set_blockid_of_inode : FileSystem → Inode → ℕ → ℕ → Option (Inode × FileSystem)
set_blockid_of_inode fs n index blockid =
    if ltb index 10
    then some (store 8 n (16 + 8 * index) blockid, fs)
    else if ltb index (10 + fs.meta.block_size / 8)
    then read_block fs (block_l1 n) zeros 0 >>= (λ buffer.
      write_block fs (block_l1 n) (store 8 buffer (8 * (index - 10)) blockid) 0
      >>= (λ fs'. some (n, fs')))
    else none

-- The bytes of the file that block `index` has a part in, of those that are asked for.
abbrev pub begin_addr : ℕ → ℕ → ℕ → ℕ
begin_addr offset bs index = max offset (index * bs)

abbrev pub end_addr : ℕ → ℕ → ℕ → ℕ → ℕ
end_addr offset size bs index = min ((offset + size) % 2 ^ 64) ((index + 1) * bs)

abbrev pub is_whole : ℕ → ℕ → ℕ → ℕ → Bool
is_whole offset size bs index =
    (begin_addr offset bs index == index * bs)
    && (end_addr offset size bs index == (index + 1) * bs)

abbrev pub part_size : ℕ → ℕ → ℕ → ℕ → ℕ
part_size offset size bs index =
    (end_addr offset size bs index + 2 ^ 64 - begin_addr offset bs index) % 2 ^ 64

-- One round of the loop of `rw_inode_data_unaligned<false>`
unfoldable pub read_part : FileSystem → Inode → ℕ → ℕ → ℕ → Buffer → Option Buffer
read_part fs n offset size index buffer =
    let bs = fs.meta.block_size in
    get_blockid_of_inode fs n index >>= (λ id.
      if is_whole offset size bs index
      then read_block fs id buffer (begin_addr offset bs index - offset)
      else read_block fs id zeros 0 >>= (λ block. some (
          copy block (begin_addr offset bs index - index * bs) buffer
            (begin_addr offset bs index - offset) (part_size offset size bs index))))

-- One round of the loop of `rw_inode_data_unaligned<true>`
pub write_part : FileSystem → Inode → ℕ → ℕ → ℕ → Buffer → Option FileSystem
write_part fs n offset size index buffer =
    let bs = fs.meta.block_size in
    get_blockid_of_inode fs n index >>= (λ id.
      if is_whole offset size bs index
      then write_block fs id buffer (begin_addr offset bs index - offset)
      else read_block fs id zeros 0 >>= (λ block.
        write_block fs id
          (copy buffer (begin_addr offset bs index - offset) block
            (begin_addr offset bs index - index * bs) (part_size offset size bs index))
          0))

-- The loops, with `count` blocks to go.
unfoldable pub read_parts : ℕ → FileSystem → Inode → ℕ → ℕ → ℕ → Buffer → Option Buffer
read_parts zero fs n offset size index buffer = some buffer
read_parts (suc count) fs n offset size index buffer =
    read_part fs n offset size index buffer
    >>= (λ buffer'. read_parts count fs n offset size (index + 1) buffer')

pub write_parts : ℕ → FileSystem → Inode → ℕ → ℕ → ℕ → Buffer → Option FileSystem
write_parts zero fs n offset size index buffer = some fs
write_parts (suc count) fs n offset size index buffer =
    write_part fs n offset size index buffer
    >>= (λ fs'. write_parts count fs' n offset size (index + 1) buffer)

abbrev pub begin_block_index : ℕ → ℕ → ℕ
begin_block_index offset bs = offset / bs

abbrev pub end_block_index : ℕ → ℕ → ℕ → ℕ
end_block_index offset size bs = (offset + size + (2 ^ 64 - 1)) % 2 ^ 64 / bs

unfoldable pub read_inode_data : FileSystem → Inode → ℕ → ℕ → Buffer → Option Buffer
read_inode_data fs n offset size buffer =
    let bs = fs.meta.block_size in
    if size == 0
    then some buffer
    else read_parts (end_block_index offset size bs + 1 - begin_block_index offset bs) fs n offset
        size (begin_block_index offset bs) buffer

pub write_inode_data : FileSystem → Inode → ℕ → ℕ → Buffer → Option FileSystem
write_inode_data fs n offset size buffer =
    let bs = fs.meta.block_size in
    if size == 0
    then some fs
    else write_parts (end_block_index offset size bs + 1 - begin_block_index offset bs) fs n offset
        size (begin_block_index offset bs) buffer

-- The loop that expands, with `count` blocks to go. Its assertion holds for every unsigned word.
pub expand : ℕ → ℕ → FileSystem → Inode → Option (Inode × FileSystem)
expand zero i fs n = some (n, fs)
expand (suc count) i fs n =
    allocate_block fs
    >>= (λ a. set_blockid_of_inode a.1 n i a.0 >>= (λ s. expand count (i + 1) s.1 s.0))

-- The loop that shrinks
pub shrink : ℕ → ℕ → FileSystem → Inode → Option FileSystem
shrink zero i fs n = some fs
shrink (suc count) i fs n =
    get_blockid_of_inode fs n i
    >>= (λ id. deallocate_block fs id >>= (λ fs'. shrink count (i + 1) fs' n))

abbrev pub blocks_for : ℕ → ℕ → ℕ
blocks_for size bs = (size + bs + (2 ^ 64 - 1)) % 2 ^ 64 / bs

-- The block of further numbers is taken when the file gets its tenth block.
pub add_block_l1 : Bool → FileSystem → Inode → Option (Inode × FileSystem)
add_block_l1 false fs n = some (n, fs)
add_block_l1 true fs n = allocate_block fs >>= (λ a. some (store 8 n 96 a.0, a.1))

pub resize_inode : FileSystem → ℕ → ℕ → Option (Inode × FileSystem)
resize_inode fs id new_size = get_inode fs id >>= (λ n.
    let n' = set_size new_size n in
    let before = blocks_for (size_of n) fs.meta.block_size in
    let after = blocks_for new_size fs.meta.block_size in
    if size_of n == new_size
    then some (n, fs)
    else if before == after
    then set_inode fs id n' >>= (λ fs'. some (n', fs'))
    else if ltb before after
    then add_block_l1 (ltb before 10 && leb 10 after) fs n' >>= (λ a.
      expand (after - before) before a.1 a.0
      >>= (λ e. set_inode e.1 id e.0 >>= (λ fs'. some (e.0, fs'))))
    else shrink (before - after) after fs n'
      >>= (λ s. set_inode s id n' >>= (λ fs'. some (n', fs'))))

abbrev pub is_negative : ℕ → Bool
is_negative id = leb (2 ^ 63) id

unfoldable pub get_root : ℕ
get_root = 0

unfoldable pub get_inode_type : FileSystem → ℕ → Option ℕ
get_inode_type fs id = if is_negative id then none else get_inode fs id >>= (λ n. some (type_of n))

pub get_inode_size : FileSystem → ℕ → Option ℕ
get_inode_size fs id = if is_negative id then none else get_inode fs id >>= (λ n. some (size_of n))

-- What `read_data` returns, and the caller's buffer.
pub read_data : FileSystem → ℕ → ℕ → ℕ → Buffer → Option (ℕ × Buffer)
read_data fs id offset size buffer =
    if (size == 0) || is_negative id
    then some (0, buffer)
    else get_inode fs id >>= (λ n.
      if type_of n == code InodeType.file
      then (let count =
            if ltb (size_of n) ((offset + size) % 2 ^ 64)
            then (size_of n + 2 ^ 64 - offset) % 2 ^ 64
            else size in
          read_inode_data fs n offset count buffer >>= (λ out. some (count, out)))
      else none)

abbrev pub room_for : FileSystem → ℕ → ℕ → Inode → Option (Inode × FileSystem)
room_for fs id upto n = if ltb (size_of n) upto then resize_inode fs id upto else some (n, fs)

pub write_data : FileSystem → ℕ → ℕ → ℕ → Buffer → Option (ℕ × FileSystem)
write_data fs id offset size buffer =
    if is_negative id || (size == 0)
    then some (0, fs)
    else get_inode fs id >>= (λ n.
      if type_of n == code InodeType.file
      then room_for fs id ((offset + size) % 2 ^ 64) n
        >>= (λ r. write_inode_data r.1 r.0 offset size buffer >>= (λ fs'. some (size, fs')))
      else none)
