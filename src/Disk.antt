-- ===== src/Disk.antt =====
-- libwwos/wwfs.cc, include/wwos/wwfs.h: the memory that holds a disk, how the file system divides it
-- into blocks, and the inodes and bitmaps in them. Numbers of blocks and of inodes are words; -1 is
-- `2 ^ 64 - 1`. A result `none` is a failed `wwassert`. A buffer that `new` returns is `zeros`.
pub mod Blocks
pub mod Inodes
pub mod Bitmap
pub mod Release
pub mod Search
mod Tests
use wwos.Prelude.{
  ℕ, zero, suc, ◌+◌, ◌-◌, ◌*◌, ◌/◌, ◌%◌, ◌^◌, List, [], ◌∷◌, Bool, true, false, ◌&&◌, Option, none,
  some, ◌>>=◌, ◌==◌, ltb, leb, if◌then◌else◌,
}
use wwos.Bytes.{Buffer, zeros, put, copy, load, store}

pub record Hardware : Type 0 where
  pub memory : Buffer
  pub block_size : ℕ
  pub block_count : ℕ

-- Block `block` to the buffer, from its byte `at` on.
unfoldable pub read : Hardware → ℕ → Buffer → ℕ → Option Buffer
read hw block buffer at =
    if ltb block hw.block_count
    then some (copy hw.memory (block * hw.block_size) buffer at hw.block_size)
    else none

pub write : Hardware → ℕ → Buffer → ℕ → Option Hardware
write hw block buffer at =
    if ltb block hw.block_count
    then some
        (record hw { memory = copy buffer at hw.memory (block * hw.block_size) hw.block_size })
    else none

abbrev pub size : Hardware → ℕ
size hw = hw.block_count * hw.block_size

pub record Meta : Type 0 where
  pub block_size : ℕ
  pub block_count : ℕ
  pub inode_count : ℕ

pub record FileSystem : Type 0 where
  pub bid_meta : ℕ
  pub bid_bitmap_inode : ℕ
  pub bid_bitmap_data : ℕ
  pub bid_inodes : ℕ
  pub bid_data : ℕ
  pub meta : Meta
  pub hw : Hardware
  pub initialized : Bool

-- The first blocks of the parts, by the three numbers of the meta data.
abbrev pub after_bitmap : ℕ → ℕ → ℕ → ℕ
after_bitmap bid count block_size = bid + (count + (8 * block_size - 1)) / (8 * block_size)

abbrev pub after_inodes : ℕ → ℕ → ℕ → ℕ
after_inodes bid count block_size = bid + (count + (block_size / 128 - 1)) / (block_size / 128)

abbrev pub lay_out : Meta → FileSystem → FileSystem
lay_out meta fs =
    let bitmap_data = after_bitmap 1 meta.inode_count meta.block_size in
    let inodes = after_bitmap bitmap_data meta.block_count meta.block_size in
    record fs {
      meta = meta;
      bid_meta = 0;
      bid_bitmap_inode = 1;
      bid_bitmap_data = bitmap_data;
      bid_inodes = inodes;
      bid_data = after_inodes inodes meta.inode_count meta.block_size;
      initialized = true;
    }

pub required_size : Meta → ℕ
required_size meta =
    let bitmap_data = after_bitmap 1 meta.inode_count meta.block_size in
    let inodes = after_bitmap bitmap_data meta.block_count meta.block_size in
    (after_inodes inodes meta.inode_count meta.block_size + meta.block_count) * meta.block_size

abbrev pub load_meta : Buffer → Meta
load_meta b = record {
  block_size = load 8 b 0;
  block_count = load 8 b 8;
  inode_count = load 8 b 16;
}

abbrev pub store_meta : Meta → Buffer
store_meta m = store 8 (store 8 (store 8 zeros 0 m.block_size) 8 m.block_count) 16 m.inode_count

-- The assertions of `initialize`, of which the last two stand behind the layout.
abbrev pub is_sound : Meta → FileSystem → Bool
is_sound meta fs =
    (ltb 0 meta.block_size && (meta.block_size % 1024 == 0))
    && ((fs.hw.block_size == meta.block_size)
        && (size fs.hw == ((lay_out meta fs).bid_data + meta.block_count) * meta.block_size))

pub initialize : FileSystem → Option FileSystem
unfolding read
initialize fs = read fs.hw fs.bid_meta zeros 0 >>= (λ buffer.
    if is_sound (load_meta buffer) fs then some (lay_out (load_meta buffer) fs) else none)

-- An inode is its 128 bytes: `type` at 0, `size` at 8, `blocks_l0` from 16 on, `block_l1` at 96.
abbrev pub Inode : Type 0
Inode = Buffer

pub data InodeType : Type 0 where
  directory : InodeType
  file : InodeType
  fifo : InodeType

abbrev pub code : InodeType → ℕ
code InodeType.directory = 0
code InodeType.file = 1
code InodeType.fifo = 2

abbrev pub type_of : Inode → ℕ
type_of n = load 4 n 0

abbrev pub size_of : Inode → ℕ
size_of n = load 8 n 8

abbrev pub set_type : InodeType → Inode → Inode
set_type t n = store 4 n 0 (code t)

abbrev pub set_size : ℕ → Inode → Inode
set_size s n = store 8 n 8 s

abbrev pub blocks_l0 : Inode → ℕ → ℕ
blocks_l0 n i = load 8 n (16 + 8 * i)

abbrev pub block_l1 : Inode → ℕ
block_l1 n = load 8 n 96

abbrev pub inode_bid : FileSystem → ℕ → ℕ
inode_bid fs id = fs.bid_inodes + id / (fs.meta.block_size / 128)

abbrev pub inode_offset : FileSystem → ℕ → ℕ
inode_offset fs id = id % (fs.meta.block_size / 128) * 128

unfoldable pub get_inode : FileSystem → ℕ → Option Inode
get_inode fs id =
    read fs.hw (inode_bid fs id) zeros 0
    >>= (λ buffer. some (copy buffer (inode_offset fs id) zeros 0 128))

abbrev pub with_hw : FileSystem → Hardware → FileSystem
with_hw fs hw = record fs { hw = hw }

pub set_inode : FileSystem → ℕ → Inode → Option FileSystem
set_inode fs id n = read fs.hw (inode_bid fs id) zeros 0 >>= (λ buffer.
    write fs.hw (inode_bid fs id) (copy n 0 buffer (inode_offset fs id) 128) 0
    >>= (λ hw. some (with_hw fs hw)))

unfoldable pub read_block : FileSystem → ℕ → Buffer → ℕ → Option Buffer
read_block fs id buffer at = read fs.hw ((fs.bid_data + id) % 2 ^ 64) buffer at

pub write_block : FileSystem → ℕ → Buffer → ℕ → Option FileSystem
write_block fs id buffer at =
    write fs.hw ((fs.bid_data + id) % 2 ^ 64) buffer at >>= (λ hw. some (with_hw fs hw))

-- `byte & (1 << j)`, `byte | (1 << j)` and `byte & ~(1 << j)`
abbrev pub test_bit : ℕ → ℕ → Bool
test_bit v j = v / 2 ^ j % 2 == 1

abbrev pub set_bit : ℕ → ℕ → ℕ
set_bit v j = if test_bit v j then v else v + 2 ^ j

abbrev pub clear_bit : ℕ → ℕ → ℕ
clear_bit v j = if test_bit v j then v - 2 ^ j else v

-- The loop over `j`, with `n` bits to go.
pub find_bit : ℕ → ℕ → ℕ → Option ℕ
find_bit zero j v = none
find_bit (suc n) j v = let rest = find_bit n (j + 1) v in if test_bit v j then rest else some j

-- The loop over `i`, with `n` bytes to go.
pub find_byte : ℕ → ℕ → Buffer → Option (ℕ × ℕ)
find_byte zero i buffer = none
find_byte (suc n) i buffer =
    let rest = find_byte n (i + 1) buffer in
    elim (find_bit 8 0 (buffer i)) [ none ↦ rest | some j ↦ some (i, j) ]

-- The loop over `bid`, with `n` blocks to go of the bitmap that starts at block `first`.
pub find_block : ℕ → ℕ → ℕ → FileSystem → Option (ℕ × FileSystem)
find_block zero bid first fs = some (2 ^ 64 - 1, fs)
find_block (suc n) bid first fs =
    let rest = find_block n (bid + 1) first fs in
    elim (read fs.hw bid zeros 0) [
      | none ↦ none
      | some buffer ↦ elim (find_byte fs.meta.block_size 0 buffer) [
        | none ↦ rest
        | some (i, j) ↦
            write fs.hw bid (put buffer i (set_bit (buffer i) j)) 0
            >>= (λ hw. some ((bid - first) * fs.meta.block_size * 8 + i * 8 + j, with_hw fs hw))
      ]
    ]

pub allocate_inode : FileSystem → Option (ℕ × FileSystem)
allocate_inode fs =
    find_block (fs.bid_bitmap_data - fs.bid_bitmap_inode) fs.bid_bitmap_inode fs.bid_bitmap_inode fs

pub allocate_block : FileSystem → Option (ℕ × FileSystem)
allocate_block fs =
    find_block (fs.bid_inodes - fs.bid_bitmap_data) fs.bid_bitmap_data fs.bid_bitmap_data fs

-- The bit `id` of the bitmap that starts at block `first` is cleared.
pub release : ℕ → ℕ → FileSystem → Option FileSystem
release first id fs =
    let bid = first + id / (fs.meta.block_size * 8) in
    let offset = id % (fs.meta.block_size * 8) in
    read fs.hw bid zeros 0 >>= (λ buffer.
      write fs.hw bid (put buffer (offset / 8) (clear_bit (buffer (offset / 8)) (offset % 8))) 0
      >>= (λ hw. some (with_hw fs hw)))

pub deallocate_inode : FileSystem → ℕ → Option FileSystem
deallocate_inode fs id = release fs.bid_bitmap_inode id fs

pub deallocate_block : FileSystem → ℕ → Option FileSystem
deallocate_block fs id = release fs.bid_bitmap_data id fs
