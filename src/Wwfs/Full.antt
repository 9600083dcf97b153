-- ===== src/Wwfs/Full.antt =====
-- libwwos/wwfs.cc: a file that grows when no block is left.
use wwos.Prelude.{
  ℕ, ◌+◌, ◌-◌, ◌*◌, ◌%◌, ◌^◌, ◌≤◌, ◌<◌, ◌≡◌, refl, ap, arith, none, some, ltb-true, ◌>>=◌,
}
use wwos.Bytes.{Buffer, store}
use wwos.Bytes.Words.{load-store}
use wwos.Disk.{FileSystem, Inode, allocate_block, write_block, write, with_hw}
use wwos.Disk.Blocks.{write_block_eq}
use wwos.Disk.Bitmap.{HasBlocks, is_taken, allocate_block-eq-first_clear}
use wwos.Disk.Search.{first_clear}
use wwos.Wwfs.{expand, set_blockid_of_inode, get_blockid_of_inode}

-- On a disk with no block left, one of the first ten blocks that a file grows by is not refused: its
-- number becomes -1, and what is written to it goes to the last block of the inodes.
pub expand_full :
    (fs : FileSystem) (n : Inode) (i : ℕ) (buffer : Buffer) (at : ℕ)
    → fs.bid_bitmap_data ≤ fs.bid_inodes
    → HasBlocks fs fs.bid_bitmap_data (fs.bid_inodes - fs.bid_bitmap_data)
    → first_clear
        ((fs.bid_inodes - fs.bid_bitmap_data) * fs.meta.block_size * 8)
        0
        (is_taken fs fs.bid_bitmap_data)
      ≡ none
    → i < 10
    → fs.bid_data ≤ 2 ^ 64
    → 0 < fs.bid_data
    → (n' : Inode) × (expand 1 i fs n ≡ some (n', fs))
      × (get_blockid_of_inode fs n' i ≡ some (2 ^ 64 - 1))
      × (write_block fs (2 ^ 64 - 1) buffer at
          ≡ (write fs.hw (fs.bid_data - 1) buffer at >>= (λ hw. some (with_hw fs hw))))
unfolding expand set_blockid_of_inode get_blockid_of_inode
expand_full fs n i buffer at l h f p d z =
    let a : allocate_block fs ≡ some (2 ^ 64 - 1, fs) =
      rw f at (allocate_block-eq-first_clear fs l h) in
    let e : (fs.bid_data + (2 ^ 64 - 1)) % 2 ^ 64 ≡ fs.bid_data - 1 = omega (arith, d, z) in
    (
      store 8 n (16 + 8 * i) (2 ^ 64 - 1),
      rw (a, ◌>>=◌, ltb-true i 10 p) refl,
      rw (ltb-true i 10 p) (ap some (load-store 8 n (16 + 8 * i) (2 ^ 64 - 1) (omega arith))),
      rw (write_block_eq fs (2 ^ 64 - 1) buffer at, e) refl,
    )
