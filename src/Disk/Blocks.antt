-- ===== src/Disk/Blocks.antt =====
-- libwwos/wwfs.cc: where the blocks, the inodes and the bits stand in the memory.
use native.Mathlib.Nat.{mul-le-mul_right, div-add-mod, mod-lt}
use wwos.Prelude.{
  ℕ, suc, ◌+◌, ◌*◌, ◌/◌, ◌%◌, ◌^◌, ◌≤◌, ◌<◌, ◌≡◌, ◌≢◌, ◌⊎◌, inl, inr, refl, ap, arith, dec_lt, some,
  ◌>>=◌, ltb-true,
}
use wwos.Bytes.{Buffer, copy}
use wwos.Disk.{
  Hardware, FileSystem, read, write, inode_bid, inode_offset, with_hw, read_block, write_block,
}

-- The blocks are `units` pieces of 128 bytes each.
pub record IsShaped (fs : FileSystem) (units : ℕ) : Type 0 where
  pub some_units : 0 < units
  pub meta_size : fs.meta.block_size ≡ units * 128
  pub hw_size : fs.hw.block_size ≡ units * 128

pub read_lem :
    (hw : Hardware) (block : ℕ) (buffer : Buffer) (at : ℕ)
    → block < hw.block_count
    → read hw block buffer at
      ≡ some (copy hw.memory (block * hw.block_size) buffer at hw.block_size)
unfolding read
read_lem hw block buffer at h = rw (ltb-true block hw.block_count h) refl

pub write_lem :
    (hw : Hardware) (block : ℕ) (buffer : Buffer) (at : ℕ)
    → block < hw.block_count
    → write hw block buffer at
      ≡ some (record hw { memory = copy buffer at hw.memory (block * hw.block_size) hw.block_size })
unfolding write
write_lem hw block buffer at h = rw (ltb-true block hw.block_count h) refl

-- The address of an inode
abbrev pub slot : FileSystem → ℕ → ℕ
slot fs id = fs.bid_inodes * fs.hw.block_size + 128 * id

units_lem : (fs : FileSystem) (units : ℕ) → IsShaped fs units → fs.meta.block_size / 128 ≡ units
units_lem fs units w = omega (arith, w.meta_size)

pub slot_lem :
    (fs : FileSystem) (units id : ℕ)
    → IsShaped fs units
    → inode_bid fs id * fs.hw.block_size + inode_offset fs id ≡ slot fs id
slot_lem fs units id w =
    rw (units_lem fs units w, w.hw_size)
      (omega (arith, ap (λ (x : ℕ). x * 128) (div-add-mod id units)))

pub inode_fits :
    (fs : FileSystem) (units id : ℕ)
    → IsShaped fs units
    → inode_offset fs id + 128 ≤ fs.hw.block_size
inode_fits fs units id w =
    rw (units_lem fs units w, w.hw_size) (omega (arith, mod-lt id w.some_units))

-- Blocks do not overlap.
pub block_apart : (b c s : ℕ) → b ≢ c → (b * s + s ≤ c * s) ⊎ (c * s + s ≤ b * s)
block_apart b c s n = elim (dec_lt b c) [
  | yes p ↦ inl (omega (arith, mul-le-mul_right {m = suc b} {n = c} s (omega (arith, p))))
  | no p ↦ inr (omega (arith, mul-le-mul_right {m = suc c} {n = b} s (omega (arith, p, n))))
]

abbrev pub IsInside : FileSystem → ℕ → Type 0
IsInside fs b = fs.bid_data + b < fs.hw.block_count

pub read_block_lem :
    (fs : FileSystem) (id : ℕ) (buffer : Buffer) (at : ℕ)
    → IsInside fs id
    → fs.hw.block_count ≤ 2 ^ 64
    → read_block fs id buffer at
      ≡ some (copy fs.hw.memory ((fs.bid_data + id) * fs.hw.block_size) buffer at fs.hw.block_size)
unfolding read_block
read_block_lem fs id buffer at h m =
    let e : (fs.bid_data + id) % 2 ^ 64 ≡ fs.bid_data + id = omega (arith, h, m) in
    rw e (read_lem fs.hw (fs.bid_data + id) buffer at h)

pub write_block_lem :
    (fs : FileSystem) (id : ℕ) (buffer : Buffer) (at : ℕ)
    → IsInside fs id
    → fs.hw.block_count ≤ 2 ^ 64
    → write_block fs id buffer at
      ≡ some (
          with_hw fs (record fs.hw {
            memory =
                copy buffer at fs.hw.memory
                  ((fs.bid_data + id) * fs.hw.block_size)
                  fs.hw.block_size;
          }))
unfolding write_block
write_block_lem fs id buffer at h m =
    let e : (fs.bid_data + id) % 2 ^ 64 ≡ fs.bid_data + id = omega (arith, h, m) in
    rw e (rw (write_lem fs.hw (fs.bid_data + id) buffer at h, ◌>>=◌) refl)

pub write_block_eq :
    (fs : FileSystem) (id : ℕ) (buffer : Buffer) (at : ℕ)
    → write_block fs id buffer at
      ≡ (write fs.hw ((fs.bid_data + id) % 2 ^ 64) buffer at >>= (λ hw. some (with_hw fs hw)))
unfolding write_block
write_block_eq fs id buffer at = refl
