-- ===== src/Wwfs/Tests.antt =====
-- libwwos/wwfs.cc: a small disk with one file of two blocks.
use wwos.Prelude.{ℕ, ◌+◌, ◌-◌, ◌^◌, ◌≡◌, refl, arith, some, true, if◌then◌else◌, ◌>>=◌, min}
use wwos.Bytes.{Buffer, zeros, in_range}
use wwos.Disk.{FileSystem, Inode, size_of, write_block, write, with_hw}
use wwos.Wwfs.{get_blockid_of_inode, write_inode_data, read_data, write_data, expand}
use wwos.Wwfs.Content.{IsFile, content}
use wwos.Wwfs.Overwrite.{read_data-write_data}
use wwos.Wwfs.Writes.{write_inode_data_lem}
use wwos.Wwfs.Data.{read_data_lem, read_data_behind}
use wwos.Wwfs.Full.{expand_full}
use wwos.Wwfs.Sample.{
  disk, inode_0, blocks, letters, length_0, type_0, disk-IsFile, disk_inode, disk-IsShaped,
}

read_data-write_data_example :
    (fs : FileSystem) × (out : Buffer) × (write_data disk 0 100 50 letters ≡ some (50, fs))
    × (read_data fs 0 100 50 zeros ≡ some (50, out))
    × ((i : ℕ) → out i ≡ (if in_range 0 50 i then letters i else 0))
read_data-write_data_example =
    read_data-write_data disk 0 100 50 letters zeros inode_0 blocks 1 disk-IsShaped (omega arith)
      (omega arith) (omega arith) disk_inode type_0 disk-IsFile (omega (arith, length_0))
      (omega (arith, length_0)) (omega (arith, length_0))

write_inode_data_example :
    (fs : FileSystem) × (write_inode_data disk inode_0 100 50 letters ≡ some fs)
    × IsFile fs inode_0 blocks
    × (fs.meta.block_size ≡ 128)
    × ((p : ℕ)
        → content fs blocks p
          ≡ (if in_range 100 50 p then letters (p - 100) else content disk blocks p))
write_inode_data_example =
    write_inode_data_lem disk inode_0 blocks 100 50 letters disk-IsFile (omega arith) (omega arith)
      (omega arith)

-- 30 of the 50 bytes are there.
read_data_example :
    (out : Buffer) × (read_data disk 0 170 50 letters ≡ some (min 50 (size_of inode_0 - 170), out))
    × ((i : ℕ)
        → out i ≡ (
            if in_range 0 (min 50 (size_of inode_0 - 170)) i
            then content disk blocks (170 + i)
            else letters i))
read_data_example =
    read_data_lem disk 0 170 50 letters inode_0 blocks (omega arith) (omega arith) disk_inode type_0
      disk-IsFile (omega (arith, length_0)) (omega (arith, length_0)) (omega (arith, length_0))
      (omega arith)

read_data_behind_example :
    read_data disk 0 300 50 letters ≡ some (2 ^ 64 - (300 - size_of inode_0), letters)
read_data_behind_example =
    read_data_behind disk 0 300 50 letters inode_0 (omega arith) (omega arith) disk_inode type_0
      (omega (arith, length_0)) (omega (arith, length_0)) (omega arith) (omega (arith, length_0))

-- All blocks are taken.
abbrev full : FileSystem
full = record {
  bid_meta = 0;
  bid_bitmap_inode = 1;
  bid_bitmap_data = 2;
  bid_inodes = 3;
  bid_data = 5;
  meta = record { block_size = 1; block_count = 8; inode_count = 2 };
  hw = record { memory = λ a. 255; block_size = 1; block_count = 20 };
  initialized = true;
}

expand_full_example :
    (n : Inode) × (expand 1 3 full zeros ≡ some (n, full))
    × (get_blockid_of_inode full n 3 ≡ some (2 ^ 64 - 1))
    × (write_block full (2 ^ 64 - 1) letters 0
        ≡ (write full.hw 4 letters 0 >>= (λ hw. some (with_hw full hw))))
expand_full_example =
    expand_full full zeros 3 letters 0 (omega arith) (refl, omega arith) refl (omega arith)
      (omega arith) (omega arith)
