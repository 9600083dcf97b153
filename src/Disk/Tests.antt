-- ===== src/Disk/Tests.antt =====
-- libwwos/wwfs.cc: a small disk.
use wwos.Prelude.{◌≡◌, refl, ◌∙◌, arith, some, true}
use wwos.Bytes.{Buffer, zeros}
use wwos.Disk.{FileSystem, allocate_block}
use wwos.Disk.Search.{first_clear}
use wwos.Disk.Bitmap.{is_taken, taken_from, marked, allocate_block-eq-first_clear}

-- Blocks of one inode each: the inodes stand in the blocks 3 and 4.
abbrev disk : FileSystem
disk = record {
  bid_meta = 0;
  bid_bitmap_inode = 1;
  bid_bitmap_data = 2;
  bid_inodes = 3;
  bid_data = 5;
  meta = record { block_size = 128; block_count = 15; inode_count = 2 };
  hw = record { memory = zeros; block_size = 128; block_count = 20 };
  initialized = true;
}

-- Blocks of one byte: the bitmap of the data has eight bits, of which the first three are set.
abbrev bits : FileSystem
bits = record {
  bid_meta = 0;
  bid_bitmap_inode = 1;
  bid_bitmap_data = 2;
  bid_inodes = 3;
  bid_data = 5;
  meta = record { block_size = 1; block_count = 8; inode_count = 2 };
  hw = record { memory = λ a. 7; block_size = 1; block_count = 20 };
  initialized = true;
}

abbrev inode_of_ones : Buffer
inode_of_ones i = 1

allocate_block-eq-first_clear_example :
    allocate_block bits ≡ taken_from bits 2 (first_clear 8 0 (is_taken bits 2))
allocate_block-eq-first_clear_example =
    allocate_block-eq-first_clear bits (omega arith) (refl, omega arith)

-- The fourth bit is given.
fourth : allocate_block bits ≡ some (3, marked bits 2 3)
fourth = allocate_block-eq-first_clear bits (omega arith) (refl, omega arith) ∙ refl
