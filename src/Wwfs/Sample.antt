-- ===== src/Wwfs/Sample.antt =====
-- libwwos/wwfs.cc: a small disk with one file of two blocks, on which the theorems are applied.
use wwos.Prelude.{ℕ, ◌+◌, ◌≡◌, refl, ◌∙◌, arith, some, true, inl, List, [], ◌∷◌}
use wwos.Bytes.{Buffer, zeros, copy, load, store}
use wwos.Disk.{FileSystem, Inode, type_of, size_of, get_inode}
use wwos.Disk.Blocks.{IsShaped}
use wwos.Disk.Inodes.{get_inode_lem}
use wwos.Wwfs.{get_blockid_of_inode}
use wwos.Wwfs.Content.{IsFile}

-- The inode 0, a file of 200 bytes in the blocks 4 and 2, stands in block 3.
abbrev pub memory : Buffer
memory = store 8 (store 8 (store 8 (store 4 zeros 384 1) 392 200) 400 4) 408 2

abbrev pub disk : FileSystem
disk = record {
  bid_meta = 0;
  bid_bitmap_inode = 1;
  bid_bitmap_data = 2;
  bid_inodes = 3;
  bid_data = 5;
  meta = record { block_size = 128; block_count = 15; inode_count = 2 };
  hw = record { memory = memory; block_size = 128; block_count = 20 };
  initialized = true;
}

abbrev pub inode_0 : Inode
inode_0 = copy memory 384 zeros 0 128

abbrev pub blocks : List ℕ
blocks = 4 ∷ 2 ∷ []

abbrev pub letters : Buffer
letters i = 97 + i

first_number : load 8 inode_0 16 ≡ 4
unfolding load copy store
first_number = refl

second_number : load 8 inode_0 24 ≡ 2
unfolding load copy store
second_number = refl

pub length_0 : size_of inode_0 ≡ 200
unfolding load copy store
length_0 = refl

pub type_0 : type_of inode_0 ≡ 1
unfolding load copy store
type_0 = refl

pub disk-IsFile : IsFile disk inode_0 blocks
unfolding get_blockid_of_inode load copy store
disk-IsFile = record {
  numbers = refl;
  same_size = refl;
  some_size = omega arith;
  memory_end = omega arith;
  distinct = omega arith;
  inside = omega arith;
  apart = inl (omega arith);
}

pub disk_inode : get_inode disk 0 ≡ some inode_0
disk_inode =
    get_inode_lem disk 1 0 (record { some_units = omega arith; meta_size = refl; hw_size = refl })
    ∙ refl

pub disk-IsShaped : IsShaped disk 1
disk-IsShaped = record { some_units = omega arith; meta_size = refl; hw_size = refl }
