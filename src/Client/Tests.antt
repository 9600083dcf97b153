-- ===== src/Client/Tests.antt =====
-- libwwos/syscall.cc: a process lists a directory of two files.
use wwos.Prelude.{ℕ, ◌^◌, ◌≡◌, refl, arith, List, [], ◌∷◌, some, true, false}
use wwos.Bytes.{zeros, copy, load, store}
use wwos.Avl.{leaf}
use wwos.AvlTree
use wwos.Disk.{FileSystem, get_inode, read, read_block}
use wwos.Wwfs.{read_inode_data, read_parts, read_part, get_blockid_of_inode}
use wwos.Directory
use wwos.Directory.{c_string, entries, entry}
use wwos.Directory.Entries.{listing}
use wwos.Nodes.{FdType, FdMode}
use wwos.Nodes.Children.{names_of}
use wwos.Descriptors.{FdInfo, Kernel}
use wwos.Client.{get_children}
use wwos.Client.Listing.{ask, IsDirectory, get_children_lem}

-- "bin" and "shell.sh"
abbrev two_entries : List (List ℕ × ℕ)
two_entries = (98 ∷ 105 ∷ 110 ∷ [], 1) ∷ (115 ∷ 104 ∷ 101 ∷ 108 ∷ 108 ∷ 46 ∷ 115 ∷ 104 ∷ [], 7) ∷ []

-- The inode 0, a directory of 40 bytes in the block 4, stands in block 3.
abbrev disk : FileSystem
disk = record {
  bid_meta = 0;
  bid_bitmap_inode = 1;
  bid_bitmap_data = 2;
  bid_inodes = 3;
  bid_data = 5;
  meta = record { block_size = 128; block_count = 15; inode_count = 2 };
  hw = record {
    memory = listing 1152 two_entries (store 8 (store 8 zeros 392 40) 400 4);
    block_size = 128;
    block_count = 20;
  };
  initialized = true;
}

disk_children : Directory.get_children disk 0 ≡ some two_entries
unfolding Directory.get_children get_inode read read_block read_inode_data read_parts read_part
    get_blockid_of_inode copy load store c_string entries entry
disk_children = refl

abbrev info : FdInfo
info = record { node = 4096; mode = FdMode.read_only; offset = 0 }

abbrev kernel : Kernel
kernel = record {
  task = record {
    pid = 1;
    has_return_value = false;
    return_value = 0;
    fd_counter = 3;
    fds = record { root = leaf (record { key = 2; value = info }); m_size = 1 };
  };
  nodes = record {
    fs = disk;
    node = λ p. record { inode = 0; type = FdType.directory; readers = 1 ∷ []; writers = [] };
    p_snode_inode = AvlTree.new;
    p_inode_snode = AvlTree.new;
    p_fifo = AvlTree.new;
  };
}

info-IsDirectory : IsDirectory 2 info two_entries kernel
info-IsDirectory = record {
  is_open = record { fds = omega arith; held = refl };
  there = omega arith;
  type = refl;
  children = disk_children;
}

get_children_example : get_children (ask (2 ^ 48) 2 65536 kernel) ≡ some (0, names_of two_entries)
get_children_example =
    get_children_lem (2 ^ 48) 2 65536 info two_entries kernel info-IsDirectory
      (
        record { some_size = omega arith; no_zero = refl },
        (record { some_size = omega arith; no_zero = refl }, tt),
      )
      (omega arith) (omega arith)
