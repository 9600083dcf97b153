-- ===== src/Descriptors/Tests.antt =====
-- kernel/process.cc: a process that reads a file of 200 bytes through its descriptor 2, and one that
-- opens the root of the disk.
use wwos.Prelude.{
  ℕ, ◌+◌, ◌-◌, ◌^◌, ◌≡◌, refl, arith, List, [], ◌∷◌, true, false, none, some, ◌==◌, if◌then◌else◌,
  min, length,
}
use wwos.Bytes.{Buffer, zeros}
use wwos.Avl.{leaf}
use wwos.AvlTree
use wwos.AvlTree.{AvlTree}
use wwos.Map.Laws
use wwos.Disk.{size_of}
use wwos.Wwfs.Content.{content}
use wwos.Wwfs.Sample.{disk, inode_0, blocks, letters, length_0, type_0, disk-IsFile, disk_inode}
use wwos.Nodes.{FdType, FdMode, Nodes}
use wwos.Nodes.Opening.{open_shared_file_node}
use wwos.Nodes.Pipes.{bytes_of}
use wwos.Nodes.Disk.{IsDiskFile}
use wwos.Nodes.Opening.Sharing.{close-open}
use wwos.Nodes.Sample.{root, no_files, root-Leads, no_files-IsMapped}
use wwos.Descriptors.{FdInfo, FdStat, Kernel, check_pointer_validity, current_task_open}
use wwos.Descriptors.Open.{IsOpen}
use wwos.Descriptors.Stream.{read_all, total, read_all_lem}
use wwos.Descriptors.Returns.{check_lem, IsNumbered, open_lem}

abbrev info : FdInfo
info = record { node = 4096; mode = FdMode.read_only; offset = 50 }

abbrev kernel : Kernel
kernel = record {
  task = record {
    pid = 1;
    has_return_value = false;
    return_value = 0;
    fd_counter = 3;
    fds = record { root = leaf (record { key = 2; value = info }); m_size = 1 };
  };
  nodes = record {
    fs = disk;
    node = λ p. record { inode = 0; type = FdType.file; readers = 1 ∷ []; writers = [] };
    p_snode_inode = record { root = leaf (record { key = 4096; value = 0 }); m_size = 1 };
    p_inode_snode = record { root = leaf (record { key = 0; value = 4096 }); m_size = 1 };
    p_fifo = AvlTree.new;
  };
}

info-IsOpen : IsOpen 2 info kernel
info-IsOpen = record { fds = omega arith; held = refl }

node-IsDiskFile : IsDiskFile kernel.nodes 4096 inode_0 blocks
node-IsDiskFile = record {
  there = omega arith;
  type = refl;
  small = omega arith;
  got = disk_inode;
  is_file = type_0;
  blocks_are = disk-IsFile;
  fits = omega (arith, length_0);
  bounded = omega (arith, length_0);
}

-- 100 bytes, and then as many as there are.
abbrev requests : List (ℕ × Buffer × ℕ)
requests = (8192, zeros, 100) ∷ ((8192, letters, 100) ∷ [])

read_all_example :
    (k : Kernel) × (read_all (2 ^ 48) 2 requests kernel
      ≡ some (bytes_of (min (total requests) (size_of inode_0 - 50)) 50 (content disk blocks), k))
    × IsOpen 2 (record info { offset = 50 + min (total requests) (size_of inode_0 - 50) }) k
    × (k.nodes ≡ kernel.nodes)
read_all_example =
    read_all_lem requests (2 ^ 48) 2 info kernel inode_0 blocks info-IsOpen refl node-IsDiskFile
      (omega (arith, length_0)) (omega arith)

-- The sum wraps around, and the check passes.
check_example : check_pointer_validity (2 ^ 48) 8192 (2 ^ 64 - 1) ≡ true
check_example = check_lem (2 ^ 48) 8192 (2 ^ 64 - 1) (omega arith) (omega arith)

check_inside : check_pointer_validity (2 ^ 48) 8192 100 ≡ true
unfolding check_pointer_validity
check_inside = refl

abbrev some_stat : FdStat
some_stat = record { size = 7; type = FdType.file }

unused : (j : ℕ) → Laws.contents (3 + j) kernel.task.fds ≡ none
unused j = ground arith

kernel-IsNumbered : IsNumbered kernel
kernel-IsNumbered = record { fds = omega arith; unused = unused }

-- A process with the descriptor 2 that opens the root, and closes the new descriptor again.
abbrev opener : Kernel
opener = record kernel { nodes = no_files }

opener-IsNumbered : IsNumbered opener
opener-IsNumbered = record { fds = omega arith; unused = unused }

abbrev opened : Nodes
opened =
    (close-open 8192 1 0 1 root no_files root-Leads refl no_files-IsMapped refl refl
      (omega arith)).0

root_opened : open_shared_file_node 8192 1 root FdMode.read_only no_files ≡ some (8192, opened)
root_opened =
    (close-open 8192 1 0 1 root no_files root-Leads refl no_files-IsMapped refl refl
      (omega arith)).2

root_inside : check_pointer_validity (2 ^ 48) 8192 (length root) ≡ true
unfolding check_pointer_validity
root_inside = refl

abbrev new_info : FdInfo
new_info = record { node = 8192; mode = FdMode.read_only; offset = 0 }

open_lem_example :
    (k : Kernel) × (current_task_open (2 ^ 48) 8192 8192 root FdMode.read_only opener ≡ some k)
    × (k.nodes ≡ opened)
    × (Laws.contents k.task.return_value opener.task.fds ≡ none)
    × IsOpen k.task.return_value new_info k
    × ((j : ℕ)
        → Laws.contents j k.task.fds
          ≡ (if k.task.return_value == j then some new_info else Laws.contents j opener.task.fds))
    × IsNumbered k
open_lem_example =
    open_lem (2 ^ 48) 8192 8192 root FdMode.read_only opener 8192 opened opener-IsNumbered
      (omega arith) root_inside root_opened (omega arith)

abbrev with_root : Kernel
with_root = record {
  task = record {
    pid = 1;
    has_return_value = false;
    return_value = 0;
    fd_counter = 3;
    fds = record { root = leaf (record { key = 2; value = new_info }); m_size = 1 };
  };
  nodes = opened;
}

with_root-IsNumbered : IsNumbered with_root
with_root-IsNumbered = record { fds = omega arith; unused = unused_root }
  where
    unused_root : (j : ℕ) → Laws.contents (3 + j) with_root.task.fds ≡ none
    unused_root j = ground arith

abbrev closed : Nodes
closed =
    (close-open 8192 1 0 1 root no_files root-Leads refl no_files-IsMapped refl refl
      (omega arith)).1
