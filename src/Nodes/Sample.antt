-- ===== src/Nodes/Sample.antt =====
-- kernel/filesystem.cc: a disk of which no file is open, and the path of its root.
use wwos.Prelude.{ℕ, refl, ap, ◌∙◌, arith, List, [], ◌∷◌, some, ◌>>=◌}
use wwos.AvlTree
use wwos.Disk.{type_of}
use wwos.Wwfs.{get_root, get_inode_type}
use wwos.Wwfs.Sample.{disk, disk_inode, type_0}
use wwos.Paths.{get_inode}
use wwos.Nodes.{FdType, Nodes}
use wwos.Nodes.Opening.Sharing.{Leads, IsMapped}

abbrev pub root : List ℕ
root = 47 ∷ []

abbrev pub no_files : Nodes
no_files = record {
  fs = disk;
  node = λ p. record { inode = 0; type = FdType.file; readers = []; writers = [] };
  p_snode_inode = AvlTree.new;
  p_inode_snode = AvlTree.new;
  p_fifo = AvlTree.new;
}

pub root-Leads : Leads disk root 0 1
unfolding get_inode get_root get_inode_type
root-Leads = record {
  found = refl;
  small = omega arith;
  type_is = ap (λ o. o >>= (λ n. some (type_of n))) disk_inode ∙ ap some type_0;
}

pub no_files-IsMapped : IsMapped no_files
no_files-IsMapped = record { inodes = omega arith; snodes = omega arith }
