-- ===== src/Paths/Tests.antt =====
-- kernel/filesystem.cc: the path "/bin/shell" on an empty disk.
use wwos.Prelude.{ℕ, ◌≡◌, arith, List, [], ◌∷◌, ◌++◌, false, some, ◌>>=◌}
use wwos.Bytes.{zeros}
use wwos.Disk.{FileSystem}
use wwos.Wwfs.{get_root}
use wwos.Directory.{get_children}
use wwos.Paths.{get_inode, get_parent_path}
use wwos.Paths.Walk.{IsName, print, resolve, get_inode-print}
use wwos.Paths.Parent.{get_parent_path-append}

abbrev bin : List ℕ
bin = 98 ∷ 105 ∷ 110 ∷ []

abbrev shell : List ℕ
shell = 115 ∷ 104 ∷ 101 ∷ 108 ∷ 108 ∷ []

abbrev empty_disk : FileSystem
empty_disk = record {
  bid_meta = 0;
  bid_bitmap_inode = 1;
  bid_bitmap_data = 2;
  bid_inodes = 3;
  bid_data = 4;
  meta = record { block_size = 1024; block_count = 64; inode_count = 8 };
  hw = record { memory = zeros; block_size = 1024; block_count = 68 };
  initialized = false;
}

bin-IsName : IsName bin
bin-IsName = (omega arith, (omega arith, (omega arith, tt)))

shell-IsName : IsName shell
shell-IsName = (omega arith, (omega arith, (omega arith, (omega arith, (omega arith, tt)))))

get_inode-print_example :
    (get_inode empty_disk (47 ∷ print bin (shell ∷ [])) ≡ (
      get_children empty_disk get_root
      >>= (λ children. resolve empty_disk children bin (shell ∷ []))))
    × (get_inode empty_disk (47 ∷ (print bin (shell ∷ []) ++ (47 ∷ []))) ≡ (
        get_children empty_disk get_root
        >>= (λ children. resolve empty_disk children bin (shell ∷ []))))
get_inode-print_example = get_inode-print empty_disk bin (shell ∷ []) bin-IsName (shell-IsName, tt)

get_parent_path-append_example :
    (get_parent_path ((47 ∷ bin) ++ (47 ∷ shell)) ≡ some (47 ∷ bin, shell))
    × (get_parent_path ((47 ∷ bin) ++ (47 ∷ (shell ++ (47 ∷ [])))) ≡ some (47 ∷ bin, shell))
get_parent_path-append_example = get_parent_path-append (47 ∷ bin) shell shell-IsName
