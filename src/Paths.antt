-- ===== src/Paths.antt =====
-- kernel/filesystem.cc: `get_inode` and `get_parent_path`. A path is the list of its characters; the
-- index into it, which only moves forward, is the list of the characters that are left. Inodes are
-- words; -1 is `2 ^ 64 - 1`. A result `none` is a failed `wwassert` or an access out of bounds.
mod Names
pub mod Walk
pub mod Parent
mod Tests
use wwos.Prelude.{
  ℕ, zero, suc, ◌-◌, ◌^◌, List, [], ◌∷◌, Bool, true, false, Option, none, some, ◌>>=◌, ◌==◌,
  if◌then◌else◌, length,
}
use wwos.Disk.{FileSystem, InodeType, code}
use wwos.Wwfs.{get_inode_type, get_root}
use wwos.Directory.{get_children, is_name}

abbrev pub minus_one : ℕ
minus_one = 2 ^ 64 - 1

abbrev pub root_path : List ℕ
root_path = 47 ∷ []

-- `path.substr(0, path.size() - 1)` where the last character is a slash.
abbrev pub without_slash : List ℕ → List ℕ
without_slash [] = []
without_slash (c ∷ []) = if c == 47 then [] else c ∷ []
without_slash (c ∷ (d ∷ cs)) = c ∷ without_slash (d ∷ cs)

-- The piece up to the next slash, and what stands behind that slash, if there is one.
abbrev pub name_piece : List ℕ → List ℕ
name_piece [] = []
name_piece (c ∷ cs) = if c == 47 then [] else c ∷ name_piece cs

abbrev pub behind_slash : List ℕ → Option (List ℕ)
behind_slash [] = none
behind_slash (c ∷ cs) = if c == 47 then some cs else behind_slash cs

-- The loop over `children`.
abbrev pub find_child : List ℕ → List (List ℕ × ℕ) → Option ℕ
find_child name [] = none
find_child name ((child, id) ∷ children) =
    if is_name child name then some id else find_child name children

-- The loop over the pieces, with `fuel` rounds at most.
pub walk : ℕ → FileSystem → List (List ℕ × ℕ) → List ℕ → Option ℕ
walk fuel fs children [] = some minus_one
walk zero fs children (c ∷ cs) = none
walk (suc fuel) fs children (c ∷ cs) = elim (find_child (name_piece (c ∷ cs)) children) [
  | none ↦ some minus_one
  | some id ↦ elim (behind_slash (c ∷ cs)) [
    | none ↦ some id
    | some rest ↦ get_inode_type fs id >>= (λ type.
        if type == code InodeType.directory
        then get_children fs id >>= (λ next. walk fuel fs next rest)
        else some minus_one)
  ]
]

-- Behind the first character, which is a slash.
pub from_root : FileSystem → List ℕ → Option ℕ
from_root fs cs =
    get_children fs get_root >>= (λ children. walk (length cs) fs children (without_slash cs))

abbrev pub rooted : FileSystem → List ℕ → Option ℕ
rooted fs [] = some minus_one
rooted fs (c ∷ cs) = if c == 47 then from_root fs cs else some minus_one

unfoldable pub get_inode : FileSystem → List ℕ → Option ℕ
get_inode fs path = if is_name path root_path then some get_root else rooted fs path

-- Before and behind the last slash; where there is none, the search leaves the path.
pub split_last : List ℕ → Option (List ℕ × List ℕ)
split_last [] = none
split_last (c ∷ cs) = elim (split_last cs) [
  | some (a, b) ↦ some (c ∷ a, b)
  | none ↦ if c == 47 then some ([], cs) else none
]

abbrev pub or_root : List ℕ → List ℕ
or_root [] = root_path
or_root (c ∷ cs) = c ∷ cs

-- The pair of two empty texts says that the path has no parent.
pub get_parent_path : List ℕ → Option (List ℕ × List ℕ)
get_parent_path [] = some ([], [])
get_parent_path (c ∷ cs) =
    if is_name (c ∷ cs) root_path
    then some ([], [])
    else split_last (without_slash (c ∷ cs)) >>= (λ s. some (or_root s.0, s.1))
