-- ===== src/Directory.antt =====
-- libwwos/wwfs.cc: directories, and the disk that `format` leaves. The names and inodes of a directory
-- are the data of its file. A result `none` is a failed `wwassert` or an access out of bounds.
pub mod Entries
pub mod Children
mod Tests
use wwos.Prelude.{
  ℕ, zero, suc, ◌+◌, ◌-◌, ◌*◌, ◌/◌, ◌%◌, ◌^◌, List, [], ◌∷◌, Bool, true, false, not, ◌&&◌, ◌||◌,
  Option, none, some, ◌>>=◌, ◌==◌, ltb, leb, if◌then◌else◌, length,
}
use wwos.Bytes.{Buffer, zeros, copy, load, store}
use wwos.Disk.{
  FileSystem, Meta, InodeType, code, type_of, size_of, set_type, set_size, store_meta, write,
  initialize, get_inode, set_inode, with_hw, allocate_inode,
}
use wwos.Wwfs.{read_inode_data, write_inode_data, resize_inode, is_negative}

-- `align_up<size_t>(n, 8)`
abbrev pub align_up_8 : ℕ → ℕ
align_up_8 n = (n + 7) / 8 * 8

-- The characters behind a pointer; behind the last, a read is out of bounds and gives 0.
abbrev pub chars : List ℕ → Buffer
chars [] i = 0
chars (c ∷ cs) zero = c
chars (c ∷ cs) (suc i) = chars cs i

-- The entry that `create` appends.
abbrev pub entry_size : List ℕ → ℕ
entry_size name = align_up_8 (length name + 1) + 8

unfoldable pub entry : List ℕ → ℕ → Buffer
entry name id =
    store 8 (copy (chars name) 0 zeros 0 (length name)) (align_up_8 (length name + 1)) id

-- `string_view(buffer + i)`, with `n` bytes of the buffer to go: the characters before the first 0.
unfoldable pub c_string : ℕ → ℕ → Buffer → Option (List ℕ)
c_string zero i b = none
c_string (suc n) i b =
    let rest = c_string n (i + 1) b in
    if b i == 0 then some [] else rest >>= (λ cs. some (b i ∷ cs))

-- The loop of `get_children` from the byte `i` on, with `fuel` rounds at most.
unfoldable pub entries : ℕ → ℕ → ℕ → Buffer → Option (List (List ℕ × ℕ))
entries zero i size b = if ltb i size then none else some []
entries (suc fuel) i size b =
    if ltb i size
    then c_string (size - i) i b >>= (λ name.
      let at = i + align_up_8 (length name + 1) in
      entries fuel (at + 8) size b >>= (λ es. some ((name, load 8 b at) ∷ es)))
    else some []

-- For a negative inode, -1 becomes the length of a vector that no memory holds. Each round passes at
-- least 16 bytes, so `size` rounds are enough.
unfoldable pub get_children : FileSystem → ℕ → Option (List (List ℕ × ℕ))
get_children fs id =
    if is_negative id
    then none
    else get_inode fs id >>= (λ n.
      if type_of n == code InodeType.directory
      then (if size_of n == 0
          then some []
          else read_inode_data fs n 0 (size_of n) zeros
            >>= (λ b. entries (size_of n) 0 (size_of n) b))
      else none)

abbrev pub is_name : List ℕ → List ℕ → Bool
is_name [] [] = true
is_name (c ∷ cs) (d ∷ ds) = (c == d) && is_name cs ds
is_name cs ds = false

abbrev pub has_name : List ℕ → List (List ℕ × ℕ) → Bool
has_name name [] = false
has_name name ((child, id) ∷ es) = is_name child name || has_name name es

abbrev pub has_zero : List ℕ → Bool
has_zero [] = false
has_zero (c ∷ cs) = (c == 0) || has_zero cs

-- The new entry behind those of the parent.
pub append_entry : FileSystem → ℕ → List ℕ → ℕ → Option FileSystem
append_entry fs parent name id = get_inode fs parent >>= (λ p.
    if type_of p == code InodeType.directory
    then resize_inode fs parent ((size_of p + entry_size name) % 2 ^ 64) >>= (λ r.
      if has_zero name
      then none
      else write_inode_data r.1 r.0 (size_of r.0 - entry_size name) (entry_size name)
          (entry name id))
    else none)

pub create : FileSystem → ℕ → List ℕ → InodeType → Option (ℕ × FileSystem)
create fs parent name type =
    if is_negative parent
    then some (2 ^ 64 - 1, fs)
    else get_children fs parent >>= (λ children.
      if has_name name children
      then some (2 ^ 64 - 1, fs)
      else allocate_inode fs >>= (λ a.
        if a.0 == 2 ^ 64 - 1
        then none
        else get_inode a.1 a.0 >>= (λ n.
          set_inode a.1 a.0 (set_size 0 (set_type type n))
          >>= (λ fs'. append_entry fs' parent name a.0 >>= (λ fs''. some (a.0, fs''))))))

-- The loop that zeroes the bitmaps, with `n` blocks to go.
pub zero_blocks : ℕ → ℕ → FileSystem → Option FileSystem
zero_blocks zero bid fs = some fs
zero_blocks (suc n) bid fs =
    write fs.hw bid zeros 0 >>= (λ hw. zero_blocks n (bid + 1) (with_hw fs hw))

pub format : FileSystem → Meta → Option FileSystem
format fs meta = write fs.hw fs.bid_meta (store_meta meta) 0 >>= (λ hw.
    initialize (with_hw (record fs { meta = meta }) hw) >>= (λ fs0.
      zero_blocks (fs0.bid_inodes - fs0.bid_bitmap_inode) fs0.bid_bitmap_inode fs0 >>= (λ fs1.
        allocate_inode fs1 >>= (λ a.
          if a.0 == 0
          then get_inode a.1 a.0
            >>= (λ n. set_inode a.1 a.0 (set_size 0 (set_type InodeType.directory n)))
          else none))))
