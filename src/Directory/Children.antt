-- ===== src/Directory/Children.antt =====
-- libwwos/wwfs.cc: `get_children` of a directory whose file holds the entries of `create`.
use mathlib.Core.Path.{fun_ext}
use wwos.Prelude.{
  ℕ, ◌+◌, ◌*◌, ◌^◌, ◌≤◌, ◌<◌, ◌≡◌, refl, sym, ap, ◌∙◌, arith, List, [], ◌∷◌, inl, inr, false, some,
  ◌>>=◌, ◌==◌, ==_true, ==_eq, ==_ne, length, All, Bool-cases, dec_lt, if◌then◌else◌,
}
use wwos.Bytes.{Buffer, zeros, copy, in_range}
use wwos.Bytes.Copies.{copy-outside, in_range-true, in_range-false}
use wwos.Disk.{FileSystem, Inode, InodeType, code, type_of, size_of, get_inode}
use wwos.Wwfs.{is_negative, read_inode_data}
use wwos.Wwfs.Content.{IsFile, content}
use wwos.Wwfs.Reads.{read_inode_data_lem}
use wwos.Directory.{entry, entry_size, entries, get_children}
use wwos.Directory.Entries.{IsEntry, listing, listing_size, entries-listing}

listing-above :
    (es : List (List ℕ × ℕ)) (i : ℕ) (b : Buffer) (x : ℕ)
    → i + listing_size es ≤ x
    → listing i es b x ≡ b x
listing-above [] i b x h = refl
listing-above ((name, id) ∷ es) i b x h =
    listing-above es (i + entry_size name) (copy (entry name id) 0 b i (entry_size name)) x
      (omega arith)
    ∙ copy-outside (entry name id) 0 b i (entry_size name) x (inr (omega arith))

length-listing : (es : List (List ℕ × ℕ)) → length es ≤ listing_size es
length-listing [] = omega arith
length-listing ((name, id) ∷ es) = omega (arith, length-listing es)

-- The file of the directory holds these entries, one behind the other, and nothing else.
pub record Lists (fs : FileSystem) (id : ℕ) (n : Inode) (blocks : List ℕ) (es : List (List ℕ × ℕ))
    : Type 0 where
  pub not_negative : is_negative id ≡ false
  pub inode : get_inode fs id ≡ some n
  pub directory : type_of n ≡ code InodeType.directory
  pub file : IsFile fs n blocks
  pub size : size_of n ≡ listing_size es
  pub room : size_of n ≤ length blocks * fs.meta.block_size
  pub bound : size_of n < 2 ^ 64
  pub bytes : (i : ℕ) → i < size_of n → content fs blocks i ≡ listing 0 es zeros i
  pub names : All IsEntry es

read_all :
    (fs : FileSystem) (id : ℕ) (n : Inode) (blocks : List ℕ) (es : List (List ℕ × ℕ))
    → Lists fs id n blocks es
    → 0 < size_of n
    → read_inode_data fs n 0 (size_of n) zeros ≡ some (listing 0 es zeros)
read_all fs id n blocks es l z =
    let (out, f, g) =
      read_inode_data_lem fs n blocks 0 (size_of n) zeros l.file (omega (arith, l.room))
        (omega (arith, l.bound)) z in
    f ∙ ap some (fun_ext (λ i. g i ∙ same i (dec_lt i (size_of n))))
  where
    same :
        (i : ℕ)
        → Dec (i < size_of n)
        → (if in_range 0 (size_of n) i then content fs blocks (0 + i) else zeros i)
          ≡ listing 0 es zeros i
    same i (yes p) =
        rw (in_range-true 0 (size_of n) i (omega arith) (omega arith))
          (ap (content fs blocks) (omega arith) ∙ l.bytes i p)
    same i (no p) =
        rw (in_range-false 0 (size_of n) i (inr (omega (arith, p))))
          (sym (listing-above es 0 zeros i (omega (arith, p, l.size))))

-- `get_children` of a directory whose file holds entries as `create` writes them, one behind the other,
-- gives their names and inodes in this order.
pub get_children-listing :
    (fs : FileSystem) (id : ℕ) (n : Inode) (blocks : List ℕ) (es : List (List ℕ × ℕ))
    → Lists fs id n blocks es
    → get_children fs id ≡ some es
unfolding get_children
get_children-listing fs id n blocks es l = elim (Bool-cases (size_of n == 0)) [
  | inl e ↦
      rw
        (
          l.not_negative,
          l.inode,
          ◌>>=◌,
          ==_true (type_of n) (code InodeType.directory) l.directory,
          e,
        )
        (nothing es (omega (arith, l.size, ==_eq (size_of n) 0 e)))
  | inr e ↦
      rw
        (
          l.not_negative,
          l.inode,
          ◌>>=◌,
          ==_true (type_of n) (code InodeType.directory) l.directory,
          e,
        )
        (ap (λ o. o >>= (λ b. entries (size_of n) 0 (size_of n) b))
            (read_all fs id n blocks es l (omega (arith, ==_ne (size_of n) 0 e)))
          ∙ ap (λ k. entries (size_of n) 0 k (listing 0 es zeros)) {x = size_of n}
              {y = 0 + listing_size es} (omega (arith, l.size))
          ∙ entries-listing es (size_of n) 0 zeros l.names
              (omega (arith, l.size, length-listing es)))
]
  where
    nothing : (es : List (List ℕ × ℕ)) → listing_size es ≡ 0 → some [] ≡ some es
    nothing [] z = refl
    nothing ((name, child) ∷ es) z = absurd (omega arith)
