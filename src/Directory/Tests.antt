-- ===== src/Directory/Tests.antt =====
-- libwwos/wwfs.cc: a directory of two entries.
use wwos.Prelude.{
  ℕ, zero, suc, ◌+◌, ◌<◌, ◌≡◌, refl, ap, ◌∙◌, arith, some, List, [], ◌∷◌, Bool, true, ◌&&◌, ◌==◌,
  ==_eq, inl, inr, Bool-cases,
}
use wwos.Bytes.{Buffer, zeros, copy, load, store}
use wwos.Disk.{FileSystem, Inode}
use wwos.Disk.Inodes.{get_inode_lem}
use wwos.Wwfs.{get_blockid_of_inode}
use wwos.Wwfs.Content.{content}
use wwos.Directory.{entry, get_children}
use wwos.Directory.Entries.{listing}
use wwos.Directory.Children.{Lists, get_children-listing}

-- "bin" and "shell.sh"
abbrev two_entries : List (List ℕ × ℕ)
two_entries = (98 ∷ 105 ∷ 110 ∷ [], 1) ∷ (115 ∷ 104 ∷ 101 ∷ 108 ∷ 108 ∷ 46 ∷ 115 ∷ 104 ∷ [], 7) ∷ []

-- The inode 0, a directory of 40 bytes in the block 4, stands in block 3.
abbrev disk : FileSystem
disk = record {
  bid_meta = 0;
  bid_bitmap_inode = 1;
  bid_bitmap_data = 2;
  bid_inodes = 3;
  bid_data = 5;
  meta = record { block_size = 128; block_count = 15; inode_count = 2 };
  hw = record {
    memory = listing 1152 two_entries (store 8 (store 8 zeros 392 40) 400 4);
    block_size = 128;
    block_count = 20;
  };
  initialized = true;
}

abbrev inode_0 : Inode
inode_0 = copy disk.hw.memory 384 zeros 0 128

-- The bytes from `i` on, `n` of them, are the same.
abbrev same_bytes : Buffer → Buffer → ℕ → ℕ → Bool
same_bytes a b zero i = true
same_bytes a b (suc n) i = (a i == b i) && same_bytes a b n (i + 1)

same_bytes_lem :
    (a b : Buffer) (n i k : ℕ) → same_bytes a b n i ≡ true → k < n → a (i + k) ≡ b (i + k)
same_bytes_lem a b zero i k e h = absurd (omega arith)
same_bytes_lem a b (suc n) i k e h = elim (Bool-cases (a i == b i)) [
  | inr u ↦ absurd (let f = (rw u at e) in cc)
  | inl u ↦ at_or_behind k (==_eq (a i) (b i) u) (same_bytes_lem a b n (i + 1)) (rw u at e) h
]
  where
    at_or_behind :
        (k : ℕ)
        → a i ≡ b i
        → ((l : ℕ) → same_bytes a b n (i + 1) ≡ true → l < n → a (i + 1 + l) ≡ b (i + 1 + l))
        → same_bytes a b n (i + 1) ≡ true
        → k < suc n
        → a (i + k) ≡ b (i + k)
    at_or_behind zero u rest e h = ap a (omega arith) ∙ (u ∙ ap b (omega arith))
    at_or_behind (suc l) u rest e h =
        ap a (omega arith) ∙ (rest l e (omega arith) ∙ ap b (omega arith))

disk_bytes : same_bytes (content disk (4 ∷ [])) (listing 0 two_entries zeros) 40 0 ≡ true
unfolding copy store entry
disk_bytes = refl

disk-Lists : Lists disk 0 inode_0 (4 ∷ []) two_entries
unfolding get_blockid_of_inode copy load store entry
disk-Lists = record {
  not_negative = refl;
  inode =
      get_inode_lem disk 1 0 (record { some_units = omega arith; meta_size = refl; hw_size = refl })
      ∙ refl;
  directory = refl;
  file = record {
    numbers = refl;
    same_size = refl;
    some_size = omega arith;
    memory_end = omega arith;
    distinct = omega arith;
    inside = omega arith;
    apart = inl (omega arith);
  };
  size = refl;
  room = omega arith;
  bound = omega arith;
  bytes = λ i h.
      ap (content disk (4 ∷ [])) {x = i} {y = 0 + i} (omega arith)
      ∙ (same_bytes_lem (content disk (4 ∷ [])) (listing 0 two_entries zeros) 40 0 i disk_bytes h
          ∙ ap (listing 0 two_entries zeros) {x = 0 + i} {y = i} (omega arith));
  names = ((refl, omega arith), ((refl, omega arith), tt));
}

get_children-listing_example : get_children disk 0 ≡ some two_entries
get_children-listing_example = get_children-listing disk 0 inode_0 (4 ∷ []) two_entries disk-Lists
