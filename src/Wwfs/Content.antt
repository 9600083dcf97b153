-- ===== src/Wwfs/Content.antt =====
-- libwwos/wwfs.cc: the bytes of a file, by the numbers of its blocks.
use native.Mathlib.Nat.{div-add-mod, mod-lt, div-lt_iff_lt-mul, le-div_iff_mul-le}
use wwos.Prelude.{
  ℕ, zero, suc, ◌+◌, ◌-◌, ◌*◌, ◌/◌, ◌%◌, ◌^◌, ◌≤◌, ◌<◌, ◌≡◌, ◌≢◌, ◌⊎◌, inl, inr, refl, sym, ap, ap₂,
  ◌∙◌, arith, List, [], ◌∷◌, some, ltb, Option, ◌>>=◌, if◌then◌else◌, All, length, get_or,
  Option-cases, ==_eq, ==_ne, ◌==◌, Bool-cases, subst,
}
use wwos.Bytes.{in_range}
use wwos.Bytes.Copies.{in_range-true, in_range-lower, in_range-upper}
use wwos.Disk.{FileSystem, Inode, block_l1}
use wwos.Disk.Blocks.{IsInside}
use wwos.Wwfs.{get_blockid_of_inode}

-- The numbers of `count` blocks of the file, from block `i` on.
abbrev pub file_blocks : ℕ → ℕ → FileSystem → Inode → Option (List ℕ)
file_blocks zero i fs n = some []
file_blocks (suc count) i fs n =
    get_blockid_of_inode fs n i >>= (λ b. file_blocks count (i + 1) fs n >>= (λ bs. some (b ∷ bs)))

abbrev pub IsDistinct : List ℕ → Type 0
IsDistinct [] = Unit
IsDistinct (b ∷ bs) = All (λ c. b ≢ c) bs × IsDistinct bs

-- `blocks` are the blocks of the inode `n`: distinct, in the memory, and none the block of numbers.
pub record IsFile (fs : FileSystem) (n : Inode) (blocks : List ℕ) : Type 0 where
  pub numbers : file_blocks (length blocks) 0 fs n ≡ some blocks
  pub same_size : fs.hw.block_size ≡ fs.meta.block_size
  pub some_size : 0 < fs.meta.block_size
  pub memory_end : fs.hw.block_count ≤ 2 ^ 64
  pub distinct : IsDistinct blocks
  pub inside : All (IsInside fs) blocks
  pub apart : (length blocks ≤ 10) ⊎ (All (λ b. block_l1 n ≢ b) blocks × IsInside fs (block_l1 n))

-- Where byte `p` of the file stands in the memory.
abbrev pub place : FileSystem → List ℕ → ℕ → ℕ
place fs blocks p =
    (fs.bid_data + get_or blocks (p / fs.meta.block_size) 0) * fs.hw.block_size
    + p % fs.meta.block_size

-- Byte `p` of the file; 0 behind its last block.
abbrev pub content : FileSystem → List ℕ → ℕ → ℕ
content fs blocks p =
    if ltb (p / fs.meta.block_size) (length blocks) then fs.hw.memory (place fs blocks p) else 0

pub All-get_or {κ} :
    (P : ℕ → Type κ) (xs : List ℕ) (i d : ℕ) → All P xs → i < length xs → P (get_or xs i d)
All-get_or P [] i d a h = absurd (omega arith)
All-get_or P (x ∷ xs) zero d a h = a.0
All-get_or P (x ∷ xs) (suc i) d a h = All-get_or P xs i d a.1 (omega arith)

pub get_or_distinct :
    (xs : List ℕ) (i j d : ℕ)
    → IsDistinct xs
    → i < length xs
    → j < length xs
    → i ≢ j
    → get_or xs i d ≢ get_or xs j d
get_or_distinct [] i j d a p q n = absurd (omega arith)
get_or_distinct (x ∷ xs) zero zero d a p q n = absurd (n refl)
get_or_distinct (x ∷ xs) zero (suc j) d a p q n = All-get_or (λ c. x ≢ c) xs j d a.0 (omega arith)
get_or_distinct (x ∷ xs) (suc i) zero d a p q n =
    λ e. All-get_or (λ c. x ≢ c) xs i d a.0 (omega arith) (sym e)
get_or_distinct (x ∷ xs) (suc i) (suc j) d a p q n =
    get_or_distinct xs i j d a.1 (omega arith) (omega arith) (λ e. n (ap suc e))

file_blocks-cons :
    (m : ℕ) (b : ℕ) (bs : List ℕ) (i : ℕ) (fs : FileSystem) (n : Inode)
    → file_blocks (suc m) i fs n ≡ some (b ∷ bs)
    → (get_blockid_of_inode fs n i ≡ some b) × (file_blocks m (i + 1) fs n ≡ some bs)
file_blocks-cons m b bs i fs n e = elim (Option-cases (get_blockid_of_inode fs n i)) [
  | inl f ↦ absurd (let g = rw (f, ◌>>=◌) at e in cc)
  | inr (c, f) ↦ elim (Option-cases (file_blocks m (i + 1) fs n)) [
    | inl g ↦ absurd (let k = rw (f, g, ◌>>=◌) at e in cc)
    | inr (cs, g) ↦ (let k = rw (f, g, ◌>>=◌) at e in (cc, cc))
  ]
]

pub file_blocks-get_or :
    (bs : List ℕ) (i : ℕ) (fs : FileSystem) (n : Inode) (j : ℕ)
    → file_blocks (length bs) i fs n ≡ some bs
    → j < length bs
    → get_blockid_of_inode fs n (i + j) ≡ some (get_or bs j 0)
file_blocks-get_or [] i fs n j e h = absurd (omega arith)
file_blocks-get_or (b ∷ bs) i fs n zero e h =
    ap (get_blockid_of_inode fs n) (omega arith) ∙ (file_blocks-cons (length bs) b bs i fs n e).0
file_blocks-get_or (b ∷ bs) i fs n (suc j) e h =
    ap (get_blockid_of_inode fs n) (omega arith)
    ∙ file_blocks-get_or bs (i + 1) fs n j (file_blocks-cons (length bs) b bs i fs n e).1
        (omega arith)

pub file_blocks-congr :
    (count i : ℕ) (fs fs' : FileSystem) (n : Inode)
    → ((j : ℕ) → j < i + count → get_blockid_of_inode fs' n j ≡ get_blockid_of_inode fs n j)
    → file_blocks count i fs' n ≡ file_blocks count i fs n
file_blocks-congr zero i fs fs' n e = refl
file_blocks-congr (suc count) i fs fs' n e =
    ap₂ (λ (a : Option ℕ) (r : Option (List ℕ)). a >>= (λ b. r >>= (λ bs. some (b ∷ bs))))
      (e i (omega arith)) (file_blocks-congr count (i + 1) fs fs' n (λ j p. e j (omega arith)))

-- Which block a byte stands in.
pub div_unique : (x s k : ℕ) → k * s ≤ x → x < k * s + s → x / s ≡ k
div_unique x s k p q =
    let z : 0 < s = omega (arith, p, q) in
    let u : x / s < suc k = (div-lt_iff_lt-mul z).1 (omega (arith, q)) in
    let v : k ≤ x / s = (le-div_iff_mul-le z).1 p in omega (arith, u, v)

pub div_bounds : (x s : ℕ) → 0 < s → (x / s * s ≤ x) × (x < x / s * s + s)
div_bounds x s z =
    let e : s * (x / s) + x % s ≡ x = div-add-mod x s in
    let l : x % s < s = mod-lt x z in (omega (arith, e), omega (arith, e, l))

pub div_mono : (x y s : ℕ) → 0 < s → x ≤ y → x / s ≤ y / s
div_mono x y s z h = (le-div_iff_mul-le z).1 (omega (arith, (div_bounds x s z).0, h))

pub ==-in_range : (x s k : ℕ) → 0 < s → (x / s == k) ≡ in_range (k * s) s x
==-in_range x s k z = elim (Bool-cases (x / s == k)) [
  | inl e ↦
      let q = ==_eq (x / s) k e in
      let b = subst (λ m. (m * s ≤ x) × (x < m * s + s)) q (div_bounds x s z) in
      e ∙ sym (in_range-true (k * s) s x b.0 b.1)
  | inr e ↦
      let q = ==_ne (x / s) k e in
      elim (Bool-cases (in_range (k * s) s x)) [
        | inl f ↦
            absurd
              (q (div_unique x s k (in_range-lower (k * s) s x f) (in_range-upper (k * s) s x f)))
        | inr f ↦ e ∙ sym f
      ]
]

pub place_lem :
    (fs : FileSystem) (blocks : List ℕ) (p k : ℕ)
    → p / fs.meta.block_size ≡ k
    → place fs blocks p
      ≡ (fs.bid_data + get_or blocks k 0) * fs.hw.block_size + (p - k * fs.meta.block_size)
place_lem fs blocks p k e =
    let s = fs.meta.block_size in
    let d : s * (p / s) + p % s ≡ p = div-add-mod p s in
    let f : s * (p / s) ≡ s * k = ap (λ (m : ℕ). s * m) e in
    ap₂ (λ (m r : ℕ). (fs.bid_data + get_or blocks m 0) * fs.hw.block_size + r) e
      (omega (arith, d, f))
