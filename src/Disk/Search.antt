-- ===== src/Disk/Search.antt =====
-- libwwos/wwfs.cc: the loops that search a bitmap, over its blocks, their bytes and their bits, and one
-- search through all the bits in a row.
use wwos.Prelude.{
  ℕ, zero, suc, ◌+◌, ◌*◌, ◌/◌, ◌%◌, ◌≤◌, ◌<◌, ◌≡◌, refl, sym, ap, ap₂, ◌∙◌, arith, Bool, true,
  false, if◌then◌else◌, none, some, Option, Bool-cases, Option-cases, inl, inr,
}
use wwos.Bytes.{Buffer}
use wwos.Disk.{test_bit, find_bit, find_byte}

-- The first of the `n` numbers from `k` on where the test is false.
abbrev pub first_clear : ℕ → ℕ → (ℕ → Bool) → Option ℕ
first_clear zero k t = none
first_clear (suc n) k t = if t k then first_clear n (k + 1) t else some k

abbrev pub moved : ℕ → Option ℕ → Option ℕ
moved a none = none
moved a (some k) = some (a + k)

abbrev pub or_else : Option ℕ → Option ℕ → Option ℕ
or_else none o = o
or_else (some k) o = some k

pub first_clear_add :
    (m n k : ℕ) (t : ℕ → Bool)
    → first_clear (m + n) k t ≡ or_else (first_clear m k t) (first_clear n (k + m) t)
first_clear_add zero n k t = ap₂ (λ m i. first_clear m i t) (omega arith) (omega arith)
first_clear_add (suc m) n k t = rw (bridge) (step (t k) refl (first_clear_add m n (k + 1) t))
  where
    bridge : first_clear (suc m + n) k t ≡ (if t k then first_clear (m + n) (k + 1) t else some k)
    bridge = let e : suc m + n ≡ suc (m + n) = omega arith in ap (λ i. first_clear i k t) e

    step :
        (b : Bool)
        → t k ≡ b
        → first_clear (m + n) (k + 1) t
          ≡ or_else (first_clear m (k + 1) t) (first_clear n (k + 1 + m) t)
        → (if t k then first_clear (m + n) (k + 1) t else some k)
          ≡ or_else (if t k then first_clear m (k + 1) t else some k) (first_clear n (k + suc m) t)
    step true e ih =
        rw e (ih ∙ ap (λ i. or_else (first_clear m (k + 1) t) (first_clear n i t)) (omega arith))
    step false e ih = rw e refl

pub first_clear_shift :
    (n a k : ℕ) (t u : ℕ → Bool)
    → ((x : ℕ) → k ≤ x → x < k + n → t (a + x) ≡ u x)
    → first_clear n (a + k) t ≡ moved a (first_clear n k u)
first_clear_shift zero a k t u e = refl
first_clear_shift (suc n) a k t u e =
    let s = first_clear_shift n a (k + 1) t u (λ x p q. e x (omega arith) (omega arith)) in
    elim (Bool-cases (u k)) [
      | inl v ↦
          rw (e k (omega arith) (omega arith), v) (ap (λ i. first_clear n i t) (omega arith) ∙ s)
      | inr v ↦ rw (e k (omega arith) (omega arith), v) refl
    ]

pub first_clear-lt : (n k : ℕ) (t : ℕ → Bool) (r : ℕ) → first_clear n k t ≡ some r → r < k + n
first_clear-lt zero k t r e = absurd (cc)
first_clear-lt (suc n) k t r e = elim (Bool-cases (t k)) [
  | inl v ↦ omega (arith, first_clear-lt n (k + 1) t r (rw v at e))
  | inr v ↦ let f = rw v at e in ground arith
]

pub first_clear-clear : (n k : ℕ) (t : ℕ → Bool) (r : ℕ) → first_clear n k t ≡ some r → t r ≡ false
first_clear-clear zero k t r e = absurd (cc)
first_clear-clear (suc n) k t r e = elim (Bool-cases (t k)) [
  | inl v ↦ first_clear-clear n (k + 1) t r (rw v at e)
  | inr v ↦ let f = rw v at e in ground arith
]

find_bit-eq-first_clear : (n j v : ℕ) → find_bit n j v ≡ first_clear n j (test_bit v)
unfolding find_bit
find_bit-eq-first_clear zero j v = refl
find_bit-eq-first_clear (suc n) j v = elim (Bool-cases (test_bit v j)) [
  | inl e ↦ rw e (find_bit-eq-first_clear n (j + 1) v)
  | inr e ↦ rw e refl
]

-- The bits of the bytes in a row.
abbrev pub bit : Buffer → ℕ → Bool
bit b k = test_bit (b (k / 8)) (k % 8)

abbrev pub flat : Option (ℕ × ℕ) → Option ℕ
flat none = none
flat (some (i, j)) = some (i * 8 + j)

in_byte : (i : ℕ) (b : Buffer) → first_clear 8 (i * 8) (bit b) ≡ moved (i * 8) (find_bit 8 0 (b i))
in_byte i b =
    ap (λ k. first_clear 8 k (bit b)) (omega arith)
    ∙ first_clear_shift 8 (i * 8) 0 (bit b) (test_bit (b i)) (λ x p q.
      ap (λ m. test_bit (b m) ((i * 8 + x) % 8)) (omega arith) ∙ ap (test_bit (b i)) (omega arith))
    ∙ ap (moved (i * 8)) (sym (find_bit-eq-first_clear 8 0 (b i)))

pub find_byte-eq-first_clear :
    (n i : ℕ) (b : Buffer) → first_clear (n * 8) (i * 8) (bit b) ≡ flat (find_byte n i b)
unfolding find_byte
find_byte-eq-first_clear zero i b = refl
find_byte-eq-first_clear (suc n) i b =
    ap (λ m. first_clear m (i * 8) (bit b)) (omega arith)
    ∙ first_clear_add 8 (n * 8) (i * 8) (bit b)
    ∙ ap (λ o. or_else o (first_clear (n * 8) (i * 8 + 8) (bit b))) (in_byte i b)
    ∙ rest (find_bit 8 0 (b i)) refl (
        ap (λ k. first_clear (n * 8) k (bit b)) (omega arith)
        ∙ find_byte-eq-first_clear n (i + 1) b)
  where
    rest :
        (o : Option ℕ)
        → find_bit 8 0 (b i) ≡ o
        → first_clear (n * 8) (i * 8 + 8) (bit b) ≡ flat (find_byte n (i + 1) b)
        → or_else (moved (i * 8) (find_bit 8 0 (b i))) (first_clear (n * 8) (i * 8 + 8) (bit b))
          ≡ flat (find_byte (suc n) i b)
    rest none e next = rw (e, find_byte) next
    rest (some j) e next = rw (e, find_byte) refl

pub find_byte-lt :
    (n i : ℕ) (b : Buffer) (x j : ℕ) → find_byte n i b ≡ some (x, j) → (x < i + n) × (j < 8)
unfolding find_byte
find_byte-lt zero i b x j e = absurd (cc)
find_byte-lt (suc n) i b x j e = elim (Option-cases (find_bit 8 0 (b i))) [
  | inl f ↦ let (p, q) = find_byte-lt n (i + 1) b x j (rw (f, find_byte) at e) in (omega arith, q)
  | inr (m, f) ↦
      let g = rw (f, find_byte) at e in
      let h = first_clear-lt 8 0 (test_bit (b i)) m (sym (find_bit-eq-first_clear 8 0 (b i)) ∙ f) in
      (ground arith, ground arith)
]
