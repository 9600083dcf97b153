-- ===== src/Bytes/Words.antt =====
-- libwwos/wwfs.cc: a word that is read is the word that was written.
use native.Mathlib.Nat.{pow-suc}
use wwos.Prelude.{
  ℕ, zero, suc, ◌+◌, ◌*◌, ◌/◌, ◌%◌, ◌^◌, ◌≤◌, ◌<◌, ◌≡◌, ◌⊎◌, inl, inr, refl, ap, ap₂, ◌∙◌, arith,
  ==_true, ==_false,
}
use wwos.Bytes.{Buffer, put, load, store}

pub store-below : (n : ℕ) (b : Buffer) (o v i : ℕ) → i < o → store n b o v i ≡ b i
unfolding store
store-below zero b o v i h = refl
store-below (suc n) b o v i h =
    store-below n (put b o (v % 256)) (o + 1) (v / 256) i (omega arith)
    ∙ rw (==_false o i (omega arith))

pub store-above : (n : ℕ) (b : Buffer) (o v i : ℕ) → o + n ≤ i → store n b o v i ≡ b i
unfolding store
store-above zero b o v i h = refl
store-above (suc n) b o v i h =
    store-above n (put b o (v % 256)) (o + 1) (v / 256) i (omega arith)
    ∙ rw (==_false o i (omega arith))

pub load-congr :
    (n : ℕ) (a b : Buffer) (o : ℕ)
    → ((i : ℕ) → o ≤ i → i < o + n → a i ≡ b i)
    → load n a o ≡ load n b o
unfolding load
load-congr zero a b o e = refl
load-congr (suc n) a b o e =
    ap₂ (λ (x y : ℕ). x + 256 * y) (e o (omega arith) (omega arith))
      (load-congr n a b (o + 1) (λ i p q. e i (omega arith) (omega arith)))

-- What is stored as `n` bytes is loaded again, if it fits in them.
pub load-store : (n : ℕ) (b : Buffer) (o v : ℕ) → v < 256 ^ n → load n (store n b o v) o ≡ v
unfolding load store
load-store zero b o v h = omega arith
load-store (suc n) b o v h =
    let first : store n (put b o (v % 256)) (o + 1) (v / 256) o ≡ v % 256 =
      store-below n (put b o (v % 256)) (o + 1) (v / 256) o (omega arith) ∙ rw (==_true o o refl) in
    let rest = load-store n (put b o (v % 256)) (o + 1) (v / 256) (omega (arith, pow-suc 256 n)) in
    omega (arith, first, rest)

-- A word that lies apart from the one stored is not changed.
pub load-store_apart :
    (m n : ℕ) (b : Buffer) (p o v : ℕ)
    → (p + m ≤ o) ⊎ (o + n ≤ p)
    → load m (store n b o v) p ≡ load m b p
load-store_apart m n b p o v (inl h) =
    load-congr m (store n b o v) b p (λ i s t. store-below n b o v i (omega arith))
load-store_apart m n b p o v (inr h) =
    load-congr m (store n b o v) b p (λ i s t. store-above n b o v i (omega arith))

pub load-shift :
    (n : ℕ) (a b : Buffer) (i o : ℕ)
    → ((k : ℕ) → k < o + n → a (i + k) ≡ b k)
    → load n a (i + o) ≡ load n b o
unfolding load
load-shift zero a b i o e = refl
load-shift (suc n) a b i o e =
    ap₂ (λ (x y : ℕ). x + 256 * y) (e o (omega arith))
      (ap (load n a) (omega arith) ∙ load-shift n a b i (o + 1) (λ k h. e k (omega (arith, h))))
