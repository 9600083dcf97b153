-- ===== src/Queue/Deque.antt =====
-- What a queue of fixed capacity promises: a list, front first.
use wwos.Prelude.{
  ℕ, List, [], ◌∷◌, ◌++◌, Bool, true, false, Option, none, some, ◌==◌, if◌then◌else◌, length, ◌≡◌,
  refl,
}

module _ {T : Type 0} where
  abbrev pub push : ℕ → T → List T → Bool × List T
  push capacity x xs = if length xs == capacity then (false, xs) else (true, xs ++ (x ∷ []))

  abbrev pub push_front : ℕ → T → List T → Bool × List T
  push_front capacity x xs = if length xs == capacity then (false, xs) else (true, x ∷ xs)

  abbrev pub pop : List T → Bool × Option T × List T
  pop [] = (false, none, [])
  pop (x ∷ xs) = (true, some x, xs)

  abbrev pub get_front : List T → Bool × Option T
  get_front [] = (false, none)
  get_front (x ∷ xs) = (true, some x)

  abbrev split_last : T → List T → T × List T
  split_last x [] = (x, [])
  split_last x (y ∷ ys) = let (z, zs) = split_last y ys in (z, x ∷ zs)

  abbrev pub pop_back : List T → Bool × Option T × List T
  pop_back [] = (false, none, [])
  pop_back (x ∷ xs) = let (z, zs) = split_last x xs in (true, some z, zs)

  split_last-append : (y : T) (ys : List T) (x : T) → split_last y (ys ++ (x ∷ [])) ≡ (x, y ∷ ys)
  split_last-append y [] x = refl
  split_last-append y (z ∷ zs) x = rw (split_last-append z zs x)

  pub pop_back-append : (xs : List T) (x : T) → pop_back (xs ++ (x ∷ [])) ≡ (true, some x, xs)
  pop_back-append [] x = refl
  pop_back-append (y ∷ ys) x = rw (split_last-append y ys x)
