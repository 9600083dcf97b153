-- ===== src/Vector.antt =====
-- include/wwos/vector.h: the growing array. `default` is what `new T[n]` fills an array with. A result
-- `none` is a failed `wwassert` or an access outside the array; an iterator is the index it points to.
pub mod Arrays
pub mod Laws
mod Tests
use wwos.Prelude.{
  ℕ, zero, suc, ◌+◌, ◌-◌, ◌*◌, ◌%◌, ◌^◌, List, [], ◌∷◌, Bool, true, false, Option, none, some,
  ◌>>=◌, ◌==◌, ltb, leb, if◌then◌else◌, length, get_elem?, set, replicate,
}

pub record Vector {ℓ} (A : Type ℓ) : Type ℓ where
  pub m_capacity : ℕ
  pub m_size : ℕ
  pub m_data : List A

module _ {ℓ} {A : Type ℓ} where
  abbrev pub new : A → Vector A
  new default = record { m_capacity = 16; m_size = 0; m_data = replicate 16 default }

  abbrev pub new_sized : A → ℕ → Vector A
  new_sized default size = record {
    m_capacity = size;
    m_size = size;
    m_data = replicate size default;
  }

  -- `array[i] = x`
  abbrev pub assign : List A → ℕ → A → Option (List A)
  assign xs i x = if ltb i (length xs) then some (set xs i x) else none

  -- `to[i] = from[i]`, for `n` indices from `i` on.
  pub copy_elements : ℕ → ℕ → List A → List A → Option (List A)
  copy_elements zero i from to = some to
  copy_elements (suc n) i from to =
      get_elem? from i >>= (λ x. assign to i x >>= (λ to'. copy_elements n (i + 1) from to'))

  -- The copy constructor
  pub copy : A → Vector A → Option (Vector A)
  copy default other =
      copy_elements other.m_size 0 other.m_data (replicate other.m_capacity default)
      >>= (λ d. some (record { m_capacity = other.m_capacity; m_size = other.m_size; m_data = d }))

  pub expand : A → Vector A → Option (Vector A)
  expand default v =
      if v.m_size == v.m_capacity
      then copy_elements v.m_size 0 v.m_data (replicate (v.m_capacity * 2) default)
        >>= (λ d. some (record v { m_capacity = v.m_capacity * 2; m_data = d }))
      else some v

  pub push_back : A → A → Vector A → Option (Vector A)
  push_back default x v = expand default v >>= (λ e.
      assign e.m_data e.m_size x >>= (λ d. some (record e { m_data = d; m_size = e.m_size + 1 })))

  abbrev pub at : Vector A → ℕ → Option A
  at v i = get_elem? v.m_data i

  pub back : Vector A → Option A
  back v = get_elem? v.m_data ((v.m_size + (2 ^ 64 - 1)) % 2 ^ 64)

  abbrev pub pop_back : Vector A → Vector A
  pop_back v = record v { m_size = (v.m_size + (2 ^ 64 - 1)) % 2 ^ 64 }

  abbrev pub clear : Vector A → Vector A
  clear v = record v { m_size = 0 }

  -- `array[i] = array[i - 1]`, for the `n` indices that end at `i`.
  pub shift_up : ℕ → ℕ → List A → Option (List A)
  shift_up zero i xs = some xs
  shift_up (suc n) i xs =
      get_elem? xs (i - 1) >>= (λ x. assign xs i x >>= (λ xs'. shift_up n (i - 1) xs'))

  -- An iterator of a full vector points to the array that `expand` deletes.
  pub insert : A → ℕ → A → Vector A → Option (Vector A)
  insert default position x v =
      if v.m_size == v.m_capacity
      then none
      else if leb position v.m_size
      then shift_up (v.m_size - position) v.m_size v.m_data >>= (λ d.
        assign d position x >>= (λ d'. some (record v { m_data = d'; m_size = v.m_size + 1 })))
      else none

  -- `array[i] = array[i + 1]`, for `n` indices from `i` on.
  pub shift_down : ℕ → ℕ → List A → Option (List A)
  shift_down zero i xs = some xs
  shift_down (suc n) i xs =
      get_elem? xs (i + 1) >>= (λ x. assign xs i x >>= (λ xs'. shift_down n (i + 1) xs'))

  pub erase : ℕ → Vector A → Option (Vector A)
  erase position v =
      let last = (v.m_size + (2 ^ 64 - 1)) % 2 ^ 64 in
      shift_down (last - position) position v.m_data
      >>= (λ d. some (record v { m_data = d; m_size = last }))

  -- The index of the iterator, by the test for equality of the element type.
  abbrev pub find_from : (A → Bool) → ℕ → ℕ → List A → Option ℕ
  find_from is_value zero i xs = some i
  find_from is_value (suc n) i xs =
      get_elem? xs i
      >>= (λ x. let rest = find_from is_value n (i + 1) xs in if is_value x then some i else rest)

  pub find : (A → Bool) → Vector A → Option ℕ
  find is_value v = find_from is_value v.m_size 0 v.m_data
