-- ===== src/Strings.antt =====
-- include/wwos/string.h, include/wwos/string_view.h, include/wwos/algorithm.h: strings. A string is a
-- vector of bytes that ends with a 0; a string_view is the list of its characters. A result `none` is
-- an access outside an array or a failed `wwassert`.
pub mod Laws
mod Tests
use wwos.Prelude.{
  ℕ, zero, suc, ◌+◌, ◌-◌, ◌*◌, ◌%◌, ◌^◌, List, [], ◌∷◌, ◌++◌, Bool, true, false, not, ◌&&◌, ◌||◌,
  Option, none, some, ◌>>=◌, ◌==◌, ltb, leb, if◌then◌else◌, length, get_elem?, get_or,
}
use wwos.Vector
use wwos.Vector.{Vector, assign}

abbrev pub is_space_char : ℕ → Bool
is_space_char c = ((c == 32) || (c == 9)) || ((c == 10) || (c == 13))

pub new : Option (Vector ℕ)
new = Vector.push_back 0 0 (Vector.new 0)

abbrev pub minus_1 : ℕ → ℕ
minus_1 n = (n + (2 ^ 64 - 1)) % 2 ^ 64

abbrev pub size : Vector ℕ → ℕ
size s = minus_1 s.m_size

pub push_back : ℕ → Vector ℕ → Option (Vector ℕ)
push_back c s = assign s.m_data (size s) c >>= (λ d. Vector.push_back 0 0 (record s { m_data = d }))

-- The loops that append `n` characters of an array, from `i` on.
pub append_from : ℕ → ℕ → List ℕ → Vector ℕ → Option (Vector ℕ)
append_from zero i from s = some s
append_from (suc n) i from s =
    get_elem? from i >>= (λ c. push_back c s >>= (λ s'. append_from n (i + 1) from s'))

-- `string(s, len)`
pub of_chars : List ℕ → ℕ → Option (Vector ℕ)
of_chars from len = new >>= (λ s. append_from len 0 from s)

-- The copy constructor
pub copy : Vector ℕ → Option (Vector ℕ)
copy other = new >>= (λ s. append_from (size other) 0 other.m_data s)

pub clear : Vector ℕ → Option (Vector ℕ)
clear s = assign s.m_data 0 0 >>= (λ d. some (record s { m_data = d; m_size = 1 }))

-- `operator=`
pub set_to : Vector ℕ → Vector ℕ → Option (Vector ℕ)
set_to s other = clear s >>= (λ s'. append_from (size other) 0 other.m_data s')

-- `operator+=`
pub append : Vector ℕ → Vector ℕ → Option (Vector ℕ)
append s other = append_from (size other) 0 other.m_data s

-- `operator+`
pub add : Vector ℕ → Vector ℕ → Option (Vector ℕ)
add s other = copy s >>= (λ result. append result other)

-- The characters agree, with `n` to go.
pub agree : ℕ → ℕ → List ℕ → List ℕ → Option Bool
agree zero i a b = some true
agree (suc n) i a b = get_elem? a i >>= (λ x.
    get_elem? b i >>= (λ y. let rest = agree n (i + 1) a b in if x == y then rest else some false))

-- `operator==`
pub equals : Vector ℕ → Vector ℕ → Option Bool
equals s other = if size s == size other then agree (size s) 0 s.m_data other.m_data else some false

pub starts_with : Vector ℕ → Vector ℕ → Option Bool
starts_with s other =
    if ltb (size s) (size other) then some false else agree (size other) 0 s.m_data other.m_data

pub substr : ℕ → ℕ → Vector ℕ → Option (Vector ℕ)
substr pos len s = new >>= (λ out. append_from len pos s.m_data out)

-- `npos` is -1.
pub find_from : ℕ → ℕ → ℕ → List ℕ → Option ℕ
find_from c zero i xs = some (2 ^ 64 - 1)
find_from c (suc n) i xs =
    get_elem? xs i >>= (λ x. let rest = find_from c n (i + 1) xs in if x == c then some i else rest)

pub find : ℕ → ℕ → Vector ℕ → Option ℕ
find c pos s = find_from c (size s - pos) pos s.m_data

-- With `n` characters before the end of the search.
pub find_last_from : ℕ → ℕ → List ℕ → Option ℕ
find_last_from c zero xs = some (2 ^ 64 - 1)
find_last_from c (suc n) xs =
    get_elem? xs n >>= (λ x. let rest = find_last_from c n xs in if x == c then some n else rest)

pub find_last_of : ℕ → Vector ℕ → Option ℕ
find_last_of c s = find_last_from c (size s) s.m_data

pub reversed_from : ℕ → List ℕ → Vector ℕ → Option (Vector ℕ)
reversed_from zero xs out = some out
reversed_from (suc n) xs out =
    get_elem? xs n >>= (λ c. push_back c out >>= (λ out'. reversed_from n xs out'))

pub reversed : Vector ℕ → Option (Vector ℕ)
reversed s = new >>= (λ out. reversed_from (size s) s.m_data out)

-- The first index from `i` on, with `n` to go, where no space is.
pub strip_start : ℕ → ℕ → List ℕ → Option ℕ
strip_start zero i xs = some i
strip_start (suc n) i xs =
    get_elem? xs i
    >>= (λ c. let rest = strip_start n (i + 1) xs in if is_space_char c then rest else some i)

-- `end + 1`, where `n` is the one that the loop is at.
pub strip_end : ℕ → List ℕ → Option ℕ
strip_end zero xs = some zero
strip_end (suc n) xs =
    get_elem? xs n
    >>= (λ c. let rest = strip_end n xs in if is_space_char c then rest else some (suc n))

pub strip : Vector ℕ → Option (Vector ℕ)
strip s = new >>= (λ out. strip_start (size s) 0 s.m_data >>= (λ start.
    strip_end (size s) s.m_data >>= (λ end. append_from (end - start) start s.m_data out)))

abbrev pub is_digit : ℕ → Bool
is_digit c = leb 48 c && leb c 57

-- The loop of `stoi` behind a sign; the sum is an `int`, which the code does not guard.
unfoldable pub stoi_digits : List ℕ → ℕ → Option ℕ
stoi_digits [] result = some result
stoi_digits (c ∷ cs) result =
    let rest = stoi_digits cs (result * 10 + (c - 48)) in if is_digit c then rest else none

-- `true` is a negative number; `none` is the result false.
unfoldable pub stoi : List ℕ → Option (Bool × ℕ)
stoi [] = some (false, 0)
stoi (c ∷ cs) =
    if c == 45
    then (if length cs == 0 then none else stoi_digits cs 0 >>= (λ r. some (true, r)))
    else stoi_digits (c ∷ cs) 0 >>= (λ r. some (false, r))

pub join_path : List ℕ → List ℕ → List ℕ
join_path [] b = b
join_path (x ∷ a) [] = x ∷ a
join_path (x ∷ a) (y ∷ b) =
    if y == 47
    then y ∷ b
    else if get_or (x ∷ a) (length a) 0 == 47
    then (x ∷ a) ++ (y ∷ b)
    else (x ∷ a) ++ (47 ∷ (y ∷ b))
