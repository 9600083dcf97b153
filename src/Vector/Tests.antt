-- ===== src/Vector/Tests.antt =====
-- include/wwos/vector.h: a full vector grows, and an element is taken out.
use wwos.Prelude.{ℕ, ◌≡◌, refl, arith, some, [], ◌∷◌, ◌++◌}
use wwos.Vector.{Vector, push_back}
use wwos.Vector.Laws.{items, IsValid, push_back-append}

abbrev three : Vector ℕ
three = record { m_capacity = 3; m_size = 3; m_data = 10 ∷ 20 ∷ 30 ∷ [] }

three-IsValid : IsValid three
three-IsValid = record { whole = refl; room = omega arith; fits = omega arith }

push_back-append_example :
    (v : Vector ℕ) × (push_back 0 40 three ≡ some v)
    × IsValid v
    × (items v ≡ (10 ∷ 20 ∷ 30 ∷ []) ++ (40 ∷ []))
    × (v.m_capacity ≡ 6)
push_back-append_example = push_back-append 0 40 three three-IsValid
