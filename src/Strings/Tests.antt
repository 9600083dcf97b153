-- ===== src/Strings/Tests.antt =====
-- include/wwos/string.h: the strings "ab" and "a".
use wwos.Prelude.{ℕ, ◌≡◌, refl, arith, some, [], ◌∷◌}
use wwos.Vector.{Vector}
use wwos.Strings.{add}
use wwos.Strings.Laws.{Holds, add-append}

abbrev ab : Vector ℕ
ab = record { m_capacity = 4; m_size = 3; m_data = 97 ∷ 98 ∷ 0 ∷ 0 ∷ [] }

abbrev a : Vector ℕ
a = record { m_capacity = 2; m_size = 2; m_data = 97 ∷ 0 ∷ [] }

ab-Holds : Holds ab (97 ∷ 98 ∷ [])
ab-Holds = record {
  valid = record { whole = refl; room = omega arith; fits = omega arith };
  chars = refl;
}

a-Holds : Holds a (97 ∷ [])
a-Holds = record {
  valid = record { whole = refl; room = omega arith; fits = omega arith };
  chars = refl;
}

add-append_example : (r : Vector ℕ) × (add ab a ≡ some r) × Holds r (97 ∷ 98 ∷ 97 ∷ [])
add-append_example = add-append ab a (97 ∷ 98 ∷ []) (97 ∷ []) ab-Holds a-Holds (omega arith)
