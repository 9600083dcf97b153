-- ===== src/Paths/Parent.antt =====
-- kernel/filesystem.cc: `get_parent_path` splits a path at its last slash.
use wwos.Prelude.{
  ℕ, ◌≡◌, ◌≢◌, refl, sym, ap, ◌∙◌, List, [], ◌∷◌, ◌++◌, and_false, false, none, some, ◌==◌,
  ==_false, All, append_assoc, append-nil,
}
use wwos.Directory.{is_name}
use wwos.Paths.{root_path, without_slash, split_last, or_root, get_parent_path}
use wwos.Paths.Walk.{IsName, print-last, without_slash-name, without_slash-end}

split-none : (cs : List ℕ) → All (λ d. d ≢ 47) cs → split_last cs ≡ none
unfolding split_last
split-none [] a = refl
split-none (c ∷ cs) a = rw (split-none cs a.1, ==_false c 47 a.0) refl

split-name :
    (parent name : List ℕ)
    → All (λ d. d ≢ 47) name
    → split_last (parent ++ (47 ∷ name)) ≡ some (parent, name)
unfolding split_last
split-name [] name a = rw (split-none name a) refl
split-name (c ∷ cs) name a = rw (split-name cs name a) refl

all_of : (name : List ℕ) → IsName name → All (λ d. d ≢ 47) name
all_of [] a = elim a [ ]
all_of (c ∷ cs) a = a

-- The path is not that of the root, and not empty.
parent_lem :
    (c : ℕ) (cs parent name : List ℕ)
    → is_name (c ∷ cs) root_path ≡ false
    → without_slash (c ∷ cs) ≡ parent ++ (47 ∷ name)
    → IsName name
    → get_parent_path (c ∷ cs) ≡ some (or_root parent, name)
unfolding get_parent_path
parent_lem c cs parent name f g a = rw f (rw g (rw (split-name parent name (all_of name a)) refl))

-- A path that ends in a name is not that of the root.
not_root :
    (parent name tail : List ℕ)
    → IsName name
    → (c : ℕ) × (cs : List ℕ) × (parent ++ (47 ∷ (name ++ tail)) ≡ c ∷ cs)
      × (is_name (c ∷ cs) root_path ≡ false)
not_root parent [] tail a = elim a [ ]
not_root [] (n ∷ name) tail a = (47, n ∷ (name ++ tail), refl, refl)
not_root (p ∷ []) (n ∷ name) tail a = (p, 47 ∷ (n ∷ (name ++ tail)), refl, and_false (p == 47))
not_root (p ∷ (q ∷ parent)) (n ∷ name) tail a =
    (p, q ∷ (parent ++ (47 ∷ (n ∷ (name ++ tail)))), refl, and_false (p == 47))

no_slash :
    (parent name : List ℕ)
    → IsName name
    → (without_slash (parent ++ (47 ∷ name)) ≡ parent ++ (47 ∷ name))
      × (without_slash (parent ++ (47 ∷ (name ++ (47 ∷ [])))) ≡ parent ++ (47 ∷ name))
no_slash parent name a =
    let (cs, c, e, f) = print-last [] name a tt in
    let whole = ap (λ xs. parent ++ (47 ∷ xs)) e ∙ sym (append_assoc parent (47 ∷ cs) (c ∷ [])) in
    (
      ap without_slash whole ∙ without_slash-name (parent ++ (47 ∷ cs)) c f ∙ sym whole,
      ap (λ xs. without_slash (parent ++ (47 ∷ (xs ++ (47 ∷ []))))) e
          ∙ ap (λ xs. without_slash (parent ++ (47 ∷ xs))) (append_assoc cs (c ∷ []) (47 ∷ []))
          ∙ ap without_slash (sym (append_assoc parent (47 ∷ cs) (c ∷ (47 ∷ []))))
          ∙ without_slash-end (parent ++ (47 ∷ cs)) c
          ∙ sym whole,
    )

-- `get_parent_path` of a path that ends in a name, with a slash behind it or not, gives what stands
-- before the name's slash, where that is empty the root, and the name. The name has a character and
-- no slash.
pub get_parent_path-append :
    (parent name : List ℕ)
    → IsName name
    → (get_parent_path (parent ++ (47 ∷ name)) ≡ some (or_root parent, name))
      × (get_parent_path (parent ++ (47 ∷ (name ++ (47 ∷ [])))) ≡ some (or_root parent, name))
get_parent_path-append parent name a =
    let (c, cs, e, f) = not_root parent name [] a in
    let (d, ds, g, h) = not_root parent name (47 ∷ []) a in
    let (k, l) = no_slash parent name a in
    let e' = ap (λ xs. parent ++ (47 ∷ xs)) (sym (append-nil name)) ∙ e in
    (
      ap get_parent_path e' ∙ parent_lem c cs parent name f (ap without_slash (sym e') ∙ k) a,
      ap get_parent_path g ∙ parent_lem d ds parent name h (ap without_slash (sym g) ∙ l) a,
    )
