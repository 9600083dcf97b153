-- ===== src/Paths/Walk.antt =====
-- kernel/filesystem.cc: `get_inode` follows the names of a path, one directory after the other.
use mathlib.Core.Path.{fun_ext}
use wwos.Prelude.{
  ℕ, zero, suc, ◌<◌, ◌≡◌, ◌≢◌, refl, sym, ap, ap₂, ◌∙◌, arith, List, [], ◌∷◌, ◌++◌, Option, none,
  some, ◌>>=◌, ◌==◌, ==_false, if◌then◌else◌, length, length-append, All, append_assoc, append-nil,
}
use wwos.Disk.{FileSystem, InodeType, code}
use wwos.Wwfs.{get_inode_type, get_root}
use wwos.Directory.{get_children}
use wwos.Paths.Names.{lookup, find_child-eq-lookup}
use wwos.Paths.{
  minus_one, without_slash, name_piece, behind_slash, find_child, walk, from_root, get_inode,
}

-- A name has a character, and no slash.
abbrev pub IsName : List ℕ → Type 0
IsName [] = ⊥
IsName (c ∷ cs) = (c ≢ 47) × All (λ d. d ≢ 47) cs

-- The names with a slash between each two.
abbrev pub print : List ℕ → List (List ℕ) → List ℕ
print name [] = name
print name (n ∷ ns) = name ++ (47 ∷ print n ns)

-- From a directory with these children: -1 where a name is missing, or where one that others follow is
-- not a directory.
pub resolve : FileSystem → List (List ℕ × ℕ) → List ℕ → List (List ℕ) → Option ℕ
resolve fs children name [] = elim (lookup children name) [
  | none ↦ some minus_one
  | some id ↦ some id
]
resolve fs children name (n ∷ ns) = elim (lookup children name) [
  | none ↦ some minus_one
  | some id ↦ get_inode_type fs id >>= (λ type.
      if type == code InodeType.directory
      then get_children fs id >>= (λ next. resolve fs next n ns)
      else some minus_one)
]

piece-name : (cs rest : List ℕ) → All (λ d. d ≢ 47) cs → name_piece (cs ++ (47 ∷ rest)) ≡ cs
piece-name [] rest a = refl
piece-name (c ∷ cs) rest a = rw (==_false c 47 a.0) (ap (λ xs. c ∷ xs) (piece-name cs rest a.1))

piece-last : (cs : List ℕ) → All (λ d. d ≢ 47) cs → name_piece cs ≡ cs
piece-last [] a = refl
piece-last (c ∷ cs) a = rw (==_false c 47 a.0) (ap (λ xs. c ∷ xs) (piece-last cs a.1))

behind-name :
    (cs rest : List ℕ) → All (λ d. d ≢ 47) cs → behind_slash (cs ++ (47 ∷ rest)) ≡ some rest
behind-name [] rest a = refl
behind-name (c ∷ cs) rest a = rw (==_false c 47 a.0) (behind-name cs rest a.1)

behind-last : (cs : List ℕ) → All (λ d. d ≢ 47) cs → behind_slash cs ≡ none
behind-last [] a = refl
behind-last (c ∷ cs) a = rw (==_false c 47 a.0) (behind-last cs a.1)

-- A round at the last name, and at one with others behind it.
walk_last :
    (c : ℕ) (cs : List ℕ) (fuel : ℕ) (fs : FileSystem) (children : List (List ℕ × ℕ))
    → IsName (c ∷ cs)
    → walk (suc fuel) fs children (c ∷ cs)
      ≡ elim (find_child (c ∷ cs) children) [ none ↦ some minus_one | some id ↦ some id ]
unfolding walk
walk_last c cs fuel fs children a =
    ap₂
      (λ (p : List ℕ) (o : Option (List ℕ)). elim (find_child p children) as (λ x. Option ℕ) [
        | none ↦ some minus_one
        | some id ↦ elim o as (λ x. Option ℕ) [
          | none ↦ some id
          | some rest ↦ get_inode_type fs id >>= (λ type.
              if type == code InodeType.directory
              then get_children fs id >>= (λ next. walk fuel fs next rest)
              else some minus_one)
        ]
      ])
      (piece-last (c ∷ cs) a) (behind-last (c ∷ cs) a)

walk_next :
    (c : ℕ) (cs rest : List ℕ) (fuel : ℕ) (fs : FileSystem) (children : List (List ℕ × ℕ))
    → IsName (c ∷ cs)
    → walk (suc fuel) fs children ((c ∷ cs) ++ (47 ∷ rest)) ≡ elim (find_child (c ∷ cs) children) [
      | none ↦ some minus_one
      | some id ↦ get_inode_type fs id >>= (λ type.
          if type == code InodeType.directory
          then get_children fs id >>= (λ next. walk fuel fs next rest)
          else some minus_one)
    ]
unfolding walk
walk_next c cs rest fuel fs children a =
    ap₂
      (λ (p : List ℕ) (o : Option (List ℕ)). elim (find_child p children) as (λ x. Option ℕ) [
        | none ↦ some minus_one
        | some id ↦ elim o as (λ x. Option ℕ) [
          | none ↦ some id
          | some rest ↦ get_inode_type fs id >>= (λ type.
              if type == code InodeType.directory
              then get_children fs id >>= (λ next. walk fuel fs next rest)
              else some minus_one)
        ]
      ])
      (piece-name (c ∷ cs) rest a) (behind-name (c ∷ cs) rest a)

-- One round for each name is enough.
walk-print :
    (ns : List (List ℕ)) (name : List ℕ) (fuel : ℕ) (fs : FileSystem) (children : List (List ℕ × ℕ))
    → IsName name
    → All IsName ns
    → length ns < fuel
    → walk fuel fs children (print name ns) ≡ resolve fs children name ns
unfolding resolve
walk-print ns [] fuel fs children a b h = elim a [ ]
walk-print ns (c ∷ cs) zero fs children a b h = absurd (omega arith)
walk-print [] (c ∷ cs) (suc fuel) fs children a b h =
    walk_last c cs fuel fs children a
    ∙ ap (λ o. elim o as (λ x. Option ℕ) [ none ↦ some minus_one | some id ↦ some id ])
        (find_child-eq-lookup (c ∷ cs) children)
walk-print (n ∷ ns) (c ∷ cs) (suc fuel) fs children a b h =
    walk_next c cs (print n ns) fuel fs children a
    ∙ ap₂
        (λ (o : Option ℕ) (w : List (List ℕ × ℕ) → Option ℕ). elim o as (λ x. Option ℕ) [
          | none ↦ some minus_one
          | some id ↦ get_inode_type fs id >>= (λ type.
              if type == code InodeType.directory
              then get_children fs id >>= (λ next. w next)
              else some minus_one)
        ])
        (find_child-eq-lookup (c ∷ cs) children)
        (fun_ext (λ next. walk-print ns n fuel fs next b.0 b.1 (omega (arith, h))))

pub without_slash-end :
    (cs : List ℕ) (c : ℕ) → without_slash (cs ++ (c ∷ (47 ∷ []))) ≡ cs ++ (c ∷ [])
without_slash-end [] c = refl
without_slash-end (d ∷ []) c = refl
without_slash-end (d ∷ (e ∷ cs)) c = ap (λ xs. d ∷ xs) (without_slash-end (e ∷ cs) c)

pub without_slash-name :
    (cs : List ℕ) (c : ℕ) → c ≢ 47 → without_slash (cs ++ (c ∷ [])) ≡ cs ++ (c ∷ [])
without_slash-name [] c h = rw (==_false c 47 h) refl
without_slash-name (d ∷ []) c h = rw (==_false c 47 h) refl
without_slash-name (d ∷ (e ∷ cs)) c h = ap (λ xs. d ∷ xs) (without_slash-name (e ∷ cs) c h)

-- The last character of the names.
pub print-last :
    (ns : List (List ℕ)) (name : List ℕ)
    → IsName name
    → All IsName ns
    → (cs : List ℕ) × (c : ℕ) × (print name ns ≡ cs ++ (c ∷ [])) × (c ≢ 47)
print-last ns [] a b = elim a [ ]
print-last [] (c ∷ []) a b = ([], c, refl, a.0)
print-last [] (c ∷ (d ∷ cs)) a b =
    let (xs, x, e, f) = print-last [] (d ∷ cs) a.1 tt in (c ∷ xs, x, ap (λ ys. c ∷ ys) e, f)
print-last (n ∷ ns) (c ∷ cs) a b =
    let (xs, x, e, f) = print-last ns n b.0 b.1 in
    (
      (c ∷ cs) ++ (47 ∷ xs),
      x,
      ap (λ ys. (c ∷ cs) ++ (47 ∷ ys)) e ∙ sym (append_assoc (c ∷ cs) (47 ∷ xs) (x ∷ [])),
      f,
    )

length-print :
    (ns : List (List ℕ)) (name : List ℕ)
    → IsName name
    → All IsName ns
    → length ns < length (print name ns)
length-print ns [] a b = elim a [ ]
length-print [] (c ∷ cs) a b = omega arith
length-print (n ∷ ns) (c ∷ cs) a b =
    omega (arith, length-print ns n b.0 b.1, length-append (c ∷ cs) (47 ∷ print n ns))

-- No path of names is the one of the root.
print-rooted :
    (fs : FileSystem) (ns : List (List ℕ)) (name tail : List ℕ)
    → IsName name
    → get_inode fs (47 ∷ (print name ns ++ tail)) ≡ from_root fs (print name ns ++ tail)
unfolding get_inode
print-rooted fs ns [] tail a = elim a [ ]
print-rooted fs [] (c ∷ cs) tail a = refl
print-rooted fs (n ∷ ns) (c ∷ cs) tail a = refl

-- `get_inode` of a path from the root, with a slash behind it or not, follows its names through the
-- directories: it gives the inode of the last, and -1 where one is missing or one that others follow
-- is not a directory. The names have characters and no slash.
pub get_inode-print :
    (fs : FileSystem) (name : List ℕ) (ns : List (List ℕ))
    → IsName name
    → All IsName ns
    → (get_inode fs (47 ∷ print name ns)
        ≡ (get_children fs get_root >>= (λ children. resolve fs children name ns)))
      × (get_inode fs (47 ∷ (print name ns ++ (47 ∷ [])))
          ≡ (get_children fs get_root >>= (λ children. resolve fs children name ns)))
unfolding from_root
get_inode-print fs name ns a b =
    let (cs, c, e, f) = print-last ns name a b in
    let l = length-print ns name a b in
    let fuel =
      λ (n : ℕ) (h : length ns < n). fun_ext (λ children. walk-print ns name n fs children a b h) in
    (
      ap (λ p. get_inode fs (47 ∷ p)) (sym (append-nil (print name ns)))
          ∙ print-rooted fs ns name [] a
          ∙ ap (λ p. from_root fs p) (append-nil (print name ns))
          ∙ ap
              (λ p.
                get_children fs get_root
                >>= (λ children. walk (length (print name ns)) fs children p))
              (ap without_slash e ∙ without_slash-name cs c f ∙ sym e)
          ∙ ap (λ w. get_children fs get_root >>= w) (fuel (length (print name ns)) l),
      print-rooted fs ns name (47 ∷ []) a
          ∙ ap
              (λ p.
                get_children fs get_root
                >>= (λ children. walk (length (print name ns ++ (47 ∷ []))) fs children p))
              (ap (λ xs. without_slash (xs ++ (47 ∷ []))) e
                ∙ ap without_slash (append_assoc cs (c ∷ []) (47 ∷ []))
                ∙ without_slash-end cs c
                ∙ sym e)
          ∙ ap (λ w. get_children fs get_root >>= w)
              (fuel (length (print name ns ++ (47 ∷ [])))
                (omega (arith, l, length-append (print name ns) (47 ∷ [])))),
    )
