-- ===== src/Console/Stree/Breadth/Levels.antt =====
-- The forest below a row of siblings, and its levels.
use miscellaneous_repo.Prelude.{
  ℕ, zero, suc, ◌+◌, ◌≡◌, refl, sym, ap, ◌∙◌, [], ◌∷◌, ◌++◌, append_assoc, arith,
}
use miscellaneous_repo.Console.Stree.Forest.{
  Forest, leaf, tree, size, siblings, level, levels, AtMost,
}

-- One row of siblings behind another.
abbrev pub beside : Forest → Forest → Forest
beside leaf G = G
beside (tree k cs ss) G = tree k cs (beside ss G)

-- The children of all siblings, in one row.
abbrev pub under : Forest → Forest
under leaf = leaf
under (tree k cs ss) = beside cs (under ss)

abbrev pub width : Forest → ℕ
width leaf = 0
width (tree k cs ss) = suc (width ss)

size-beside : (F G : Forest) → size (beside F G) ≡ size F + size G
size-beside leaf G = omega arith
size-beside (tree k cs ss) G = omega (arith, size-beside ss G)

pub size-under : (F : Forest) → size F ≡ width F + size (under F)
size-under leaf = refl
size-under (tree k cs ss) = omega (arith, size-under ss, size-beside cs (under ss))

pub siblings-beside :
    (d : ℕ) (F G : Forest) → siblings d (beside F G) ≡ siblings d F ++ siblings d G
siblings-beside d leaf G = refl
siblings-beside d (tree k cs ss) G = ap (λ xs. (d, k) ∷ xs) (siblings-beside d ss G)

level-beside : (d n : ℕ) (F G : Forest) → level d n (beside F G) ≡ level d n F ++ level d n G
level-beside d n leaf G = refl
level-beside d zero (tree k cs ss) G = ap (λ xs. (d, k) ∷ xs) (level-beside d zero ss G)
level-beside d (suc n) (tree k cs ss) G =
    ap (λ xs. level d n cs ++ xs) (level-beside d (suc n) ss G)
    ∙ sym (append_assoc (level d n cs) (level d (suc n) ss) (level d (suc n) G))

pub level-siblings : (d : ℕ) (F : Forest) → level d 0 F ≡ siblings d F
level-siblings d leaf = refl
level-siblings d (tree k cs ss) = ap (λ xs. (d, k) ∷ xs) (level-siblings d ss)

level-under : (d n : ℕ) (F : Forest) → level d (suc n) F ≡ level d n (under F)
level-under d n leaf = refl
level-under d n (tree k cs ss) =
    ap (λ xs. level d n cs ++ xs) (level-under d n ss) ∙ sym (level-beside d n cs (under ss))

pub levels-under : (h d n : ℕ) (F : Forest) → levels h d (suc n) F ≡ levels h d n (under F)
levels-under zero d n F = refl
levels-under (suc h) d n F =
    ap (λ xs. xs ++ levels h (d + 1) (suc (suc n)) F) (level-under d n F)
    ∙ ap (λ xs. level d n (under F) ++ xs) (levels-under h (d + 1) (suc n) F)

pub levels-leaf : (h d n : ℕ) → levels h d n leaf ≡ []
levels-leaf zero d n = refl
levels-leaf (suc h) d n = levels-leaf h (d + 1) (suc n)

AtMost-beside : (h : ℕ) (F G : Forest) → AtMost h F → AtMost h G → AtMost h (beside F G)
AtMost-beside h leaf G a b = b
AtMost-beside (suc h) (tree k cs ss) G a b = (a.0, AtMost-beside (suc h) ss G a.1 b)
AtMost-beside zero (tree k cs ss) G a b = absurd a

pub AtMost-under : (h : ℕ) (F : Forest) → AtMost (suc h) F → AtMost h (under F)
AtMost-under h leaf a = tt
AtMost-under h (tree k cs ss) a = AtMost-beside h cs (under ss) a.0 (AtMost-under h ss a.1)
