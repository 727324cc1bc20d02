-- ===== src/Str/Token/Slices.antt =====
-- The words of a text as slices, one byte after the other.
use miscellaneous_repo.Prelude.{
  ℕ, zero, suc, ◌+◌, ◌-◌, ◌≤◌, ◌<◌, ◌≡◌, refl, ap, ◌∙◌, some, List, [], ◌∷◌, ◌++◌, map, arith,
  length, take, drop, get_elem?, length-take, length-drop,
}
use miscellaneous_repo.Str.{Str}
use miscellaneous_repo.Str.Spec.{contents, IsValid}
use miscellaneous_repo.Str.Token.Words.{flush}
use miscellaneous_repo.Str.Token.Steps.{slice}

abbrev pub AllValid : List Str → Type 0
AllValid [] = Unit {0}
AllValid (w ∷ ws) = IsValid w × AllValid ws

pub snoc-AllValid : (ts : List Str) (w : Str) → AllValid ts → IsValid w → AllValid (ts ++ (w ∷ []))
snoc-AllValid [] w h v = (v, tt)
snoc-AllValid (x ∷ ts) w h v = (h.0, snoc-AllValid ts w h.1 v)

pub snoc-contents :
    (ts : List Str) (w : Str) → map contents (ts ++ (w ∷ [])) ≡ map contents ts ++ (contents w ∷ [])
snoc-contents [] w = refl
snoc-contents (x ∷ ts) w = ap (◌∷◌ (contents x)) (snoc-contents ts w)

pub drop-cons :
    {A : Type 0} (xs : List A) (m : ℕ) (b : A)
    → get_elem? xs m ≡ some b
    → drop m xs ≡ b ∷ drop (suc m) xs
drop-cons [] m b h = cc
drop-cons (x ∷ xs) zero b h = cc
drop-cons (x ∷ xs) (suc m) b h = drop-cons xs m b h

pub get_elem?-some : (xs : List ℕ) (m : ℕ) → m < length xs → (b : ℕ) × (get_elem? xs m ≡ some b)
get_elem?-some [] m h = absurd (omega arith)
get_elem?-some (x ∷ xs) zero h = (x, refl)
get_elem?-some (x ∷ xs) (suc m) h = get_elem?-some xs m (omega arith)

pub take-snoc :
    (xs : List ℕ) (n : ℕ) (b : ℕ)
    → get_elem? xs n ≡ some b
    → take (suc n) xs ≡ take n xs ++ (b ∷ [])
take-snoc [] n b h = cc
take-snoc (x ∷ xs) zero b h = cc
take-snoc (x ∷ xs) (suc n) b h = ap (◌∷◌ x) (take-snoc xs n b h)

get_elem?-drop : (xs : List ℕ) (s n : ℕ) → get_elem? (drop s xs) n ≡ get_elem? xs (s + n)
get_elem?-drop xs zero n = ap (get_elem? xs) (omega arith)
get_elem?-drop [] (suc s) n = refl
get_elem?-drop (x ∷ xs) (suc s) n =
    get_elem?-drop xs s n ∙ ap (get_elem? (x ∷ xs)) {x = suc (s + n)} (omega arith)

-- A slice grows by the byte behind it.
pub slice-snoc :
    (str : List ℕ) (s m b : ℕ)
    → s ≤ m
    → get_elem? str m ≡ some b
    → slice str s (suc m) ≡ slice str s m ++ (b ∷ [])
slice-snoc str s m b le h =
    ap (λ k. take k (drop s str)) {y = suc (m - s)} (omega arith)
    ∙ take-snoc (drop s str) (m - s) b
        (get_elem?-drop str s (m - s) ∙ ap (get_elem? str) (omega arith) ∙ h)

-- A slice that is not empty is one word.
pub flush-slice :
    (str : List ℕ) (s e : ℕ) → s < e → e ≤ length str → flush (slice str s e) ≡ slice str s e ∷ []
flush-slice str s e lt le =
    go (slice str s e) (omega (arith, length-take (e - s) (drop s str), length-drop s str))
  where
    go : (w : List ℕ) → 0 < length w → flush w ≡ w ∷ []
    go [] h = absurd (omega arith)
    go (x ∷ w) h = refl
