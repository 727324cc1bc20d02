-- ===== src/Recursive/Keys.antt =====
-- The keys of a recursive skip list, as a sorted list.
use miscellaneous_repo.Prelude.{
  ℕ, suc, ◌+◌, ◌≤◌, ◌≡◌, refl, sym, ap, inl, inr, Bool, true, false, ◌||◌, none, some, List, [],
  ◌∷◌, arith, ltb, if◌then◌else◌, length, Bool-cases,
}
use miscellaneous_repo.Prelude.Int.{ℤ, ltb_ℤ}
use miscellaneous_repo.Skiplist.{Ptr}
use miscellaneous_repo.Recursive.{same_key}
use miscellaneous_repo.Recursive.Rows.{Entry, All}
use miscellaneous_repo.Recursive.Entries.{not_below, ins, lower, del}
use miscellaneous_repo.Recursive.Lookup.{Any, Other, Finds}

-- A call, with what rand returns in it, and the block that malloc gives.
pub data Op : Type 0 where
  insert : ℕ → ℕ → ℤ → Op
  delete : ℤ → Op

-- The same on a sorted list of keys.
abbrev pub put_key : ℤ → List ℤ → List ℤ
put_key key [] = key ∷ []
put_key key (k ∷ ks) = if ltb_ℤ key k then key ∷ k ∷ ks else k ∷ put_key key ks

abbrev pub drop_key : ℤ → List ℤ → List ℤ
drop_key key [] = []
drop_key key (k ∷ ks) =
    if not_below key k then (if same_key key k then ks else k ∷ ks) else k ∷ drop_key key ks

abbrev pub after : List Op → List ℤ → List ℤ
after [] ks = ks
after (insert t new key ∷ ops) ks = after ops (put_key key ks)
after (delete key ∷ ops) ks = after ops (drop_key key ks)

abbrev pub has : ℤ → List ℤ → Bool
has key [] = false
has key (k ∷ ks) = same_key k key || has key ks

abbrev pub is_some : Ptr → Bool
is_some none = false
is_some (some p) = true

abbrev pub keys : List Entry → List ℤ
keys [] = []
keys (e ∷ es) = e.key ∷ keys es

pub keys-ins : (e : Entry) (es : List Entry) → keys (ins e es) ≡ put_key e.key (keys es)
keys-ins e [] = refl
keys-ins e (z ∷ zs) = elim (Bool-cases (ltb_ℤ e.key z.key)) [
  | inl h ↦ rw h refl
  | inr h ↦ rw h (ap (◌∷◌ z.key) (keys-ins e zs))
]

keys-lower : (key : ℤ) (h : ℕ) (es : List Entry) → keys (lower key h es) ≡ keys es
keys-lower key h [] = refl
keys-lower key h (e ∷ es) = elim (Bool-cases (same_key key e.key)) [
  | inl s ↦ rw s (ap (◌∷◌ e.key) (keys-lower key (if ltb h e.height then e.height else h) es))
  | inr s ↦ rw s refl
]

pub keys-del : (key : ℤ) (es : List Entry) → keys (del key es) ≡ drop_key key (keys es)
keys-del key [] = refl
keys-del key (e ∷ es) = elim (Bool-cases (not_below key e.key)) [
  | inl t ↦ elim (Bool-cases (same_key key e.key)) [
    | inl s ↦ rw (s, t) (keys-lower key e.height es)
    | inr s ↦ rw (s, t) refl
  ]
  | inr t ↦ rw t (ap (◌∷◌ e.key) (keys-del key es))
]

pub length-keys : (es : List Entry) → length (keys es) ≡ length es
length-keys [] = refl
length-keys (e ∷ es) = ap suc (length-keys es)

pub length-put_key : (key : ℤ) (ks : List ℤ) → length (put_key key ks) ≡ suc (length ks)
length-put_key key [] = refl
length-put_key key (k ∷ ks) = elim (Bool-cases (ltb_ℤ key k)) [
  | inl h ↦ rw h refl
  | inr h ↦ rw h (ap suc (length-put_key key ks))
]

pub length-drop_key : (key : ℤ) (ks : List ℤ) → length (drop_key key ks) ≤ length ks
length-drop_key key [] = omega arith
length-drop_key key (k ∷ ks) = elim (Bool-cases (not_below key k)) [
  | inl t ↦ elim (Bool-cases (same_key key k)) [
    | inl s ↦ rw (s, t) (omega arith)
    | inr s ↦ rw (s, t) (omega arith)
  ]
  | inr t ↦ rw t (omega (arith, length-drop_key key ks))
]

pub length-after : (ops : List Op) (ks : List ℤ) → length (after ops ks) ≤ length ops + length ks
length-after [] ks = omega arith
length-after (insert t new key ∷ ops) ks =
    omega (arith, length-after ops (put_key key ks), length-put_key key ks)
length-after (delete key ∷ ops) ks =
    omega (arith, length-after ops (drop_key key ks), length-drop_key key ks)

has-none : (key : ℤ) (es : List Entry) → All (Other key) es → has key (keys es) ≡ false
has-none key [] a = refl
has-none key (e ∷ es) a = rw a.0 (has-none key es a.1)

has-some :
    (key : ℤ) (q : ℕ) (es : List Entry)
    → Any (λ e. (e.block ≡ q) × (same_key e.key key ≡ true)) es
    → has key (keys es) ≡ true
has-some key q [] a = absurd a
has-some key q (e ∷ es) (inl a) = rw a.1 refl
has-some key q (e ∷ es) (inr a) = elim (Bool-cases (same_key e.key key)) [
  | inl h ↦ rw h refl
  | inr h ↦ rw h (has-some key q es a)
]

pub is_some-Finds :
    (key : ℤ) (r : Ptr) (es : List Entry) → Finds key r es → is_some r ≡ has key (keys es)
is_some-Finds key none es h = sym (has-none key es h)
is_some-Finds key (some q) es h = sym (has-some key q es h)
