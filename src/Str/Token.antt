-- ===== src/Str/Token.antt =====
-- wba_strntok and wba_strtok of c_data_structure/wba_str/wba_str.c.
-- A pointer into the text is its index. Calls of the allocator are numbered with gaps: each token has
-- four numbers, for the array, the two blocks of its object, and the copy into it.
pub mod Words
pub mod Steps
pub mod Slices
pub mod Split
mod Tests
use miscellaneous_repo.Prelude.{
  ℕ, zero, suc, ◌+◌, ◌-◌, ◌*◌, ◌^◌, Bool, true, false, Option, none, some, List, [], ◌∷◌, ◌++◌, ltb,
  leb, ◌==◌, if◌then◌else◌, length, drop, get_elem?,
}
use miscellaneous_repo.Str.{Str, Ret, crash, null, ret, Allocator, strlen, strnew, strncpy}

-- What a call does: `no_tokens` is a NULL result beside the value of `*cnt`, if there is one.
pub data Tokens : Type 0 where
  fault : Tokens
  no_tokens : Option ℕ → Tokens
  tokens : List Str → Tokens

-- The inner loop, over the `n` separators that are left.
pub is_sep : List ℕ → ℕ → ℕ → Option Bool
is_sep sep zero b = some false
is_sep [] (suc n) b = none
is_sep (c ∷ sep) (suc n) b = let rest = is_sep sep n b in if b == c then some true else rest

-- `start` and `end` after a byte.
pub next_start : Bool → Option ℕ → ℕ → Option ℕ
next_start true start m = start
next_start false none m = some m
next_start false (some s) m = some s

pub next_end : Bool → Option ℕ → Option ℕ → ℕ → Option ℕ
next_end true none end_ m = end_
next_end true (some s) end_ m = some m
next_end false start end_ m = end_

-- The last token, if no separator follows it.
pub close_last : Option ℕ → Option ℕ → ℕ → ℕ → Option ℕ
close_last (some s) none m len = if m == len - 1 then some (suc m) else none
close_last start end_ m len = end_

module _ (mem : Allocator) where
  -- The array of pointers, for `cnt` tokens and one more: `none` is an overflow of the signed number
  -- of slots, and `some none` a refusal. Of the array only its size counts.
  pub make_room : ℕ → ℕ → ℕ → Option (Option ℕ)
  make_room t cnt slots =
      if leb (slots - 1) cnt
      then if ltb (slots * 2) (2 ^ 31)
        then elim (mem.realloc t [] (8 * (slots * 2))) [
          | none ↦ some none
          | some _ ↦ some (some (slots * 2))
        ]
        else none
      else some (some slots)

  -- A new object with the bytes of the text from `s` up to `e`. The result of the copy is not read.
  pub make_token : ℕ → List ℕ → ℕ → ℕ → Ret
  make_token t str s e = elim (strnew mem t (e - s)) [
    | crash ↦ crash
    | null o ↦ null o
    | ret ws ↦ elim (strncpy mem (suc (suc t)) (some ws) (some (drop s str)) (e - s)) [
      | crash ↦ crash
      | null _ ↦ ret ws
      | ret ws' ↦ ret ws'
    ]
  ]

  -- The token is stored behind those that are there, if the array has a slot for it, and the loop goes
  -- on with the new array.
  pub store : ℕ → List ℕ → ℕ → ℕ → ℕ → List Str → (ℕ → List Str → Tokens) → Tokens
  store t str s e slots wss continue = elim (make_room t (length wss) slots) [
    | none ↦ fault
    | some none ↦ no_tokens (some (length wss))
    | some (some slots') ↦ elim (make_token (suc t) str s e) [
      | crash ↦ fault
      | null _ ↦ no_tokens (some (length wss))
      | ret ws ↦ elim (ltb (length wss) slots') [
        | false ↦ fault
        | true ↦ continue slots' (wss ++ (ws ∷ []))
      ]
    ]
  ]

  -- The tail of the loop's body: a token is stored where both its ends are known.
  pub emit :
      ℕ
      → List ℕ
      → Option ℕ
      → Option ℕ
      → ℕ
      → List Str
      → (Option ℕ → Option ℕ → ℕ → List Str → Tokens)
      → Tokens
  emit t str (some s) (some e) slots wss continue = store t str s e slots wss (continue none none)
  emit t str start end_ slots wss continue = continue start end_ slots wss

  module _ (str : List ℕ) (len : ℕ) (sep : List ℕ) (seplen : ℕ) where
    -- The outer loop, with `k` bytes left, at index `m`.
    pub scan : ℕ → ℕ → ℕ → Option ℕ → Option ℕ → ℕ → List Str → Tokens
    scan zero t m start end_ slots wss = tokens wss
    scan (suc k) t m start end_ slots wss = elim (get_elem? str m) [
      | none ↦ fault
      | some b ↦ elim (is_sep sep seplen b) [
        | none ↦ fault
        | some hit ↦
            let start' = next_start hit start m in
            let end' = close_last start' (next_end hit start end_ m) m len in
            emit t str start' end' slots wss (scan k (suc (suc (suc (suc t)))) (suc m))
      ]
    ]

  -- `cnt` says whether the pointer to the counter is not NULL.
  pub strntok : ℕ → Option (List ℕ) → ℕ → Option (List ℕ) → ℕ → Bool → Tokens
  strntok t str len sep seplen false = no_tokens none
  strntok t none len sep seplen true = no_tokens (some 0)
  strntok t (some str) len none seplen true = no_tokens (some 0)
  strntok t (some str) len (some sep) seplen true =
      if seplen == 0 then no_tokens (some 0) else elim (mem.malloc t (8 * 5)) [
        | none ↦ no_tokens (some 0)
        | some _ ↦ scan str len sep seplen len (suc t) 0 none none 5 []
      ]

  pub strtok : ℕ → Option (List ℕ) → Option (List ℕ) → Bool → Tokens
  strtok t str sep false = no_tokens none
  strtok t none sep true = no_tokens (some 0)
  strtok t (some str) none true = no_tokens (some 0)
  strtok t (some str) (some sep) true = elim (strlen str) [
    | none ↦ fault
    | some n ↦ elim (strlen sep) [
      | none ↦ fault
      | some k ↦ strntok t (some str) n (some sep) k true
    ]
  ]
