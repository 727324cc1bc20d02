-- ===== src/Str/Token/Steps.antt =====
-- One round of the loop of wba_strntok: the separator test, the room in the array, and the new token.
use miscellaneous_repo.Prelude.{
  ℕ, zero, suc, ◌+◌, ◌-◌, ◌*◌, ◌^◌, ◌≤◌, ◌<◌, ◌≡◌, refl, ◌∙◌, ◌≢◌, inl, inr, Bool, false, ◌||◌,
  Option, none, some, List, [], ◌∷◌, arith, ◌==◌, ltb, if◌then◌else◌, Bool-cases, Option-cases,
  length, take, drop, length-drop,
}
use miscellaneous_repo.Str.{Str, Ret, crash, null, ret, Allocator, max_reserve_size, strncpy}
use miscellaneous_repo.Str.Spec.{contents, Failed, no_growth, Outcome, returns, refuses, Holds}
use miscellaneous_repo.Str.Append.{strncpy-Outcome}
use miscellaneous_repo.Str.Reserve.{reserved_cap, reserved_cap_same}
use miscellaneous_repo.Str.Create.{strnew-Outcome}
use miscellaneous_repo.Str.Token.{is_sep, make_room, make_token}

abbrev pub one_of : List ℕ → ℕ → Bool
one_of [] b = false
one_of (c ∷ cs) b = b == c || one_of cs b

-- The inner loop says whether the byte is one of the first `n` separators.
pub is_sep-one_of :
    (sep : List ℕ) (n b : ℕ) → n ≤ length sep → is_sep sep n b ≡ some (one_of (take n sep) b)
unfolding is_sep
is_sep-one_of [] zero b h = refl
is_sep-one_of (c ∷ sep) zero b h = refl
is_sep-one_of [] (suc n) b h = absurd (omega arith)
is_sep-one_of (c ∷ sep) (suc n) b h = ground (arith, is_sep-one_of sep n b)

-- The array has a slot for one more token than the next, and is not larger than it has to be.
pub record HasSlots (cnt slots : ℕ) : Type 0 where
  pub free : cnt < slots
  pub tight : slots ≤ 2 * cnt + 5

pub data Room (mem : Allocator) (cnt : ℕ) : Option (Option ℕ) → Type 0 where
  roomy : {slots : ℕ} → suc cnt < slots → slots ≤ 2 * cnt + 5 → Room mem cnt (some (some slots))
  full : Failed mem → Room mem cnt (some none)

-- The bytes of the text from `s` up to `e`.
abbrev pub slice : List ℕ → ℕ → ℕ → List ℕ
slice str s e = take (e - s) (drop s str)

module _ (mem : Allocator) (t : ℕ) where
  stays : (cnt slots : ℕ) → suc cnt < slots → make_room mem t cnt slots ≡ some (some slots)
  unfolding make_room
  stays cnt slots h = ground arith

  grows :
      (cnt slots : ℕ)
      → slots ≤ suc cnt
      → cnt < 2 ^ 30 - 1
      → make_room mem t cnt slots ≡ elim (mem.realloc t [] (8 * (slots * 2))) [
        | none ↦ some none
        | some _ ↦ some (some (slots * 2))
      ]
  unfolding make_room
  grows cnt slots h small = ground arith

  pub make_room-Room :
      (cnt slots : ℕ)
      → HasSlots cnt slots
      → cnt < 2 ^ 30 - 1
      → Room mem cnt (make_room mem t cnt slots)
  make_room-Room cnt slots h small = elim (Bool-cases (ltb (suc cnt) slots)) [
    | inl lt ↦ rw (stays cnt slots (ground arith)) (roomy (ground arith) h.tight)
    | inr ge ↦
        rw (grows cnt slots (ground arith) small)
          (elim (Option-cases (mem.realloc t [] (8 * (slots * 2)))) [
            | inl e ↦ rw e (full (no_growth t [] (8 * (slots * 2)) e))
            | inr (a, e) ↦ rw e (roomy (ground arith) (ground arith))
          ])
  ]

  -- A copy into an object that is large enough does not come back empty.
  copied :
      (ws : Str) (src : List ℕ) (n : ℕ)
      → Holds [] n ws
      → n ≢ 0
      → n + max_reserve_size + 1 < 2 ^ 64
      → n ≤ length src
      → (ws' : Str) × (strncpy mem t (some ws) (some src) n ≡ ret ws') × Holds (take n src) n ws'
  copied ws src n h ne small has = go (strncpy-Outcome mem t ws h.valid src n small has)
    where
      go :
          {r : Ret}
          → Outcome
              (Holds (if n == 0 then contents ws else take n src) (reserved_cap ws n))
              (λ o. (o ≡ some ws) × (ws.cap < n) × Failed mem)
              r
          → (ws' : Str) × (r ≡ ret ws') × Holds (take n src) n ws'
      go (refuses f) = absurd (omega (arith, f.1, h.room))
      go (returns {s} g) = (
        s,
        refl,
        record {
          valid = g.valid;
          text = g.text ∙ ground arith;
          room = g.room ∙ reserved_cap_same mem t ws h.valid n (omega (arith, h.room)) ∙ h.room;
        },
      )

module _ (mem : Allocator) (t : ℕ) (str : List ℕ) (s e : ℕ) (lt : s < e) (le : e ≤ length str)
    (small : e + max_reserve_size + 1 < 2 ^ 64) where
  pub make_token-Outcome :
      Outcome (Holds (slice str s e) (e - s)) (λ _. Failed mem) (make_token mem t str s e)
  unfolding make_token
  make_token-Outcome = go (strnew-Outcome mem t (e - s) (omega arith))
    where
      go :
          {r : Ret}
          → Outcome (Holds [] (e - s)) (λ o. (o ≡ none) × Failed mem) r
          → Outcome
              (Holds (slice str s e) (e - s))
              (λ _. Failed mem)
              (elim r [
                | crash ↦ crash
                | null o ↦ null o
                | ret ws ↦ elim (strncpy mem (suc (suc t)) (some ws) (some (drop s str)) (e - s)) [
                  | crash ↦ crash
                  | null _ ↦ ret ws
                  | ret ws' ↦ ret ws'
                ]
              ])
      go (refuses f) = refuses f.1
      go (returns {s = ws} h) =
          let (ws', eq, h') =
            copied mem (suc (suc t)) ws (drop s str) (e - s) h (omega arith) (omega arith)
              (omega (arith, length-drop s str)) in
          rw eq (returns h')
