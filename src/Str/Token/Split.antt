-- ===== src/Str/Token/Split.antt =====
-- wba_strntok and wba_strtok split the text into its words.
use miscellaneous_repo.Prelude.{
  ℕ, zero, suc, ◌+◌, ◌-◌, ◌*◌, ◌^◌, ◌≤◌, ◌<◌, ◌≡◌, refl, sym, ap, subst, subst₂, ◌∙◌, ◌≢◌, inl, inr,
  Bool, true, false, Option, none, some, List, [], ◌∷◌, ◌++◌, map, arith, append_assoc, append-nil,
  ◌==◌, ltb, Option-cases, length, take, drop, get_elem?, length-append, take-append_length,
}
use miscellaneous_repo.Str.{Str, Ret, crash, null, ret, Allocator, max_reserve_size}
use miscellaneous_repo.Str.Spec.{contents, Failed, no_block, Outcome, returns, refuses, Holds}
use miscellaneous_repo.Str.Create.{NoZero, strlen-some}
use miscellaneous_repo.Str.Token.{
  Tokens, fault, no_tokens, tokens, next_start, next_end, close_last, make_token, store, emit, scan,
  strntok, strtok,
}
use miscellaneous_repo.Str.Token.Words.{flush, words_from, words}
use miscellaneous_repo.Str.Token.Steps.{
  one_of, is_sep-one_of, HasSlots, Room, roomy, full, slice, make_room-Room, make_token-Outcome,
}
use miscellaneous_repo.Str.Token.Slices.{
  AllValid, get_elem?-some, snoc-AllValid, snoc-contents, drop-cons, slice-snoc, flush-slice,
}

-- The call makes well-formed objects that hold the words `ws`, one each and in order; or the allocator
-- refuses, and it returns NULL.
pub data Split (mem : Allocator) (ws : List (List ℕ)) : Tokens → Type 0 where
  made : {ts : List Str} → AllValid ts → map contents ts ≡ ws → Split mem ws (tokens ts)
  failed : {c : Option ℕ} → Failed mem → Split mem ws (no_tokens c)

-- The part of a word that the loop has read.
abbrev pending : List ℕ → Option ℕ → ℕ → List ℕ
pending str none m = []
pending str (some s) m = slice str s m

module _ (mem : Allocator) where
  -- A token is stored, and the loop goes on with room for one more; or the allocator refuses.
  store-Split :
      (t : ℕ) (str : List ℕ) (s e slots : ℕ) (wss : List Str) (continue : ℕ → List Str → Tokens)
      (out : List (List ℕ))
      → s < e
      → e ≤ length str
      → e + max_reserve_size + 1 < 2 ^ 64
      → HasSlots (length wss) slots
      → length wss < 2 ^ 30 - 1
      → ((slots' : ℕ) (ws : Str)
          → Holds (slice str s e) (e - s) ws
          → HasSlots (length (wss ++ (ws ∷ []))) slots'
          → Split mem out (continue slots' (wss ++ (ws ∷ []))))
      → Split mem out (store mem t str s e slots wss continue)
  unfolding store
  store-Split t str s e slots wss continue out lt le small has few next =
      go (make_room-Room mem t (length wss) slots has few)
    where
      stored :
          {slots' : ℕ} {r : Ret}
          → suc (length wss) < slots'
          → slots' ≤ 2 * length wss + 5
          → Outcome (Holds (slice str s e) (e - s)) (λ _. Failed mem) r
          → Split mem out (elim r [
            | crash ↦ fault
            | null _ ↦ no_tokens (some (length wss))
            | ret ws ↦ elim (ltb (length wss) slots') [
              | false ↦ fault
              | true ↦ continue slots' (wss ++ (ws ∷ []))
            ]
          ])
      stored free tight (refuses f) = failed f
      stored {slots'} free tight (returns {s = ws} h) =
          let e : ltb (length wss) slots' ≡ true = ground arith in
          rw e (
            next slots' ws h (record {
              free = omega (arith, length-append wss (ws ∷ []));
              tight = omega (arith, length-append wss (ws ∷ []));
            }))

      go :
          {r : Option (Option ℕ)}
          → Room mem (length wss) r
          → Split mem out (elim r [
            | none ↦ fault
            | some none ↦ no_tokens (some (length wss))
            | some (some slots') ↦ elim (make_token mem (suc t) str s e) [
              | crash ↦ fault
              | null _ ↦ no_tokens (some (length wss))
              | ret ws ↦ elim (ltb (length wss) slots') [
                | false ↦ fault
                | true ↦ continue slots' (wss ++ (ws ∷ []))
              ]
            ]
          ])
      go (full f) = failed f
      go (roomy free tight) = stored free tight (make_token-Outcome mem (suc t) str s e lt le small)

-- A start that is known lies before the index, and the text does not end there.
abbrev Opens : Option ℕ → ℕ → ℕ → Type 0
Opens none m k = Unit {0}
Opens (some s) m k = (s < m) × (0 < k)

-- Storing a slice adds its word.
stored-words :
    (str : List ℕ) (s e : ℕ) (wss : List Str) (ws : Str) (rest : List (List ℕ))
    → s < e
    → e ≤ length str
    → Holds (slice str s e) (e - s) ws
    → map contents (wss ++ (ws ∷ [])) ++ rest ≡ map contents wss ++ (flush (slice str s e) ++ rest)
stored-words str s e wss ws rest lt le h =
    ap (λ l. l ++ rest) (snoc-contents wss ws)
    ∙ append_assoc (map contents wss) (contents ws ∷ []) rest
    ∙ ap (λ l. map contents wss ++ (l ++ rest))
        (ap (λ w. w ∷ []) h.text ∙ sym (flush-slice str s e lt le))

module _ (mem : Allocator) (str : List ℕ) (len : ℕ) (sep : List ℕ) (seplen : ℕ)
    (fits : len ≤ length str) (few : len < 2 ^ 30 - 1) where
  abbrev is_in : ℕ → Bool
  is_in = one_of (take seplen sep)

  -- What the rest of the loop does, from the index `m` with `k` bytes left.
  abbrev Continues : ℕ → ℕ → (Option ℕ → Option ℕ → ℕ → List Str → Tokens) → Type 0
  Continues m k continue =
      (start : Option ℕ) (slots : ℕ) (wss : List Str)
      → Opens start m k
      → HasSlots (length wss) slots
      → length wss ≤ m
      → AllValid wss
      → Split mem (map contents wss ++ words_from is_in (pending str start m) (take k (drop m str)))
          (continue start none slots wss)

  module _ (t m b slots : ℕ) (wss : List Str) (has : HasSlots (length wss) slots)
      (count : length wss ≤ m) (valid : AllValid wss) where
    -- A word that ends at `e` is stored, and the loop goes on outside a word.
    close :
        (s e k : ℕ) (continue : Option ℕ → Option ℕ → ℕ → List Str → Tokens)
        → s < e
        → e ≤ len
        → m < len
        → Continues (suc m) k continue
        → Split mem
            (map contents wss
              ++ (flush (slice str s e) ++ words_from is_in [] (take k (drop (suc m) str))))
            (store mem t str s e slots wss (continue none none))
    close s e k continue lt le in_text next =
        store-Split mem t str s e slots wss (continue none none) _ lt (omega arith) (omega arith)
          has (omega arith)
          λ slots' ws h has'.
            subst (λ l. Split mem l (continue none none slots' (wss ++ (ws ∷ []))))
              (stored-words str s e wss ws (words_from is_in [] (take k (drop (suc m) str))) lt
                (omega arith) h)
              (next none slots' (wss ++ (ws ∷ [])) tt has'
                (omega (arith, length-append wss (ws ∷ []))) (snoc-AllValid wss ws valid h.valid))

    -- Inside a word, which ends here if the text does.
    inside :
        (s k : ℕ) (continue : Option ℕ → Option ℕ → ℕ → List Str → Tokens)
        → s ≤ m
        → m + suc k ≡ len
        → Continues (suc m) k continue
        → Split mem
            (map contents wss ++ words_from is_in (slice str s (suc m)) (take k (drop (suc m) str)))
            (emit mem t str (some s) (close_last (some s) none m len) slots wss continue)
    unfolding emit close_last words_from
    inside s zero continue le at next =
        let e : (m == len - 1) ≡ true = ground arith in
        rw e (
          subst
            (λ l.
              Split mem (map contents wss ++ l)
                (store mem t str s (suc m) slots wss (continue none none)))
            (append-nil (flush (slice str s (suc m))))
            (close s (suc m) 0 continue (omega arith) (omega arith) (omega arith) next))
    inside s (suc k) continue le at next =
        let e : (m == len - 1) ≡ false = ground arith in
        rw e (next (some s) slots wss (omega arith, omega arith) has (omega arith) valid)

    round :
        (hit : Bool) (start : Option ℕ) (k : ℕ)
        (continue : Option ℕ → Option ℕ → ℕ → List Str → Tokens)
        → get_elem? str m ≡ some b
        → is_in b ≡ hit
        → Opens start m (suc k)
        → m + suc k ≡ len
        → Continues (suc m) k continue
        → Split mem
            (map contents wss
              ++ words_from is_in (pending str start m) (b ∷ take k (drop (suc m) str)))
            (emit mem t str
              (next_start hit start m)
              (close_last (next_start hit start m) (next_end hit start none m) m len)
              slots
              wss
              continue)
    unfolding words_from next_start next_end
    round true none k continue here h open_ at next =
        rw (h, words_from)
          (unfold emit close_last in next none slots wss tt has (omega arith) valid)
    round true (some s) k continue here h open_ at next =
        rw (h, words_from)
          (unfold emit close_last in close s m k continue open_.0 (omega arith) (omega arith) next)
    round false none k continue here h open_ at next =
        rw (h, words_from) (rw (← alone) (inside m k continue (omega arith) at next))
      where
        alone : slice str m (suc m) ≡ b ∷ []
        alone =
            slice-snoc str m m b (omega arith) here
            ∙ ap (λ n. take n (drop m str) ++ (b ∷ [])) {y = 0} (omega arith)
    round false (some s) k continue here h open_ at next =
        rw (h, words_from)
          (rw (← slice-snoc str s m b (omega arith) here)
            (inside s k continue (omega arith) at next))

  scan-Split :
      seplen ≤ length sep
      → (k t m slots : ℕ) (start : Option ℕ) (wss : List Str) → m + k ≡ len
      → Opens start m k
      → HasSlots (length wss) slots
      → length wss ≤ m
      → AllValid wss
      → Split mem
          (map contents wss ++ words_from is_in (pending str start m) (take k (drop m str)))
          (scan mem str len sep seplen k t m start none slots wss)
  unfolding scan words_from
  scan-Split seps zero t m slots none wss at open_ has count valid =
      made valid (sym (append-nil (map contents wss)))
  scan-Split seps zero t m slots (some s) wss at open_ has count valid =
      absurd (omega (arith, open_.1))
  scan-Split seps (suc k) t m slots start wss at open_ has count valid =
      let (b, here) = get_elem?-some str m (omega arith) in
      let next : Continues (suc m) k
          (scan mem str len sep seplen k (suc (suc (suc (suc t)))) (suc m)) =
        λ start' slots' wss' o h c v.
          scan-Split seps k (suc (suc (suc (suc t)))) (suc m) slots' start' wss' (omega arith) o h c
            v in
      rw (here, scan)
        (rw (is_sep-one_of sep seplen b seps, scan)
          (subst
            (λ l.
              Split mem
                (map contents wss ++ words_from is_in (pending str start m) (take (suc k) l))
                (emit mem t str (next_start (is_in b) start m)
                  (close_last (next_start (is_in b) start m) (next_end (is_in b) start none m) m
                    len)
                  slots wss (scan mem str len sep seplen k (suc (suc (suc (suc t)))) (suc m))))
            (sym (drop-cons str m b here))
            (round t m b slots wss has count valid (is_in b) start k _ here refl open_ at next)))

-- wba_strntok, with a counter, at least one separator, sources that have the bytes asked for, and fewer
-- than 2^30 - 1 of them: it returns one well-formed object for each word of the first `len` bytes, in
-- order, where the first `seplen` bytes of `sep` are the separators; or the allocator refuses, and it
-- returns NULL. No access is out of bounds.
pub strntok-words :
    (mem : Allocator) (t : ℕ) (str : List ℕ) (len : ℕ) (sep : List ℕ) (seplen : ℕ)
    → len ≤ length str
    → len < 2 ^ 30 - 1
    → seplen ≢ 0
    → seplen ≤ length sep
    → Split mem
        (words (one_of (take seplen sep)) (take len str))
        (strntok mem t (some str) len (some sep) seplen true)
unfolding strntok words
strntok-words mem t str len sep seplen fits few ne seps =
    let e : (seplen == 0) ≡ false = ground arith in
    rw e (elim (Option-cases (mem.malloc t (8 * 5))) [
      | inl no_array ↦ rw (no_array, strntok) (failed (no_block t (8 * 5) no_array))
      | inr (a, array) ↦
          rw (array, strntok)
            (scan-Split mem str len sep seplen fits few seps len (suc t) 0 5 none [] (omega arith)
              tt (record { free = omega arith; tight = omega arith }) (omega arith) tt)
    ])

-- wba_strtok, with a counter, on C texts of which the second is not empty and the first is shorter than
-- 2^30 - 1: as wba_strntok on the bytes before the terminators.
pub strtok-words :
    (mem : Allocator) (t : ℕ) (str sep after_str after_sep : List ℕ)
    → NoZero str
    → NoZero sep
    → length str < 2 ^ 30 - 1
    → length sep ≢ 0
    → Split mem
        (words (one_of sep) str)
        (strtok mem t (some (str ++ (0 ∷ after_str))) (some (sep ++ (0 ∷ after_sep))) true)
unfolding strtok
strtok-words mem t str sep after_str after_sep nz nz' few ne =
    rw (strlen-some str after_str nz, strtok)
      (rw (strlen-some sep after_sep nz', strtok)
        (subst₂
          (λ u v. Split mem (words (one_of u) v) (
            strntok mem t (some (str ++ (0 ∷ after_str))) (length str)
              (some (sep ++ (0 ∷ after_sep))) (length sep) true))
          (take-append_length (length sep) sep (0 ∷ after_sep) refl)
          (take-append_length (length str) str (0 ∷ after_str) refl)
          (strntok-words mem t (str ++ (0 ∷ after_str)) (length str) (sep ++ (0 ∷ after_sep))
            (length sep) (omega (arith, length-append str (0 ∷ after_str))) few ne
            (omega (arith, length-append sep (0 ∷ after_sep))))))
