-- ===== src/Str/Create.antt =====
-- What wba_strnewlen, wba_strnew and wba_strnew2 return, and the calls that take a C text.
use miscellaneous_repo.Prelude.{
  ℕ, suc, ◌+◌, ◌^◌, ◌≤◌, ◌<◌, ◌≡◌, refl, ◌∙◌, ◌≢◌, inl, inr, Option, none, some, List, [], ◌∷◌,
  ◌++◌, arith, ◌==◌, if◌then◌else◌, Option-cases, length, take, replicate, subst, length-append,
  length-take, length-replicate, take-append_length,
}
use miscellaneous_repo.Str.{
  Str, Ret, crash, Allocator, max_reserve_size, add_size, read, strlen, put, strnewlen, strnew,
  strnew2, strncpy, strcpy, strncat, strcat,
}
use miscellaneous_repo.Str.Spec.{
  contents, IsValid, Failed, no_block, Outcome, returns, refuses, Holds, blit-some, patched,
  length-patched, put-Outcome,
}
use miscellaneous_repo.Str.Append.{strncpy-Outcome, strncat-Outcome}
use miscellaneous_repo.Str.Reserve.{Refused, reserved_cap, read-some}

-- No byte of a C text is the terminator.
abbrev pub NoZero : List ℕ → Type 0
NoZero [] = Unit {0}
NoZero (b ∷ bs) = (b ≢ 0) × NoZero bs

-- strlen stops at the first terminator.
pub strlen-some : (bs rest : List ℕ) → NoZero bs → strlen (bs ++ (0 ∷ rest)) ≡ some (length bs)
unfolding strlen
strlen-some [] rest h = refl
strlen-some (b ∷ bs) rest h = ground (arith, strlen-some bs rest h.1)

-- NULL, with no object made, because the allocator refused.
abbrev pub Nothing : Allocator → Option Str → Type 0
Nothing mem o = (o ≡ none) × Failed mem

fresh : ℕ → List ℕ → Str
fresh n b = record { len = n; cap = n; buf = b }

fresh-Outcome :
    (mem : Allocator) (n : ℕ) (b src : List ℕ)
    → n + 1 < 2 ^ 64
    → length b ≡ add_size n 1
    → length src ≡ n
    → Outcome (Holds src n) (Nothing mem) (put (fresh n b) 0 src)
unfolding fresh
fresh-Outcome mem n b src small sized e =
    put-Outcome (Nothing mem) (fresh n b) 0 src (omega arith) small (omega arith)

-- What strnewlen does once it has its two blocks.
fill : Option (List ℕ) → ℕ → List ℕ → Ret
unfolding fresh
fill none n b = put (fresh n b) 0 (replicate n 0)
fill (some src) n b = elim (read src n) [ none ↦ crash | some bs ↦ put (fresh n b) 0 bs ]

-- The text that an object made from `init` holds.
abbrev pub initial : Option (List ℕ) → ℕ → List ℕ
initial none n = replicate n 0
initial (some src) n = take n src

-- The source, where there is one, has `n` bytes.
abbrev pub Has : ℕ → Option (List ℕ) → Type 0
Has n none = Unit {0}
Has n (some src) = n ≤ length src

fill-Outcome :
    (mem : Allocator) (init : Option (List ℕ)) (n : ℕ) (b : List ℕ)
    → n + 1 < 2 ^ 64
    → length b ≡ add_size n 1
    → Has n init
    → Outcome (Holds (initial init n) n) (Nothing mem) (fill init n b)
unfolding fill
fill-Outcome mem none n b small sized has =
    fresh-Outcome mem n b (replicate n 0) small sized (length-replicate n 0)
fill-Outcome mem (some src) n b small sized has =
    rw (read-some src n has, fill)
      (fresh-Outcome mem n b (take n src) small sized (omega (arith, length-take n src)))

module _ (mem : Allocator) (t : ℕ) where
  strnewlen-fill :
      (init : Option (List ℕ)) (n : ℕ) (h b : List ℕ)
      → mem.malloc t 24 ≡ some h
      → mem.malloc (t + 1) (add_size n 1) ≡ some b
      → strnewlen mem t init n ≡ fill init n b
  unfolding strnewlen fill
  strnewlen-fill none n h b e e' = rw (e, strnewlen) (rw (e', strnewlen))
  strnewlen-fill (some src) n h b e e' = rw (e, strnewlen) (rw (e', strnewlen))

  -- wba_strnewlen makes a well-formed object of exactly the first `n` bytes of the source, or of `n`
  -- zero bytes where there is no source, or it returns NULL.
  pub strnewlen-Outcome :
      (init : Option (List ℕ)) (n : ℕ)
      → n + 1 < 2 ^ 64
      → Has n init
      → Outcome (Holds (initial init n) n) (Nothing mem) (strnewlen mem t init n)
  unfolding strnewlen
  strnewlen-Outcome init n small has = elim (Option-cases (mem.malloc t 24)) [
    | inl e ↦ rw (e, strnewlen) (refuses (refl, no_block _ _ e))
    | inr (h, e) ↦ elim (Option-cases (mem.malloc (t + 1) (add_size n 1))) [
      | inl e' ↦ rw (e, strnewlen) (rw (e', strnewlen) (refuses (refl, no_block _ _ e')))
      | inr (b, e') ↦
          rw (strnewlen-fill init n h b e e')
            (fill-Outcome mem init n b small (mem.malloc_size (t + 1) (add_size n 1) b e') has)
    ]
  ]

  -- wba_strnew2 makes a well-formed object of the bytes before the terminator, and an empty one of a
  -- null pointer, or it returns NULL.
  pub strnew2-Outcome :
      (bs rest : List ℕ)
      → NoZero bs
      → length bs + 1 < 2 ^ 64
      → Outcome (Holds bs (length bs)) (Nothing mem) (strnew2 mem t (some (bs ++ (0 ∷ rest))))
        × Outcome (Holds [] 0) (Nothing mem) (strnew2 mem t none)
  unfolding strnew2
  strnew2-Outcome bs rest nz small = (
    rw (strlen-some bs rest nz, strnew2)
        (subst
          (λ l.
            Outcome (Holds l (length bs)) (Nothing mem)
              (strnewlen mem t (some (bs ++ (0 ∷ rest))) (length bs)))
          (take-append_length (length bs) bs (0 ∷ rest) refl)
          (strnewlen-Outcome (some (bs ++ (0 ∷ rest))) (length bs) small
            (omega (arith, length-append bs (0 ∷ rest))))),
    strnewlen-Outcome none 0 (omega arith) tt,
  )

  zeroed :
      (cap : ℕ) (b : List ℕ)
      → cap + 1 < 2 ^ 64
      → length b ≡ cap + 1
      → Holds [] cap (record { len = 0; cap = cap; buf = patched b 0 (replicate (suc cap) 0) })
  zeroed cap b small sized = record {
    valid = record {
      within = omega arith;
      sized = omega (
        arith,
        sized,
        length-patched b 0 (replicate (suc cap) 0)
            (omega (arith, length-replicate {A = ℕ} (suc cap) 0)),
      );
      ended = refl;
      small = small;
    };
    text = refl;
    room = refl;
  }

  -- wba_strnew makes a well-formed empty object of the given capacity, or it returns NULL.
  pub strnew-Outcome :
      (cap : ℕ) → cap + 1 < 2 ^ 64 → Outcome (Holds [] cap) (Nothing mem) (strnew mem t cap)
  unfolding strnew
  strnew-Outcome cap small = elim (Option-cases (mem.malloc t 24)) [
    | inl e ↦ rw (e, strnew) (refuses (refl, no_block _ _ e))
    | inr (h, e) ↦ elim (Option-cases (mem.malloc (t + 1) (add_size cap 1))) [
      | inl e' ↦ rw (e, strnew) (rw (e', strnew) (refuses (refl, no_block _ _ e')))
      | inr (b, e') ↦
          let sized : length b ≡ suc cap =
            mem.malloc_size (t + 1) (add_size cap 1) b e' ∙ omega arith in
          let n : add_size cap 1 ≡ suc cap = omega arith in
          let f =
            blit-some b 0 (replicate (suc cap) 0)
              (omega (arith, sized, length-replicate {A = ℕ} (suc cap) 0)) in
          rw (e, strnew)
            (rw (e', strnew)
              (rw n (rw (f, strnew) (returns (zeroed cap b small (omega (arith, sized)))))))
    ]
  ]

module _ (mem : Allocator) (t : ℕ) (ws : Str) (v : IsValid ws) where
  -- wba_strcpy of a C text: the object then holds its bytes, unless the text is empty: then the object
  -- is left as it is. A NULL result comes only where the object is too small, and leaves it alone.
  pub strcpy-Outcome :
      (bs rest : List ℕ)
      → NoZero bs
      → length bs + max_reserve_size + 1 < 2 ^ 64
      → Outcome
          (Holds (if length bs == 0 then contents ws else bs) (reserved_cap ws (length bs)))
          (Refused mem ws (length bs))
          (strcpy mem t (some ws) (some (bs ++ (0 ∷ rest))))
  unfolding strcpy
  strcpy-Outcome bs rest nz small =
      rw (strlen-some bs rest nz, strcpy)
        (subst
          (λ l.
            Outcome
              (Holds (if length bs == 0 then contents ws else l) (reserved_cap ws (length bs)))
              (Refused mem ws (length bs))
              (strncpy mem t (some ws) (some (bs ++ (0 ∷ rest))) (length bs)))
          (take-append_length (length bs) bs (0 ∷ rest) refl)
          (strncpy-Outcome mem t ws v (bs ++ (0 ∷ rest)) (length bs) small
            (omega (arith, length-append bs (0 ∷ rest)))))

  -- wba_strcat of a C text: the object then holds its old bytes and behind them those of the text. A
  -- NULL result comes only where the object is too small, and leaves it alone.
  pub strcat-Outcome :
      (bs rest : List ℕ)
      → NoZero bs
      → ws.len + length bs + max_reserve_size + 1 < 2 ^ 64
      → Outcome
          (Holds (contents ws ++ bs) (reserved_cap ws (ws.len + length bs)))
          (Refused mem ws (ws.len + length bs))
          (strcat mem t (some ws) (some (bs ++ (0 ∷ rest))))
  unfolding strcat
  strcat-Outcome bs rest nz small =
      rw (strlen-some bs rest nz, strcat)
        (subst
          (λ l.
            Outcome (Holds (contents ws ++ l) (reserved_cap ws (ws.len + length bs)))
              (Refused mem ws (ws.len + length bs))
              (strncat mem t (some ws) (some (bs ++ (0 ∷ rest))) (length bs)))
          (take-append_length (length bs) bs (0 ∷ rest) refl)
          (strncat-Outcome mem t ws v (bs ++ (0 ∷ rest)) (length bs) small
            (omega (arith, length-append bs (0 ∷ rest)))))
