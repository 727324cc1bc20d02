-- ===== src/Str/Append.antt =====
-- What strncpy, strcpy, strncat, strcat, strcat_vprintf and strclr do.
use miscellaneous_repo.Prelude.{
  ℕ, zero, suc, ◌+◌, ◌^◌, ◌≤◌, ◌<◌, ◌≡◌, refl, sym, ap, subst, ◌∙◌, false, none, some, List, [],
  ◌∷◌, ◌++◌, arith, append-nil, ◌==◌, if◌then◌else◌, length, take, take-take, length-take,
}
use miscellaneous_repo.Str.{
  Str, Ret, crash, null, ret, Allocator, max_reserve_size, add_size, read, put, reserve_put,
  strncpy, strncat, strcat_vprintf, strclr,
}
use miscellaneous_repo.Str.Spec.{
  contents, IsValid, Outcome, returns, refuses, Holds, blit-some, length-patched, put-Outcome,
}
use miscellaneous_repo.Str.Reserve.{
  Grown, Refused, read-some, reserved_cap, reserved_cap_same, str_reserve-Outcome,
}

module _ (mem : Allocator) (t : ℕ) (ws : Str) (v : IsValid ws) where
  Grown-take :
      (off : ℕ) {need : ℕ} {s : Str}
      → off ≤ ws.len
      → Grown ws need s
      → take off s.buf ≡ take off ws.buf
  Grown-take off {s = s} le g =
      sym (take-take off (ws.len + 1) s.buf (omega arith))
      ∙ ap (take off) g.kept
      ∙ take-take off (ws.len + 1) ws.buf (omega arith)

  put-read :
      (off need : ℕ) (src : List ℕ) {s : Str}
      → off ≤ ws.len
      → off + length src ≤ need
      → Grown ws need s
      → Outcome (Holds (take off ws.buf ++ src) s.cap) (Refused mem ws need) (put s off src)
  put-read off need src {s} le fits g = rw (← Grown-take off le g) (
      put-Outcome (Refused mem ws need) s off src g.valid.sized g.valid.small
        (omega (arith, g.room)))

  reserve_put-Outcome :
      (need off : ℕ) (str : List ℕ) (n : ℕ)
      → off ≤ ws.len
      → off + n ≤ need
      → need + max_reserve_size + 1 < 2 ^ 64
      → n ≤ length str
      → Outcome
          (Holds (take off ws.buf ++ take n str) (reserved_cap ws need))
          (Refused mem ws need)
          (reserve_put mem t ws need off str n)
  unfolding reserve_put
  reserve_put-Outcome need off str n le fits small has =
      go (str_reserve-Outcome mem t ws v need small)
    where
      go :
          {r : Ret}
          → Outcome (λ s. Grown ws need s × (s.cap ≡ reserved_cap ws need)) (Refused mem ws need) r
          → Outcome
              (Holds (take off ws.buf ++ take n str) (reserved_cap ws need))
              (Refused mem ws need)
              (elim r [
                | crash ↦ crash
                | null o ↦ null o
                | ret ws' ↦ elim (read str n) [ none ↦ crash | some bs ↦ put ws' off bs ]
              ])
      go (refuses h) = refuses h
      go (returns h) =
          rw (read-some str n has)
            (rw (← h.1) (put-read off need (take n str) le (omega (arith, length-take n str)) h.0))

  -- wba_strncpy of `n` bytes, of a source that has them and where the sizes do not wrap: the object
  -- then holds exactly those bytes, unless `n` is 0, where it is left as it is. A NULL result comes
  -- only where the object is too small, and leaves it alone.
  pub strncpy-Outcome :
      (str : List ℕ) (n : ℕ)
      → n + max_reserve_size + 1 < 2 ^ 64
      → n ≤ length str
      → Outcome
          (Holds (if n == 0 then contents ws else take n str) (reserved_cap ws n))
          (Refused mem ws n)
          (strncpy mem t (some ws) (some str) n)
  unfolding strncpy
  strncpy-Outcome str zero small has =
      returns (record {
        valid = v;
        text = refl;
        room = sym (reserved_cap_same mem t ws v 0 (omega arith));
      })
  strncpy-Outcome str (suc n) small has =
      let e : (suc n == 0) ≡ false = ground arith in
      rw e (reserve_put-Outcome (suc n) 0 str (suc n) (omega arith) (omega arith) small has)

  -- wba_strncat of `n` bytes, of a source that has them and where the sizes do not wrap: the object
  -- then holds its old bytes and behind them the new ones. A NULL result comes only where the object
  -- is too small, and leaves it alone.
  pub strncat-Outcome :
      (str : List ℕ) (n : ℕ)
      → ws.len + n + max_reserve_size + 1 < 2 ^ 64
      → n ≤ length str
      → Outcome
          (Holds (contents ws ++ take n str) (reserved_cap ws (ws.len + n)))
          (Refused mem ws (ws.len + n))
          (strncat mem t (some ws) (some str) n)
  unfolding strncat
  strncat-Outcome str zero small has = returns (record {
    valid = v;
    text = sym (append-nil (contents ws));
    room = sym (reserved_cap_same mem t ws v (ws.len + 0) (omega (arith, v.within)));
  })
  strncat-Outcome str (suc n) small has =
      let e : add_size ws.len (suc n) ≡ ws.len + suc n = omega arith in
      let f : (suc n == 0) ≡ false = ground arith in
      rw (e, f)
        (reserve_put-Outcome (ws.len + suc n) ws.len str (suc n) (omega arith) (omega arith) small
          has)

  -- wba_strcat_vprintf, for the text that vsnprintf makes and sizes that do not wrap: the object then
  -- holds its old bytes and behind them the text. A NULL result comes only where the object is too
  -- small, and leaves it alone.
  pub strcat_vprintf-Outcome :
      (text : List ℕ)
      → ws.len + length text + max_reserve_size + 1 < 2 ^ 64
      → Outcome
          (Holds (contents ws ++ text) (reserved_cap ws (ws.len + length text)))
          (Refused mem ws (ws.len + length text))
          (strcat_vprintf mem t (some ws) (some text))
  unfolding strcat_vprintf
  strcat_vprintf-Outcome text small =
      let e : add_size ws.len (length text) ≡ ws.len + length text = omega arith in
      rw (e, strcat_vprintf) (go (str_reserve-Outcome mem t ws v (ws.len + length text) small))
    where
      go :
          {r : Ret}
          → Outcome
              (λ s.
                Grown ws (ws.len + length text) s
                × (s.cap ≡ reserved_cap ws (ws.len + length text)))
              (Refused mem ws (ws.len + length text))
              r
          → Outcome
              (Holds (contents ws ++ text) (reserved_cap ws (ws.len + length text)))
              (Refused mem ws (ws.len + length text))
              (elim r [ crash ↦ crash | null o ↦ null o | ret ws' ↦ put ws' ws'.len text ])
      go (refuses h) = refuses h
      go (returns {s} h) =
          subst
            (λ k.
              Outcome (Holds (contents ws ++ text) k) (Refused mem ws (ws.len + length text))
                (put s s.len text))
            h.1
            (subst
              (λ k.
                Outcome (Holds (contents ws ++ text) s.cap) (Refused mem ws (ws.len + length text))
                  (put s k text))
              (sym h.0.same_len)
              (put-read ws.len (ws.len + length text) text (omega arith) (omega arith) h.0))

  -- wba_strclr leaves a well-formed empty object of the same capacity.
  pub strclr-Outcome : Outcome (Holds [] ws.cap) (λ _. ⊥) (strclr (some ws))
  unfolding strclr
  strclr-Outcome =
      let e = blit-some ws.buf 0 (0 ∷ []) (omega (arith, v.sized)) in
      rw (e, strclr)
        (returns (record {
          valid = record {
            within = omega arith;
            sized =
                omega (arith, v.sized, length-patched ws.buf 0 (0 ∷ []) (omega (arith, v.sized)));
            ended = refl;
            small = v.small;
          };
          text = refl;
          room = refl;
        }))
