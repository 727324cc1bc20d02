-- ===== src/Str/Reserve.antt =====
-- strgrow and str_reserve: the capacity that they make, and what they keep.
use miscellaneous_repo.Prelude.{
  ℕ, ◌+◌, ◌*◌, ◌^◌, ◌≤◌, ◌<◌, ◌≡◌, refl, sym, ap, ◌∙◌, inl, inr, Option, none, some, List, arith,
  leb, ltb, if◌then◌else◌, Option-cases, length, take, get_elem?, take-take, get_elem?-take,
}
use native.Mathlib.Decide.{dec_le}
use miscellaneous_repo.Str.{
  Str, null, ret, Allocator, max_reserve_size, add_size, read, strgrow, str_reserve,
}
use miscellaneous_repo.Str.Spec.{
  IsValid, Failed, no_growth, Outcome, returns, refuses, Outcome-mono,
}

-- What a reserved object still is: the same text, in at least the wanted capacity.
pub record Grown (ws : Str) (need : ℕ) (s : Str) : Type 0 where
  pub valid : IsValid s
  pub same_len : s.len ≡ ws.len
  pub kept : take (ws.len + 1) s.buf ≡ take (ws.len + 1) ws.buf
  pub room : need ≤ s.cap
  pub more : ws.cap ≤ s.cap

-- A NULL result of `ws` leaves the object alone, and comes only where it would have to grow and the
-- allocator refuses.
abbrev pub Refused : Allocator → Str → ℕ → Option Str → Type 0
Refused mem ws need o = (o ≡ some ws) × (ws.cap < need) × Failed mem

pub read-some : (str : List ℕ) (n : ℕ) → n ≤ length str → read str n ≡ some (take n str)
unfolding read
read-some str n h = ground arith

-- The capacity after a reservation of `need` bytes for `ws`.
pub reserved_cap : Str → ℕ → ℕ
reserved_cap ws need =
    if leb need ws.cap
    then ws.cap
    else if ltb need max_reserve_size
    then need * 2
    else need + max_reserve_size

module _ (mem : Allocator) (t : ℕ) (ws : Str) (v : IsValid ws) where
  grow-null :
      (cap : ℕ)
      → ws.cap < cap
      → mem.realloc t ws.buf (add_size cap 1) ≡ none
      → strgrow mem t (some ws) cap ≡ null (some ws)
  unfolding strgrow
  grow-null cap h e = ground arith

  grow-ret :
      (cap : ℕ) (b : List ℕ)
      → ws.cap < cap
      → mem.realloc t ws.buf (add_size cap 1) ≡ some b
      → strgrow mem t (some ws) cap ≡ ret (record ws { buf = b; cap = cap })
  unfolding strgrow
  grow-ret cap b h e = ground arith

  grown :
      (b : List ℕ) (cap : ℕ)
      → ws.cap < cap
      → cap + 1 < 2 ^ 64
      → mem.realloc t ws.buf (add_size cap 1) ≡ some b
      → Grown ws cap (record ws { buf = b; cap = cap })
  grown b cap h fits e = record {
    valid = record {
      within = omega (arith, v.within);
      sized = omega (arith, mem.realloc_size t ws.buf (add_size cap 1) b e);
      ended = ended ∙ v.ended;
      small = fits;
    };
    same_len = refl;
    kept = kept;
    room = omega arith;
    more = omega arith;
  }
    where
      whole : take (length ws.buf) b ≡ ws.buf
      whole = mem.realloc_keeps t ws.buf (add_size cap 1) b (omega (arith, v.sized)) e

      kept : take (ws.len + 1) b ≡ take (ws.len + 1) ws.buf
      kept =
          sym (take-take (ws.len + 1) (length ws.buf) b (omega (arith, v.sized, v.within)))
          ∙ ap (take (ws.len + 1)) whole

      ended : get_elem? b ws.len ≡ get_elem? ws.buf ws.len
      ended =
          sym (get_elem?-take (length ws.buf) ws.len b (omega (arith, v.sized, v.within)))
          ∙ ap (λ l. get_elem? l ws.len) whole

  grow-Outcome :
      (cap : ℕ)
      → ws.cap < cap
      → cap + 1 < 2 ^ 64
      → Outcome
          (λ s. Grown ws cap s × (s.cap ≡ cap))
          (λ o. (o ≡ some ws) × Failed mem)
          (strgrow mem t (some ws) cap)
  grow-Outcome cap h fits = elim (Option-cases (mem.realloc t ws.buf (add_size cap 1))) [
    | inl e ↦ rw (grow-null cap h e) (refuses (refl, no_growth _ _ _ e))
    | inr (b, e) ↦ rw (grow-ret cap b h e) (returns (grown b cap h fits e, refl))
  ]

  reserve-ret : (need : ℕ) → need ≤ ws.cap → str_reserve mem t ws need ≡ ret ws
  unfolding str_reserve
  reserve-ret need le = ground arith

  reserve-grow :
      (need : ℕ)
      → need + max_reserve_size + 1 < 2 ^ 64
      → ws.cap < need
      → str_reserve mem t ws need ≡ strgrow mem t (some ws) (reserved_cap ws need)
  unfolding str_reserve reserved_cap
  reserve-grow need fits gt = ground arith

  reserved_cap_bounds :
      (need : ℕ)
      → need + max_reserve_size + 1 < 2 ^ 64
      → ws.cap < need
      → (ws.cap < reserved_cap ws need)
        × (need ≤ reserved_cap ws need)
        × (reserved_cap ws need + 1 < 2 ^ 64)
  unfolding reserved_cap
  reserved_cap_bounds need fits gt = ground arith

  pub reserved_cap_same : (need : ℕ) → need ≤ ws.cap → reserved_cap ws need ≡ ws.cap
  unfolding reserved_cap
  reserved_cap_same need le = ground arith

  Grown-le : {m n : ℕ} {s : Str} → m ≤ n → Grown ws n s → Grown ws m s
  Grown-le le g = record {
    valid = g.valid;
    same_len = g.same_len;
    kept = g.kept;
    room = omega (arith, g.room);
    more = g.more;
  }

  -- wba_str_reserve gives a NULL result only where the object is too small for `need` bytes, and then
  -- leaves it alone; else the text is kept, and the capacity is the old one where that is enough,
  -- twice the need below one mebibyte, and one mebibyte more than the need from there on.
  pub str_reserve-Outcome :
      (need : ℕ)
      → need + max_reserve_size + 1 < 2 ^ 64
      → Outcome
          (λ s. Grown ws need s × (s.cap ≡ reserved_cap ws need))
          (Refused mem ws need)
          (str_reserve mem t ws need)
  str_reserve-Outcome need fits = elim (dec_le need ws.cap) [
    | yes le ↦ rw (reserve-ret need le) (
        returns (
          record { valid = v; same_len = refl; kept = refl; room = le; more = omega arith },
          sym (reserved_cap_same need le),
        ))
    | no gt ↦
        let b = reserved_cap_bounds need fits (omega arith) in
        rw (reserve-grow need fits (omega arith)) (
          Outcome-mono (grow-Outcome (reserved_cap ws need) b.0 b.2)
            (λ s h. (Grown-le b.1 h.0, h.1)) (λ o h. (h.0, omega arith, h.1)))
  ]
