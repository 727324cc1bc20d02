-- ===== src/Str/Spec.antt =====
-- What an object of wba_str.c stands for, when it is well formed, and how a result is read.
use miscellaneous_repo.Prelude.{
  ℕ, ◌+◌, ◌^◌, ◌≤◌, ◌<◌, ◌≡◌, refl, sym, ap, ◌∙◌, Option, none, some, List, [], ◌∷◌, ◌++◌, arith,
  append_assoc, length, take, drop, get_elem?, length-append, length-take, length-drop,
  take-append_length, get_elem?-append_length,
}
use miscellaneous_repo.Str.{Str, Ret, Allocator, null, ret, blit, put}

-- The bytes before the terminator.
abbrev pub contents : Str → List ℕ
contents s = take s.len s.buf

pub record IsValid (s : Str) : Type 0 where
  pub within : s.len ≤ s.cap
  pub sized : length s.buf ≡ s.cap + 1
  pub ended : get_elem? s.buf s.len ≡ some 0
  pub small : s.cap + 1 < 2 ^ 64

-- Some request to the allocator gives NULL.
pub data Failed (mem : Allocator) : Type 0 where
  no_block : (t n : ℕ) → mem.malloc t n ≡ none → Failed mem
  no_growth : (t : ℕ) (a : List ℕ) (n : ℕ) → mem.realloc t a n ≡ none → Failed mem

-- The call does not crash; it satisfies `P` where it returns an object, and `N` where it returns NULL.
pub data Outcome (P : Str → Type 0) (N : Option Str → Type 0) : Ret → Type 0 where
  returns : {s : Str} → P s → Outcome P N (ret s)
  refuses : {o : Option Str} → N o → Outcome P N (null o)

-- `s` is well formed and holds the bytes `bs`, at the given capacity.
pub record Holds (bs : List ℕ) (cap : ℕ) (s : Str) : Type 0 where
  pub valid : IsValid s
  pub text : contents s ≡ bs
  pub room : s.cap ≡ cap

pub blit-some :
    (buf : List ℕ) (off : ℕ) (src : List ℕ)
    → off + length src ≤ length buf
    → blit buf off src ≡ some (take off buf ++ (src ++ drop (off + length src) buf))
unfolding blit
blit-some buf off src h = ground arith

abbrev pub patched : List ℕ → ℕ → List ℕ → List ℕ
patched buf off src = take off buf ++ (src ++ drop (off + length src) buf)

pub length-patched :
    (buf : List ℕ) (off : ℕ) (src : List ℕ)
    → off + length src ≤ length buf
    → length (patched buf off src) ≡ length buf
length-patched buf off src h = omega (
  arith,
  length-append (take off buf) (src ++ drop (off + length src) buf),
  length-append src (drop (off + length src) buf),
  length-take off buf,
  length-drop (off + length src) buf,
)

take-patched :
    (buf : List ℕ) (off : ℕ) (src : List ℕ)
    → off + length src ≤ length buf
    → take (off + length src) (patched buf off src) ≡ take off buf ++ src
take-patched buf off src h =
    ap (take (off + length src))
      (sym (append_assoc (take off buf) src (drop (off + length src) buf)))
    ∙ take-append_length (off + length src) (take off buf ++ src) _
        (omega (arith, length-append (take off buf) src, length-take off buf))

-- The buffer that `put` leaves.
abbrev ended_at : List ℕ → ℕ → List ℕ → List ℕ
ended_at buf off src = patched (patched buf off src) (off + length src) (0 ∷ [])

put-ret :
    (ws : Str) (off : ℕ) (src : List ℕ)
    → off + length src < length ws.buf
    → put ws off src ≡ ret (record ws { len = off + length src; buf = ended_at ws.buf off src })
unfolding put
put-ret ws off src h =
    let one = blit-some ws.buf off src (omega arith) in
    let two =
      blit-some (patched ws.buf off src) (off + length src) (0 ∷ [])
        (omega (arith, length-patched ws.buf off src)) in
    rw (one, put) (rw (two, put))

-- Inside a buffer that has room, `put` keeps what stands before the offset and adds the source.
pub put-Outcome :
    (N : Option Str → Type 0) (ws : Str) (off : ℕ) (src : List ℕ)
    → length ws.buf ≡ ws.cap + 1
    → ws.cap + 1 < 2 ^ 64
    → off + length src ≤ ws.cap
    → Outcome (Holds (take off ws.buf ++ src) ws.cap) N (put ws off src)
put-Outcome N ws off src sized small h = rw (put-ret ws off src (omega arith)) (
    returns (record {
      valid = record {
        within = h;
        sized = omega (arith, first, second);
        ended = ended;
        small = small;
      };
      text = text;
      room = refl;
    }))
  where
    first : length (patched ws.buf off src) ≡ length ws.buf
    first = length-patched ws.buf off src (omega arith)

    second : length (ended_at ws.buf off src) ≡ length (patched ws.buf off src)
    second =
        length-patched (patched ws.buf off src) (off + length src) (0 ∷ []) (omega (arith, first))

    ended : get_elem? (ended_at ws.buf off src) (off + length src) ≡ some 0
    ended =
        get_elem?-append_length (off + length src)
          (take (off + length src) (patched ws.buf off src)) 0 _
          (omega (arith, first, length-take (off + length src) (patched ws.buf off src)))

    text : take (off + length src) (ended_at ws.buf off src) ≡ take off ws.buf ++ src
    text =
        take-append_length (off + length src) (take (off + length src) (patched ws.buf off src)) _
          (omega (arith, first, length-take (off + length src) (patched ws.buf off src)))
        ∙ take-patched ws.buf off src (omega arith)

pub Outcome-mono :
    {P Q : Str → Type 0} {N M : Option Str → Type 0} {r : Ret}
    → Outcome P N r
    → ((s : Str) → P s → Q s)
    → ((o : Option Str) → N o → M o)
    → Outcome Q M r
Outcome-mono (returns p) f g = returns (f _ p)
Outcome-mono (refuses n) f g = refuses (g _ n)
