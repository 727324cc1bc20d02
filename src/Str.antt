-- ===== src/Str.antt =====
-- c_data_structure/wba_str/wba_str.c and wba_str.h: byte strings with a length and a terminator.
-- A `wba_str_t *` is an `Option Str`, with `none` for NULL; the buffer is a list of bytes, and an
-- access outside it is a `crash`. `Allocator` stands for malloc and realloc.
pub mod Spec
pub mod Create
pub mod Reserve
pub mod Append
pub mod Token
mod Tests
use miscellaneous_repo.Prelude.{
  ℕ, suc, ◌+◌, ◌*◌, ◌%◌, ◌^◌, ◌≤◌, ◌≡◌, Option, none, some, List, [], ◌∷◌, ◌++◌, ltb, leb, ◌==◌,
  if◌then◌else◌, length, take, drop, replicate,
}

-- `size_t` addition wraps.
abbrev pub add_size : ℕ → ℕ → ℕ
add_size a b = (a + b) % 2 ^ 64

abbrev pub max_reserve_size : ℕ
max_reserve_size = 1024 * 1024

pub record Str : Type 0 where
  pub len : ℕ
  pub cap : ℕ
  pub buf : List ℕ

-- The C library's allocator. The first argument numbers the call, so that equal requests may have
-- different outcomes; `none` is a NULL result, and `some` holds the bytes found in the block.
-- The laws are what the C standard says of a result that is not NULL.
pub record Allocator : Type 0 where
  pub malloc : ℕ → ℕ → Option (List ℕ)
  pub realloc : ℕ → List ℕ → ℕ → Option (List ℕ)
  pub malloc_size : (t n : ℕ) (b : List ℕ) → malloc t n ≡ some b → length b ≡ n
  pub realloc_size :
      (t : ℕ) (a : List ℕ) (n : ℕ) (b : List ℕ) → realloc t a n ≡ some b → length b ≡ n
  pub realloc_keeps :
      (t : ℕ) (a : List ℕ) (n : ℕ) (b : List ℕ)
      → length a ≤ n
      → realloc t a n ≡ some b
      → take (length a) b ≡ a

-- What a call does: `crash` is an access out of bounds, `null` a NULL result beside the object as
-- the call leaves it, and `ret` the object that is returned.
pub data Ret : Type 0 where
  crash : Ret
  null : Option Str → Ret
  ret : Str → Ret

-- memcpy or memset over the bytes from `off` on; `none` is a write out of bounds.
pub blit : List ℕ → ℕ → List ℕ → Option (List ℕ)
blit buf off src =
    if leb (off + length src) (length buf)
    then some (take off buf ++ (src ++ drop (off + length src) buf))
    else none

-- The first `n` bytes behind a pointer; `none` is a read out of bounds.
pub read : List ℕ → ℕ → Option (List ℕ)
read src n = if leb n (length src) then some (take n src) else none

-- strlen; `none` is a text without terminator, which is read past its end.
pub strlen : List ℕ → Option ℕ
strlen [] = none
strlen (b ∷ bs) =
    let rest : Option ℕ = elim (strlen bs) [ none ↦ none | some n ↦ some (suc n) ] in
    if b == 0 then some 0 else rest

-- The bytes from `off` on are replaced, the length is set behind them, and the terminator written.
pub put : Str → ℕ → List ℕ → Ret
put ws off src = elim (blit ws.buf off src) [
  | none ↦ crash
  | some b ↦ elim (blit b (off + length src) (0 ∷ [])) [
    | none ↦ crash
    | some b' ↦ ret (record ws { len = off + length src; buf = b' })
  ]
]

module _ (mem : Allocator) where
  -- `none` for `init` is a null pointer. The struct's block holds no bytes of interest.
  pub strnewlen : ℕ → Option (List ℕ) → ℕ → Ret
  strnewlen t init initlen = elim (mem.malloc t 24) [
    | none ↦ null none
    | some _ ↦ elim (mem.malloc (t + 1) (add_size initlen 1)) [
      | none ↦ null none
      | some b ↦
          let ws : Str = record { len = initlen; cap = initlen; buf = b } in
          elim init [
            | none ↦ put ws 0 (replicate initlen 0)
            | some src ↦ elim (read src initlen) [ none ↦ crash | some bs ↦ put ws 0 bs ]
          ]
    ]
  ]

  pub strnew : ℕ → ℕ → Ret
  strnew t cap = elim (mem.malloc t 24) [
    | none ↦ null none
    | some _ ↦ elim (mem.malloc (t + 1) (add_size cap 1)) [
      | none ↦ null none
      | some b ↦ elim (blit b 0 (replicate (add_size cap 1) 0)) [
        | none ↦ crash
        | some b' ↦ ret (record { len = 0; cap = cap; buf = b' })
      ]
    ]
  ]

  pub strnew2 : ℕ → Option (List ℕ) → Ret
  strnew2 t none = strnewlen t none 0
  strnew2 t (some str) = elim (strlen str) [ none ↦ crash | some n ↦ strnewlen t (some str) n ]

  pub strgrow : ℕ → Option Str → ℕ → Ret
  strgrow t none cap = null none
  strgrow t (some ws) cap =
      if leb cap ws.cap then ret ws else elim (mem.realloc t ws.buf (add_size cap 1)) [
        | none ↦ null (some ws)
        | some b ↦ ret (record ws { buf = b; cap = cap })
      ]

  pub str_reserve : ℕ → Str → ℕ → Ret
  str_reserve t ws cap =
      if leb cap ws.cap
      then ret ws
      else if ltb cap max_reserve_size
      then strgrow t (some ws) ((cap * 2) % 2 ^ 64)
      else strgrow t (some ws) (add_size cap max_reserve_size)

  -- Reserve, then copy `n` bytes of the source to `off`: the common part of strncpy and strncat.
  pub reserve_put : ℕ → Str → ℕ → ℕ → List ℕ → ℕ → Ret
  reserve_put t ws need off str n = elim (str_reserve t ws need) [
    | crash ↦ crash
    | null o ↦ null o
    | ret ws' ↦ elim (read str n) [ none ↦ crash | some bs ↦ put ws' off bs ]
  ]

  pub strncpy : ℕ → Option Str → Option (List ℕ) → ℕ → Ret
  strncpy t none str n = null none
  strncpy t (some ws) none n = ret ws
  strncpy t (some ws) (some str) n = if n == 0 then ret ws else reserve_put t ws n 0 str n

  pub strcpy : ℕ → Option Str → Option (List ℕ) → Ret
  strcpy t none str = null none
  strcpy t (some ws) none = ret ws
  strcpy t (some ws) (some str) = elim (strlen str) [
    | none ↦ crash
    | some n ↦ strncpy t (some ws) (some str) n
  ]

  -- `str` is a text outside the object: one inside its buffer, which realloc may move, is not modelled.
  pub strncat : ℕ → Option Str → Option (List ℕ) → ℕ → Ret
  strncat t none str n = null none
  strncat t (some ws) none n = ret ws
  strncat t (some ws) (some str) n =
      if n == 0 then ret ws else reserve_put t ws (add_size ws.len n) ws.len str n

  pub strcat : ℕ → Option Str → Option (List ℕ) → Ret
  strcat t none str = null none
  strcat t (some ws) none = ret ws
  strcat t (some ws) (some str) = elim (strlen str) [
    | none ↦ crash
    | some n ↦ strncat t (some ws) (some str) n
  ]

  -- `text` is what the C library's vsnprintf produces for the format and its arguments, without
  -- the terminator; `none` is a negative result. The second call writes text and terminator.
  pub strcat_vprintf : ℕ → Option Str → Option (List ℕ) → Ret
  strcat_vprintf t none text = null none
  strcat_vprintf t (some ws) none = null (some ws)
  strcat_vprintf t (some ws) (some text) = elim (str_reserve t ws (add_size ws.len (length text))) [
    | crash ↦ crash
    | null o ↦ null o
    | ret ws' ↦ put ws' ws'.len text
  ]

-- wba_strclr writes the terminator at index 0.
pub strclr : Option Str → Ret
strclr none = null none
strclr (some ws) = elim (blit ws.buf 0 (0 ∷ [])) [
  | none ↦ crash
  | some b ↦ ret (record ws { len = 0; buf = b })
]
