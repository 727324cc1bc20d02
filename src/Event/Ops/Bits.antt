-- ===== src/Event/Ops/Bits.antt =====
-- `fd & sizemask` of network/wba_event/wba_evloop.c is not above the mask, and for the mask 31 the remainder by 32.
use Prim.Native.Nat.{bit_and, digits, bit_and-bitwise, min}
use miscellaneous_repo.Prelude.{
  ℕ, zero, suc, ◌+◌, ◌*◌, ◌/◌, ◌%◌, ◌≤◌, ◌≡◌, refl, sym, ap, subst, ◌∙◌, arith,
}

digits-below : (f : ℕ → ℕ → ℕ) → ((x y : ℕ) → f x y ≤ y) → (n a b : ℕ) → digits (λ c. 0) f n a b ≤ b
digits-below f small zero a b = omega arith
digits-below f small (suc n) zero b = omega arith
digits-below f small (suc n) (suc a) b =
    omega (arith, digits-below f small n (suc a / 2) (b / 2), small (suc a % 2) (b % 2))

pub bit_and-below : (a b : ℕ) → bit_and a b ≤ b
bit_and-below a b =
    subst (λ x. x ≤ b) (sym (bit_and-bitwise a b)) (digits-below min (λ x y. omega arith) a a b)

-- Where the mask is 2 * m + 1, the last digit of the number is kept.
abbrev IsMod : ℕ → ℕ → Type 0
IsMod m size = (n a : ℕ) → a ≤ n → digits (λ c. 0) min n a m ≡ a % size

IsMod-one : IsMod 0 1
IsMod-one zero a h = omega arith
IsMod-one (suc n) zero h = refl
IsMod-one (suc n) (suc a) h = omega (arith, IsMod-one n (suc a / 2) (omega (arith, h)))

digit-kept :
    (m size : ℕ)
    → IsMod m size
    → (n a : ℕ) → a ≤ n
    → digits (λ c. 0) min n a (m * 2 + 1) ≡ (a / 2) % size * 2 + a % 2
digit-kept m size is zero a h =
    let no_rest : 0 ≡ 0 % size = is 0 0 (omega arith) in
    let none_ : a ≡ 0 = omega (arith, h) in rw none_ (ap (λ x. x * 2) no_rest ∙ omega arith)
digit-kept m size is (suc n) zero h = ap (λ x. x * 2) (is 0 0 (omega arith)) ∙ omega arith
digit-kept m size is (suc n) (suc a) h =
    let half : (m * 2 + 1) / 2 ≡ m = omega arith in
    let odd : (m * 2 + 1) % 2 ≡ 1 = omega arith in
    let rest = ap (digits (λ c. 0) min n (suc a / 2)) half ∙ is n (suc a / 2) (omega (arith, h)) in
    omega (arith, rest, odd)

pub bit_and-31 : (a : ℕ) → bit_and a 31 ≡ a % 32
bit_and-31 a = bit_and-bitwise a 31 ∙ mod_32 a a (omega arith)
  where
    mod_2 : IsMod 1 2
    mod_2 n a h = digit-kept 0 1 IsMod-one n a h ∙ omega arith

    mod_4 : IsMod 3 4
    mod_4 n a h = digit-kept 1 2 mod_2 n a h ∙ omega arith

    mod_8 : IsMod 7 8
    mod_8 n a h = digit-kept 3 4 mod_4 n a h ∙ omega arith

    mod_16 : IsMod 15 16
    mod_16 n a h = digit-kept 7 8 mod_8 n a h ∙ omega arith

    mod_32 : IsMod 31 32
    mod_32 n a h = digit-kept 15 16 mod_16 n a h ∙ omega arith
