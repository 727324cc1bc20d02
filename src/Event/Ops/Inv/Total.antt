-- ===== src/Event/Ops/Inv/Total.antt =====
-- The sum over the slots of the map, and which slot a descriptor has.
use Prim.Native.Nat.{bit_and}
use miscellaneous_repo.Prelude.{
  ℕ, zero, suc, ◌+◌, ◌≤◌, ◌<◌, ◌≡◌, refl, ap, subst, inl, inr, false, arith, ◌==◌, Bool-cases,
  ==_iff,
}
use miscellaneous_repo.Prelude.Int.{ℤ, pos, negsuc}
use miscellaneous_repo.Event.Ops.{update, negative, slot_of}
use miscellaneous_repo.Event.Ops.Inv.{total}

-- What an update changes in a sum.
total-update_behind :
    {A : Type 0} (f : A → ℕ) (g : ℕ → A) (s : ℕ) (a : A) (n : ℕ)
    → n ≤ s
    → total (λ k. f (update g s a k)) n ≡ total (λ k. f (g k)) n
total-update_behind f g s a zero h = refl
total-update_behind f g s a (suc n) h =
    let other : (s == n) ≡ false = ground arith in
    rw other (ap (λ t. t + f (g n)) (total-update_behind f g s a n (omega (arith, h))))

pub total-update :
    {A : Type 0} (f : A → ℕ) (g : ℕ → A) (s : ℕ) (a : A) (n : ℕ)
    → s < n
    → total (λ k. f (update g s a k)) n + f (g s) ≡ total (λ k. f (g k)) n + f a
total-update f g s a zero h = omega (arith, h)
total-update f g s a (suc n) h = elim (Bool-cases (s == n)) [
  | inl here ↦
      let before = total-update_behind f g s a n (ground (arith, here)) in
      let same : s ≡ n = (==_iff s n).0 here in
      rw here (
        rw same (
          omega (
            arith,
            subst (λ x. total (λ k. f (update g x a k)) n ≡ total (λ k. f (g k)) n) same before,
          )))
  | inr there ↦
      let before = total-update f g s a n (ground (arith, there, h)) in
      rw there (omega (arith, before))
]

-- A descriptor that is not negative has its slot in the array.
pub slot_of-fits :
    (fd : ℤ) (mask size : ℕ)
    → ((n : ℕ) → bit_and n mask < size)
    → negative fd ≡ false
    → slot_of fd mask < size
slot_of-fits (pos n) mask size fits h = fits n
slot_of-fits (negsuc n) mask size fits h = ground arith
