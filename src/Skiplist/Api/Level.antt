-- ===== src/Skiplist/Api/Level.antt =====
-- The level of a new node.
use miscellaneous_repo.Prelude.{
  ℕ, zero, suc, ◌+◌, ◌-◌, ◌/◌, ◌^◌, ◌≤◌, ◌<◌, ◌≡◌, refl, inl, inr, some, arith, ltb, lt→ltb,
  if◌then◌else◌, Bool-cases,
}
use miscellaneous_repo.Skiplist.{Store}
use miscellaneous_repo.Skiplist.Api.{rand_steps, rand_level, set_level}

-- `j` after `k` doublings.
doubled : ℕ → ℕ → ℕ
doubled j zero = j
doubled j (suc k) = doubled (j + j) k

doubled-grows : (k j : ℕ) → j ≤ doubled j k
unfolding doubled
doubled-grows zero j = omega arith
doubled-grows (suc k) j = omega (arith, doubled-grows k (j + j))

doubled_mono : (k n j : ℕ) → k ≤ n → doubled j k ≤ doubled j n
unfolding doubled
doubled_mono zero n j h = doubled-grows n j
doubled_mono (suc k) zero j h = absurd (omega arith)
doubled_mono (suc k) (suc n) j h = doubled_mono k n (j + j) (omega arith)

-- With room for its doublings the loop ends, with a level within its reach.
rand_steps-some :
    (rand_max t k i j : ℕ)
    → doubled j k < 2 ^ 31
    → (r : ℕ) × (rand_steps rand_max t k i j ≡ some r) × (i ≤ r) × (r ≤ i + k)
unfolding rand_steps doubled
rand_steps-some rand_max t zero i j h = (i, refl, omega arith, omega arith)
rand_steps-some rand_max t (suc k) i j h = elim (Bool-cases (ltb (rand_max / j) t)) [
  | inl stop ↦ (i, rw (stop, rand_steps) refl, omega arith, omega arith)
  | inr on ↦
      let fits : j + j < 2 ^ 31 = omega (arith, h, doubled-grows k (j + j)) in
      let (r, e, lo, hi) = rand_steps-some rand_max t k (i + 1) (j + j) h in
      (r, rw (on, lt→ltb _ _ fits, rand_steps) e, omega arith, omega arith)
]

-- The loop of rand_level, for a list of at most 30 levels.
pub rand_steps-bounds :
    (rand_max t max_level : ℕ)
    → 1 ≤ max_level
    → max_level ≤ 30
    → (r : ℕ) × (rand_steps rand_max t (max_level - 1) 1 2 ≡ some r) × (1 ≤ r) × (r ≤ max_level)
rand_steps-bounds rand_max t max_level lo hi =
    let top : doubled 2 29 < 2 ^ 31 = unfold doubled in omega arith in
    let room = doubled_mono (max_level - 1) 29 2 (omega arith) in
    let (r, e, one, up) =
      rand_steps-some rand_max t (max_level - 1) 1 2 (omega (arith, room, top)) in
    (r, e, one, omega arith)

-- rand_level, for a list of at most 30 levels: it gives a level from 1 to `max_level`, and raises the
-- level of the list to it where that is lower; the nodes and the rest of the list stay as they are.
pub rand_level-bounds :
    (rand_max t : ℕ) (s : Store)
    → 1 ≤ s.list.max_level
    → s.list.max_level ≤ 30
    → (r : ℕ) × (rand_level rand_max t s
        ≡ some (r, if ltb s.list.level r then set_level r s else s))
      × (1 ≤ r)
      × (r ≤ s.list.max_level)
unfolding rand_level
rand_level-bounds rand_max t s lo hi =
    let (r, e, one, up) = rand_steps-bounds rand_max t s.list.max_level lo hi in
    (r, rw e refl, one, up)
