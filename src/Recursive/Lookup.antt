-- ===== src/Recursive/Lookup.antt =====
-- sklist_search of skiplist.r.c on a list that holds given entries, and after an insertion.
use miscellaneous_repo.Prelude.{
  ℕ, zero, suc, ◌+◌, ◌-◌, ◌≤◌, ◌<◌, ◌≡◌, refl, sym, ap, ◌∙◌, subst, ◌⊎◌, inl, inr, true, false,
  Option, none, some, ◌>>=◌, List, [], ◌∷◌, ◌++◌, arith, ltb, if◌then◌else◌, length, Bool-cases,
  ◌==◌,
}
use miscellaneous_repo.Prelude.Int.{ℤ, negsuc, ltb_ℤ}
use miscellaneous_repo.Skiplist.{Ptr}
use miscellaneous_repo.Recursive.{Store, ends_or, link_at, same_key, search_node, sklist_search}
use miscellaneous_repo.Recursive.Rows.{
  Entry, first, row, All, All-append, All-mono, lowest-row, All-split, link_of, key_at, Row,
  Row-first,
}
use miscellaneous_repo.Recursive.Links.{link_of-some, key_at-some, key-node}
use miscellaneous_repo.Recursive.Walk.{Ordered, IsList, IsList-low, Ordered-split}
use miscellaneous_repo.Recursive.Place.{
  Place, Place-Row, step-cases, stops, ends_or-first, start, down, right,
}
use miscellaneous_repo.Recursive.Entries.{not_below}
use miscellaneous_repo.Recursive.Delete.{not_below_mono}

-- Some entry satisfies it.
abbrev pub Any : (Entry → Type 0) → List Entry → Type 0
Any holds [] = ⊥
Any holds (e ∷ es) = holds e ⊎ Any holds es

pub Any-append_right :
    (holds : Entry → Type 0) (es zs : List Entry) → Any holds zs → Any holds (es ++ zs)
Any-append_right holds [] zs a = a
Any-append_right holds (e ∷ es) zs a = inr (Any-append_right holds es zs a)

Any-row : (holds : Entry → Type 0) (i : ℕ) (es : List Entry) → Any holds (row i es) → Any holds es
Any-row holds i [] a = a
Any-row holds i (e ∷ es) a = elim (Bool-cases (ltb i e.height)) [
  | inl h ↦ elim (subst (λ b. Any holds (if b then e ∷ row i es else row i es)) h a) [
    | inl x ↦ inl x
    | inr x ↦ inr (Any-row holds i es x)
  ]
  | inr h ↦
      inr (Any-row holds i es (subst (λ b. Any holds (if b then e ∷ row i es else row i es)) h a))
]

module _ (key : ℤ) where
  abbrev pub Other : Entry → Type 0
  Other e = same_key e.key key ≡ false

  -- The block of an entry with the key, or NULL where no entry has it.
  abbrev pub Finds : Ptr → List Entry → Type 0
  Finds none es = All Other es
  Finds (some q) es = Any (λ e. (e.block ≡ q) × (same_key e.key key ≡ true)) es

  -- One call of search_node, at a node with another key.
  module _ (s : Store) (f p i : ℕ) (k : ℤ) (is_key : key_at s.nodes p ≡ some k)
      (other : same_key k key ≡ false) (q : Ptr) (link : link_of s.nodes p i ≡ some q) where
    search_node-right :
        ends_or (ltb_ℤ key) q s ≡ some false
        → search_node (suc f) (some p) key (suc i) s ≡ search_node f q key (suc i) s
    unfolding search_node link_at
    search_node-right t =
        let (n, here, at) = link_of-some s.nodes p i q link in
        let same = key-node s.nodes p n k here is_key in
        let other' : same_key n.key key ≡ false = ap (λ x. same_key x key) same ∙ other in
        rw here (rw (other', ◌>>=◌) (rw (at, ◌>>=◌) (rw (t, ◌>>=◌) refl)))

    search_node-down :
        ends_or (ltb_ℤ key) q s ≡ some true
        → search_node (suc f) (some p) key (suc i) s
          ≡ (elim (suc i == 1) [ true ↦ some none | false ↦ search_node f (some p) key i s ])
    unfolding search_node link_at
    search_node-down t =
        let (n, here, at) = link_of-some s.nodes p i q link in
        let same = key-node s.nodes p n k here is_key in
        let other' : same_key n.key key ≡ false = ap (λ x. same_key x key) same ∙ other in
        let less : suc i - 1 ≡ i = omega arith in
        rw here (
          rw (other', ◌>>=◌)
            (rw (at, ◌>>=◌)
              (rw (t, ◌>>=◌)
                (ap
                  (λ j. elim (suc i == 1) [
                    | true ↦ some none
                    | false ↦ search_node f (some p) key j s
                  ])
                  less))))

  search_node-here :
      (s : Store) (f p l : ℕ) (k : ℤ)
      → key_at s.nodes p ≡ some k
      → same_key k key ≡ true
      → search_node (suc f) (some p) key l s ≡ some (some p)
  unfolding search_node
  search_node-here s f p l k is_key same =
      let (n, here, e) = key_at-some s.nodes p k is_key in
      let same' : same_key n.key key ≡ true = ap (λ x. same_key x key) e ∙ same in
      rw here (rw (same', ◌>>=◌) refl)

  above-All :
      (e : Entry) (es : List Entry) → ltb_ℤ key e.key ≡ true → Ordered (e ∷ es) → All Other (e ∷ es)
  above-All e es h o =
      (ground arith, All-mono (λ x. ltb_ℤ x.key e.key ≡ false) Other es (λ x k. ground arith) o.0)

  below-All : (es : List Entry) → All (λ e. not_below key e.key ≡ false) es → All Other es
  below-All es a = All-mono (λ e. not_below key e.key ≡ false) Other es (λ e h. ground arith) a

  ahead-All : (es : List Entry) → stops (ltb_ℤ key) es ≡ true → Ordered es → All Other es
  ahead-All [] h o = tt
  ahead-All (e ∷ es) h o = above-All e es h o

  -- Where the keys stop being below the key, they are above it, or one is the same.
  stop-cases :
      (es : List Entry)
      → stops (not_below key) es ≡ true
      → (stops (ltb_ℤ key) es ≡ true)
        ⊎ ((y : Entry) × (ws : List Entry) × (es ≡ y ∷ ws) × (same_key y.key key ≡ true))
  stop-cases [] h = inl refl
  stop-cases (y ∷ ws) h = elim (Bool-cases (ltb_ℤ key y.key)) [
    | inl k ↦ inl k
    | inr k ↦ inr (y, ws, refl, ground arith)
  ]

  abbrev pub Answers : Option Ptr → List Entry → Type 0
  Answers o es = (r : Ptr) × (o ≡ some r) × Finds r es

  module _ (s : Store) (es : List Entry) (list : IsList s es) where
    found-Answers :
        (f i p : ℕ) (pl : Place (not_below key) s.head i p es) (k : ℤ)
        → key_at s.nodes p ≡ some k
        → same_key k key ≡ false
        → Row s.nodes i p (row i pl.ahead)
        → (y : Entry) (ws : List Entry) → row i pl.ahead ≡ y ∷ ws
        → same_key y.key key ≡ true
        → Answers (search_node (suc (suc f)) (some p) key (suc i) s) es
    found-Answers f i p pl k is_key other r y ws is same =
        let r' = subst (Row s.nodes i p) is r in
        let level : ltb_ℤ key y.key ≡ false = ground arith in
        let test = ends_or-first (ltb_ℤ key) s i p (y ∷ ws) r' ∙ ap some level in
        let here : Any (λ e. (e.block ≡ y.block) × (same_key e.key key ≡ true)) (y ∷ ws) =
          inl (refl, same) in
        let holds =
          subst (Any (λ e. (e.block ≡ y.block) × (same_key e.key key ≡ true))) (sym is) here in
        (
          some y.block,
          search_node-right s (suc f) p i k is_key other (some y.block) r'.0 test
              ∙ search_node-here s f y.block (suc i) y.key r'.1 same,
          subst (Any (λ e. (e.block ≡ y.block) × (same_key e.key key ≡ true))) (sym pl.parts) (
              Any-append_right (λ e. (e.block ≡ y.block) × (same_key e.key key ≡ true)) pl.passed
                pl.ahead
                (Any-row (λ e. (e.block ≡ y.block) × (same_key e.key key ≡ true)) i pl.ahead
                  holds)),
        )

    none-Finds :
        (i p : ℕ) (pl : Place (not_below key) s.head i p es)
        → i ≡ 0
        → stops (ltb_ℤ key) (row i pl.ahead) ≡ true
        → All Other es
    none-Finds i p pl bottom stop =
        let low = subst (All (λ e. 1 ≤ e.height)) pl.parts (IsList-low s es list) in
        let all = lowest-row pl.ahead (All-split (λ e. 1 ≤ e.height) pl.passed pl.ahead low).1 in
        let stop' =
          subst (λ x. stops (ltb_ℤ key) x ≡ true) (ap (λ j. row j pl.ahead) bottom ∙ all) stop in
        subst (All Other) (sym pl.parts) (
          All-append Other pl.passed pl.ahead (below-All pl.passed pl.below) (
            ahead-All pl.ahead stop'
              (Ordered-split pl.passed pl.ahead (subst Ordered pl.parts list.ordered))))

    search_node-Answers :
        (f i p : ℕ) (pl : Place (not_below key) s.head i p es) (k : ℤ)
        → key_at s.nodes p ≡ some k
        → same_key k key ≡ false
        → i < s.max_level
        → length pl.ahead + suc i < f
        → Answers (search_node f (some p) key (suc i) s) es
    search_node-Answers zero i p pl k is_key other lt h = absurd (omega arith)
    search_node-Answers (suc zero) i p pl k is_key other lt h = absurd (omega arith)
    search_node-Answers (suc (suc f)) i p pl k is_key other lt h =
        let r = Place-Row (not_below key) s.nodes s.head i p es pl (list.rows i lt) in
        let link = Row-first s.nodes i p (row i pl.ahead) r in
        let test = ends_or-first (ltb_ℤ key) s i p (row i pl.ahead) r in
        let sorted = Ordered-split pl.passed pl.ahead (subst Ordered pl.parts list.ordered) in
        elim (step-cases (not_below key) (not_below_mono key) i pl.ahead sorted) [
          | inl stop ↦ elim (stop-cases (row i pl.ahead) stop) [
            | inl up ↦
                let next =
                  search_node-down s (suc f) p i k is_key other (first (row i pl.ahead)) link
                    (test ∙ ap some up) in
                elim (Bool-cases (suc i == 1)) [
                  | inl bottom ↦ (none, next ∙ rw bottom refl, none-Finds i p pl (ground arith) up)
                  | inr upper ↦
                      let level : suc (i - 1) ≡ i = ground arith in
                      let (t, made, finds) =
                        search_node-Answers (suc f) (i - 1) p
                          (down (not_below key) s.head i (i - 1) p es (omega arith) pl) k is_key
                          other (omega arith) (omega arith) in
                      (
                        t,
                        next
                            ∙ rw upper refl
                            ∙ ap (λ j. search_node (suc f) (some p) key j s) (sym level)
                            ∙ made,
                        finds,
                      )
                ]
            | inr (y, ws, is, same) ↦ found-Answers f i p pl k is_key other r y ws is same
          ]
          | inr n ↦
              let r' = subst (Row s.nodes i p) n.next r in
              let below = n.entry_below in
              let not_up : ltb_ℤ key n.entry.key ≡ false = ground arith in
              let other' : same_key n.entry.key key ≡ false = ground arith in
              let next =
                search_node-right s (suc f) p i k is_key other (some n.entry.block) r'.0 (
                  ends_or-first (ltb_ℤ key) s i p (n.entry ∷ row i n.behind) r' ∙ ap some not_up) in
              let (t, made, finds) =
                search_node-Answers (suc f) i n.entry.block
                  (right (not_below key) s.head i p es pl n) n.entry.key r'.1 other' lt
                  (omega (arith, n.shorter)) in
              (t, next ∙ made, finds)
        ]

    -- sklist_search, for a list of at least one level that holds the entries `es`, and a key that is not
    -- -1, which is that of the head: with more fuel than there are entries and levels it has no fault, and its answer
    -- is the block of an entry with the key, or NULL where no entry has the key.
    pub sklist_search-Finds :
        (fuel : ℕ)
        → 1 ≤ s.level
        → same_key (negsuc 0) key ≡ false
        → length es + s.level < fuel
        → Answers (sklist_search fuel s key) es
    unfolding sklist_search
    sklist_search-Finds fuel one other enough =
        let top : suc (s.level - 1) ≡ s.level = omega arith in
        subst (λ l. Answers (search_node fuel (some s.head) key l s) es) top
          (search_node-Answers fuel (s.level - 1) s.head
            (start (not_below key) s.head (s.level - 1) es) (negsuc 0) list.head_key other
            (omega (arith, list.low)) (omega arith))
