-- ===== src/Skiplist/Search.antt =====
-- sklist_search of skiplist.c finds a key exactly where there is one.
use miscellaneous_repo.Prelude.{
  ℕ, zero, suc, ◌≤◌, ◌<◌, ◌≡◌, refl, sym, ap, ◌∙◌, subst, ◌⊎◌, inl, inr, Bool, true, false, Option,
  none, some, ◌>>=◌, List, [], ◌∷◌, ◌++◌, append_assoc, head-eq_of_cons-eq, arith, ltb,
  if◌then◌else◌, Bool-cases, Option-cases, length, length-append,
}
use miscellaneous_repo.Prelude.Int.{ℤ}
use miscellaneous_repo.Skiplist.{
  Ptr, Node, Store, ptr_eq, link_of, key_of, equals_zero, at_most_zero, advance, search_levels,
}
use miscellaneous_repo.Skiplist.Api.{tested, sklist_search_ext}
use miscellaneous_repo.Skiplist.Walk.{Chain, before, rest, advance-Chain, ptr_eq_refl}
use miscellaneous_repo.Skiplist.Passed.{
  Mem, stops, hits, Absent, Falls, stops-below, below-Absent, passed-Absent,
}

module _ (get_key : Ptr → Ptr) (cmp_key : Ptr → Ptr → ℤ) (key : Ptr) (s : Store) where
  abbrev pub node_height : Option Node → ℕ
  node_height none = 0
  node_height (some n) = length n.link

  abbrev pub node_key : Option Node → Ptr
  node_key none = none
  node_key (some n) = get_key n.obj

  -- The node has a link on this level.
  abbrev pub tall : ℕ → ℕ → Bool
  tall i p = ltb i (node_height (s.nodes p))

  abbrev pub keys : ℕ → Ptr
  keys p = node_key (s.nodes p)

  -- The comparison of the key with that of a node.
  abbrev pub cmp : ℕ → ℤ
  cmp p = cmp_key key (keys p)

  abbrev pub highs : ℕ → List ℕ → List ℕ
  highs i [] = []
  highs i (y ∷ ys) = if tall i y then y ∷ highs i ys else highs i ys

  -- On each of its levels, `p` is linked to the nodes of `ys` that have the level, up to the head.
  abbrev pub Behind : ℕ → List ℕ → Type 0
  Behind p ys = (i : ℕ) → tall i p ≡ true → Chain get_key keys s i p (highs i ys)

  -- The same for all the nodes.
  abbrev pub AreNodes : ℕ → List ℕ → Type 0
  AreNodes p [] = Behind p []
  AreNodes p (y ∷ ys) = Behind p (y ∷ ys) × (tall 0 y ≡ true) × AreNodes y ys

  first-Behind : (p : ℕ) (ys : List ℕ) → AreNodes p ys → Behind p ys
  first-Behind p [] a = a
  first-Behind p (y ∷ ys) a = a.0

  abbrev stop : Ptr → Bool
  stop k = at_most_zero (cmp_key key k)

  -- Where the walk on level `i` from `p` comes to, and the nodes behind that.
  record Walked (i p : ℕ) (ys hs : List ℕ) : Type 0 where
    pub to : ℕ
    pub behind : List ℕ
    pub is_to : before get_key keys s i stop p hs ≡ to
    pub is_rest : rest get_key keys s i stop hs ≡ highs i behind
    pub nodes : AreNodes to behind
    pub falls : Falls cmp behind
    pub high : tall i to ≡ true
    pub shorter : length behind ≤ length ys
    pub absent : Absent cmp behind → Absent cmp ys
    pub inside : (r : ℕ) → Mem r behind → Mem r ys
    pub stopped : (x : ℕ) (xs : List ℕ) → highs i behind ≡ x ∷ xs → stops cmp x ≡ true

  behind-AreNodes :
      (p : ℕ) (pre : List ℕ) (z : ℕ) (zs : List ℕ) → AreNodes p (pre ++ (z ∷ zs)) → AreNodes z zs
  behind-AreNodes p [] z zs a = a.2
  behind-AreNodes p (y ∷ pre) z zs a = behind-AreNodes y pre z zs a.2

  behind-Falls : (pre : List ℕ) (z : ℕ) (zs : List ℕ) → Falls cmp (pre ++ (z ∷ zs)) → Falls cmp zs
  behind-Falls [] z zs o = o.1
  behind-Falls (y ∷ pre) z zs o = behind-Falls pre z zs o.1

  Mem-append : (r : ℕ) (pre zs : List ℕ) → Mem r zs → Mem r (pre ++ zs)
  Mem-append r [] zs m = m
  Mem-append r (y ∷ pre) zs m = inr (Mem-append r pre zs m)

  -- From the anchor `p`, behind which come nodes `pre` without the level, and then `zs`.
  walk :
      (i p : ℕ) (pre zs : List ℕ)
      → AreNodes p (pre ++ zs)
      → Falls cmp (pre ++ zs)
      → highs i (pre ++ zs) ≡ highs i zs
      → tall i p ≡ true
      → Walked i p (pre ++ zs) (highs i zs)
  unfolding before rest
  walk i p pre [] a o none_there high = record {
    to = p;
    behind = pre ++ [];
    is_to = refl;
    is_rest = sym none_there;
    nodes = a;
    falls = o;
    high = high;
    shorter = omega arith;
    absent = λ b. b;
    inside = λ r m. m;
    stopped = λ x xs e. (let none_left : [] ≡ x ∷ xs = sym none_there ∙ e in ground arith);
  }
  walk i p pre (z ∷ zs) a o none_there high = elim (Bool-cases (tall i z)) [
    | inr low ↦
        let assoc : (pre ++ (z ∷ [])) ++ zs ≡ pre ++ (z ∷ zs) = append_assoc pre (z ∷ []) zs in
        rw low (
          subst (λ ys. Walked i p ys (highs i zs)) assoc
            (walk i p (pre ++ (z ∷ [])) zs (subst (AreNodes p) (sym assoc) a)
              (subst (Falls cmp) (sym assoc) o) (ap (highs i) assoc ∙ none_there ∙ rw low refl)
              high))
    | inl up ↦
        let here : highs i (pre ++ (z ∷ zs)) ≡ z ∷ highs i zs = none_there ∙ rw up refl in
        elim (Bool-cases (stops cmp z)) [
          | inl st ↦ rw up record {
            to = p;
            behind = pre ++ (z ∷ zs);
            is_to = rw st refl;
            is_rest = rw st (sym here);
            nodes = a;
            falls = o;
            high = high;
            shorter = omega arith;
            absent = λ b. b;
            inside = λ r m. m;
            stopped =
                λ x xs e. subst (λ y. stops cmp y ≡ true) (head-eq_of_cons-eq (sym here ∙ e)) st;
          }
          | inr on ↦
              let w =
                walk i z [] zs (behind-AreNodes p pre z zs a) (behind-Falls pre z zs o) refl up in
              rw up record {
                to = w.to;
                behind = w.behind;
                is_to = rw on w.is_to;
                is_rest = rw on w.is_rest;
                nodes = w.nodes;
                falls = w.falls;
                high = w.high;
                shorter = omega (arith, w.shorter, length-append pre (z ∷ zs));
                absent = λ b. passed-Absent cmp pre z zs o on (w.absent b);
                inside = λ r m. Mem-append r pre (z ∷ zs) (inr (w.inside r m));
                stopped = w.stopped;
              }
        ]
  ]

  highs-length : (i : ℕ) (ys : List ℕ) → length (highs i ys) ≤ length ys
  highs-length i [] = omega arith
  highs-length i (y ∷ ys) = elim (Bool-cases (tall i y)) [
    | inl e ↦ rw e (omega (arith, highs-length i ys))
    | inr e ↦ rw e (omega (arith, highs-length i ys))
  ]

  highs-lowest : (p : ℕ) (ys : List ℕ) → AreNodes p ys → highs 0 ys ≡ ys
  highs-lowest p [] a = refl
  highs-lowest p (y ∷ ys) a = rw a.1 (ap (λ xs. y ∷ xs) (highs-lowest y ys a.2))

  lowest : (i p : ℕ) (ys hs : List ℕ) → AreNodes p ys → highs i ys ≡ hs → i ≡ 0 → hs ≡ ys
  lowest i p ys hs a e z = sym e ∙ ap (λ k. highs k ys) z ∙ highs-lowest p ys a

  next-Absent :
      (x : ℕ) (xs ys : List ℕ)
      → x ∷ xs ≡ ys
      → Falls cmp ys
      → stops cmp x ≡ true
      → hits cmp x ≡ false
      → Absent cmp ys
  next-Absent x xs ys e o st h =
      let falls : Falls cmp (x ∷ xs) = subst (Falls cmp) (sym e) o in
      subst (Absent cmp) e (h, below-Absent cmp x xs falls.0 (stops-below cmp x st h))

  first-Mem : (i x : ℕ) (xs ys : List ℕ) → highs i ys ≡ x ∷ xs → Mem x ys
  first-Mem i x xs [] e = ground arith
  first-Mem i x xs (y ∷ ys) e = elim (Bool-cases (tall i y)) [
    | inl up ↦
        let here : highs i (y ∷ ys) ≡ y ∷ highs i ys = rw up refl in
        inl (head-eq_of_cons-eq (sym e ∙ here))
    | inr low ↦
        let later : highs i (y ∷ ys) ≡ highs i ys = rw low refl in
        inr (first-Mem i x xs ys (sym later ∙ e))
  ]

  abbrev pub node_obj : Option Node → Ptr
  node_obj none = none
  node_obj (some n) = n.obj

  -- The object of a node with the key, and the node; or NULL, where no node has the key.
  abbrev pub Says : Ptr × Ptr → List ℕ → Type 0
  Says r ys =
      ((y : ℕ) × Mem y ys × (hits cmp y ≡ true) × (r ≡ (node_obj (s.nodes y), some y)))
      ⊎ ((r.0 ≡ none) × Absent cmp ys)

  abbrev pub Answers : Option (Ptr × Ptr) → List ℕ → Type 0
  Answers o ys = (r : Ptr × Ptr) × (o ≡ some r) × Says r ys

  widen :
      (r : Ptr × Ptr) (ys zs : List ℕ)
      → ((x : ℕ) → Mem x zs → Mem x ys)
      → (Absent cmp zs → Absent cmp ys)
      → Says r zs
      → Says r ys
  widen r ys zs inside absent (inl (y, m, hit, e)) = inl (y, inside y m, hit, e)
  widen r ys zs inside absent (inr (e, b)) = inr (e, absent b)

  -- What the link behind the walk is.
  link-cases :
      (i p : ℕ) (hs : List ℕ)
      → Chain get_key keys s i p hs
      → ((link_of s p i ≡ some s.list.head) × (hs ≡ []))
        ⊎ ((x : ℕ) × (xs : List ℕ) × (n : Node) × (hs ≡ x ∷ xs)
            × (link_of s p i ≡ some (some x))
            × (ptr_eq (some x) s.list.head ≡ false)
            × (s.nodes x ≡ some n))
  unfolding key_of
  link-cases i p [] c = inl (c, refl)
  link-cases i p (x ∷ xs) c = elim (Option-cases (s.nodes x)) [
    | inl gone ↦ let same : none ≡ some (keys x) = sym (rw (gone, ◌>>=◌) refl) ∙ c.2 in ground arith
    | inr (n, here) ↦ inr (x, xs, n, refl, c.0, c.1, here)
  ]

  module _ (fuel : ℕ) where
    levels : ℕ → ℕ → Option (Ptr × Ptr)
    levels i p = search_levels get_key cmp_key key fuel i p s

    module _ (i p to : ℕ) (walked : advance get_key stop fuel i p s ≡ some to) where
      levels-end : link_of s to i ≡ some s.list.head → levels (suc i) p ≡ levels i to
      unfolding levels search_levels
      levels-end link = rw walked (rw (link, ◌>>=◌) (rw (ptr_eq_refl s.list.head) refl))

      module _ (x : ℕ) (n : Node) (link : link_of s to i ≡ some (some x))
          (other : ptr_eq (some x) s.list.head ≡ false) (here : s.nodes x ≡ some n) where
        levels-next : hits cmp x ≡ false → levels (suc i) p ≡ levels i to
        unfolding levels search_levels
        levels-next h =
            let same : equals_zero (cmp_key key (get_key n.obj)) ≡ false =
              ap (λ o. equals_zero (cmp_key key (node_key o))) (sym here) ∙ h in
            rw walked (rw (link, ◌>>=◌) (rw (other, ◌>>=◌) (rw here (rw (same, ◌>>=◌) refl))))

        levels-found : hits cmp x ≡ true → levels (suc i) p ≡ some (n.obj, some x)
        unfolding levels search_levels
        levels-found h =
            let same : equals_zero (cmp_key key (get_key n.obj)) ≡ true =
              ap (λ o. equals_zero (cmp_key key (node_key o))) (sym here) ∙ h in
            rw walked (rw (link, ◌>>=◌) (rw (other, ◌>>=◌) (rw here (rw (same, ◌>>=◌) refl))))

    search_levels-Answers :
        (i p : ℕ) (ys : List ℕ)
        → AreNodes p ys
        → Falls cmp ys
        → ((j : ℕ) → suc j ≡ i → tall j p ≡ true)
        → length ys < fuel
        → (i ≡ 0 → Absent cmp ys)
        → Answers (levels i p) ys
    unfolding levels search_levels
    search_levels-Answers zero p ys a o high h none_left =
        ((none, some p), refl, inr (refl, none_left refl))
    search_levels-Answers (suc i) p ys a o high h none_left =
        let w = walk i p [] ys a o refl (high i refl) in
        let (walked, _) =
          advance-Chain get_key keys s i stop fuel p (highs i ys)
            (first-Behind p ys a i (high i refl)) (omega (arith, highs-length i ys)) in
        let came = walked ∙ ap some w.is_to in
        let lower : (j : ℕ) → suc j ≡ i → tall j w.to ≡ true = λ j e. ground (arith, w.high) in
        let more =
          search_levels-Answers i w.to w.behind w.nodes w.falls lower (omega (arith, w.shorter)) in
        elim (link-cases i w.to (highs i w.behind) (first-Behind w.to w.behind w.nodes i w.high)) [
          | inl (link, empty) ↦
              let (r, found, says) =
                more (λ z. subst (Absent cmp) (lowest i w.to w.behind [] w.nodes empty z) tt) in
              (r, levels-end i p w.to came link ∙ found, widen r ys w.behind w.inside w.absent says)
          | inr (x, xs, n, hs, link, other, here) ↦ elim (Bool-cases (hits cmp x)) [
            | inl hit ↦ (
              (n.obj, some x),
              levels-found i p w.to came x n link other here hit,
              inl (
                x,
                w.inside x (first-Mem i x xs w.behind hs),
                hit,
                ap (λ o. (node_obj o, some x)) (sym here),
              ),
            )
            | inr no_hit ↦
                let (r, found, says) = more (λ z.
                  next-Absent x xs w.behind (lowest i w.to w.behind (x ∷ xs) w.nodes hs z) w.falls
                    (w.stopped x xs hs) no_hit) in
                (
                  r,
                  levels-next i p w.to came x n link other here no_hit ∙ found,
                  widen r ys w.behind w.inside w.absent says,
                )
          ]
        ]

    -- sklist_search_ext, where the tests pass and give the head `h`, for a list of at least one level. The
    -- nodes `xs` are those behind the head; each of them has the lowest level, each is linked on each of its
    -- levels to the next that has the level, and the signs of the comparisons with the key fall along them, as
    -- they do along keys in order. With more fuel than there are nodes it has no fault and an answer: the
    -- object of a node with the key, and that node, or NULL, where no node has the key.
    pub sklist_search_ext-Answers :
        (h : ℕ) (xs : List ℕ)
        → tested s key ≡ some (h, get_key, cmp_key)
        → 1 ≤ s.list.level
        → s.list.level ≤ node_height (s.nodes h)
        → AreNodes h xs
        → Falls cmp xs
        → length xs < fuel
        → Answers (sklist_search_ext fuel (some s) key) xs
    unfolding sklist_search_ext levels
    sklist_search_ext-Answers h xs t one high a o lt =
        let tall_head : (j : ℕ) → suc j ≡ s.list.level → tall j h ≡ true = λ j e. ground arith in
        rw (t, sklist_search_ext)
          (search_levels-Answers s.list.level h xs a o tall_head lt (λ z. absurd (omega arith)))
