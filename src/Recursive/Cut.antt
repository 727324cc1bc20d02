-- ===== src/Recursive/Cut.antt =====
-- delete_node of skiplist.r.c takes an entry out of the row of a level.
use miscellaneous_repo.Prelude.{
  ℕ, suc, ◌≤◌, ◌<◌, ◌≡◌, refl, sym, ap, ◌∙◌, subst, ◌≢◌, inl, inr, Bool, true, false, Option, none,
  some, ◌>>=◌, List, [], ◌∷◌, ◌++◌, arith, ltb, if◌then◌else◌, Bool-cases, ◌==◌,
}
use miscellaneous_repo.Prelude.Int.{ℤ}
use miscellaneous_repo.Skiplist.{Ptr}
use miscellaneous_repo.Recursive.{
  Node, Store, same_key, hits, link_at, unlink, destroy_node, put_node,
}
use miscellaneous_repo.Recursive.Rows.{
  Entry, first, row, All, Apart, Distinct, Row, Row-first, All-row, All-split, Distinct-split,
  Distinct-middle, lowest-row,
}
use miscellaneous_repo.Recursive.Links.{
  Kept, Row-kept, Row-behind, Row-relink, Written, Frame, Frame-Written, set_link-Written,
  link_of-some, key_at-some, on, link_of-same, key_at-same,
}
use miscellaneous_repo.Recursive.Walk.{Ordered, Stage, Stage-next, Stage-row}
use miscellaneous_repo.Recursive.Place.{
  Place, Place-Row, Place-parts, Place-ends, Place-Distinct, Place-Apart, stops,
}
use miscellaneous_repo.Recursive.Entries.{not_below, del, remove}
use miscellaneous_repo.Recursive.Removed.{Row-Alike, row-del, remove-append, All-lower}

-- What delete_node does before it goes on, where the walk ends on the level `l` before the link `q`.
abbrev pub taken : ℕ → Ptr → ℕ → Store → Bool → Option Store
taken p q l s true = do q' ← q; unlink p q' l s
taken p q l s false = some s

abbrev pub cut : ℕ → Ptr → ℤ → ℕ → Store → Option Store
cut p q key l s = hits q key s >>= taken p q l s

abbrev pub hit : ℤ → List Entry → Bool
hit key [] = false
hit key (e ∷ es) = same_key key e.key

hits-first :
    (s : Store) (key : ℤ) (i p : ℕ) (es : List Entry)
    → Row s.nodes i p es
    → hits (first es) key s ≡ some (hit key es)
unfolding hits
hits-first s key i p [] r = refl
hits-first s key i p (e ∷ es) r =
    let (n, here, same) = key_at-some s.nodes e.block e.key r.1 in
    rw (here, ◌>>=◌) (ap (λ k. some (same_key key k)) same)

remove-stays :
    (key : ℤ) (es : List Entry)
    → stops (not_below key) es ≡ true
    → hit key es ≡ false
    → remove key es ≡ es
remove-stays key [] t h = refl
remove-stays key (e ∷ es) t h = rw (h, t) refl

-- The first entry with the key is gone from the list.
gone-Apart :
    (head : ℕ) (key : ℤ) (pre : List Entry) (y : Entry) (zs : List Entry)
    → 1 ≤ y.height
    → All (λ e. not_below key e.key ≡ false) pre
    → same_key key y.key ≡ true
    → Distinct head (pre ++ (y ∷ zs))
    → Apart y.block (del key (pre ++ (y ∷ zs)))
gone-Apart head key [] y zs one b h d =
    let t : not_below key y.key ≡ true = ground arith in
    let rest = (Distinct-middle head [] y zs d).2 in
    rw (h, t) (All-lower key (λ x. x.block ≢ y.block) (λ x k l a. a) y.height zs one rest)
gone-Apart head key (e ∷ pre) y zs one b h d =
    rw b.0
      ((Distinct-middle head (e ∷ pre) y zs d).1.0, gone-Apart e.block key pre y zs one b.1 h d.1)

module _ (s : Store) (key : ℤ) (es : List Entry) where
  -- A store in which the levels from `i` on are without the entry.
  pub record Cut (i : ℕ) (made : Option Store) : Type 0 where
    pub nodes : ℕ → Option Node
    pub is_made : made ≡ some (on s nodes)
    pub stage : Stage s.head s.max_level nodes i es (del key es)
    pub frame : Frame s nodes

  module _ (ordered : Ordered es) (distinct : Distinct s.head es) (low : All (λ e. 1 ≤ e.height) es)
      (ns : ℕ → Option Node) (i p : ℕ) (lt : i < s.max_level)
      (pl : Place (not_below key) s.head i p es)
      (stage : Stage s.head s.max_level ns (suc i) es (del key es)) (frame : Frame s ns) where
    here : Row ns i s.head (row i es)
    here = Stage-row s.head s.max_level i ns es (del key es) lt stage

    parts : row i es ≡ row i pl.passed ++ row i pl.ahead
    parts = Place-parts (not_below key) s.head i p es pl

    removed : remove key (row i es) ≡ row i pl.passed ++ remove key (row i pl.ahead)
    removed =
        ap (remove key) parts
        ∙ remove-append key (row i pl.passed) (row i pl.ahead)
            (All-row (λ e. not_below key e.key ≡ false) i pl.passed pl.below)

    -- Nothing is deleted on this level.
    cut-none :
        (Z : List Entry)
        → row i pl.ahead ≡ Z
        → Row ns i p Z
        → stops (not_below key) Z ≡ true
        → hit key Z ≡ false
        → Cut i (cut p (first Z) key (suc i) (on s ns))
    cut-none Z is r stop no_hit = record {
      nodes = ns;
      is_made = rw (hits-first (on s ns) key i p Z r, ◌>>=◌) (rw (no_hit, ◌>>=◌) refl);
      stage =
          Stage-next s.head s.max_level i ns ns es (del key es) stage (λ j q h. (refl, refl))
            (Row-Alike ns i s.head (remove key (row i es)) (row i (del key es))
              (row-del key i es ordered)
              (subst (Row ns i s.head)
                (parts
                  ∙ ap (◌++◌ (row i pl.passed))
                      (is ∙ sym (remove-stays key Z stop no_hit) ∙ ap (remove key) (sym is))
                  ∙ sym removed)
                here));
      frame = frame;
    }

    module _ (y : Entry) (ws : List Entry) (is : row i pl.ahead ≡ y ∷ ws) (r : Row ns i p (y ∷ ws))
        (same : same_key key y.key ≡ true) (ns₁ : ℕ → Option Node)
        (w : Written ns ns₁ p i (first ws)) where
      kept : (q : ℕ) → q ≢ p → Kept ns ns₁ i q
      kept q h = (w.links q i (inl h), w.keys q)

      cut-Row : Row ns₁ i s.head (row i (del key es))
      cut-Row =
          let A = row i pl.passed in
          let stop : not_below key y.key ≡ true = ground arith in
          let apart = subst (Apart p) is (Place-Apart (not_below key) s.head i p es pl distinct) in
          let all =
            Row-relink ns ns₁ i s.head p A (row i pl.ahead) ws
              (Place-ends (not_below key) s.head i p es pl) kept w.keys
              (Distinct-split s.head A (row i pl.ahead)
                (Place-Distinct (not_below key) s.head i p es pl distinct)).0
              (subst (Row ns i s.head) parts here)
              (Row-behind ns ns₁ i p kept y.block p ws apart.1 w.at r.2) in
          let out : remove key (y ∷ ws) ≡ ws = rw (same, stop) refl in
          Row-Alike ns₁ i s.head (remove key (row i es)) (row i (del key es))
            (row-del key i es ordered)
            (subst (Row ns₁ i s.head) (sym (removed ∙ ap (◌++◌ A) (ap (remove key) is ∙ out))) all)

      cut-Stage : Stage s.head s.max_level ns₁ i es (del key es)
      cut-Stage =
          Stage-next s.head s.max_level i ns ns₁ es (del key es) stage
            (λ j q h. (w.links q j (inr h), w.keys q)) cut-Row

      freed : ℕ → Option Node
      freed = (put_node y.block none (on s ns₁)).nodes

      freed-other : (q : ℕ) → q ≢ y.block → freed q ≡ ns₁ q
      unfolding freed
      freed-other q h = let other : (y.block == q) ≡ false = ground arith in rw other refl

      freed-blocks : (q : ℕ) → ns₁ q ≡ none → freed q ≡ none
      unfolding freed
      freed-blocks q h = elim (Bool-cases (y.block == q)) [ inl e ↦ rw e refl | inr e ↦ rw e h ]

      -- On the lowest level the entry is one of the list.
      module _ (bottom : i ≡ 0) where
        low_ahead : All (λ e. 1 ≤ e.height) pl.ahead
        low_ahead =
            (All-split (λ e. 1 ≤ e.height) pl.passed pl.ahead
              (subst (All (λ e. 1 ≤ e.height)) pl.parts low)).1

        ahead_is : pl.ahead ≡ y ∷ ws
        ahead_is = sym (lowest-row pl.ahead low_ahead) ∙ ap (λ x. row x pl.ahead) (sym bottom) ∙ is

        es_is : es ≡ pl.passed ++ (y ∷ ws)
        es_is = pl.parts ∙ ap (◌++◌ pl.passed) ahead_is

        freed-outside : s.head ≢ y.block
        freed-outside =
            (Distinct-middle s.head pl.passed y ws (subst (Distinct s.head) es_is distinct)).0

        freed-Frame : Frame s freed
        freed-Frame =
            let before = Frame-Written frame w in
            record {
              head_key =
                  key_at-same ns₁ freed s.head (freed-other s.head freed-outside) ∙ before.head_key;
              blocks = λ q h. freed-blocks q (before.blocks q h);
            }

        freed-Apart : Apart y.block (del key es)
        freed-Apart =
            subst (λ x. Apart y.block (del key x)) (sym es_is)
              (gone-Apart s.head key pl.passed y ws
                (subst (All (λ e. 1 ≤ e.height)) ahead_is low_ahead).0 pl.below same
                (subst (Distinct s.head) es_is distinct))

        -- The block is freed; no link leads to it any more.
        freed-Stage : Stage s.head s.max_level freed i es (del key es)
        freed-Stage j lt' =
            let done : ltb j i ≡ false = ground arith in
            let r' =
              subst (λ b. Row ns₁ j s.head (row j (if b then es else del key es))) done
                (cut-Stage j lt') in
            rw done (
              Row-kept ns₁ freed j y.block
                (λ q h. (
                  link_of-same ns₁ freed q j (freed-other q h),
                  key_at-same ns₁ freed q (freed-other q h),
                ))
                s.head (row j (del key es)) freed-outside
                (All-row (λ x. x.block ≢ y.block) j (del key es) freed-Apart) r')

    -- The first entry on the level has the key.
    cut-hit :
        (y : Entry) (ws : List Entry)
        → row i pl.ahead ≡ y ∷ ws
        → Row ns i p (y ∷ ws)
        → same_key key y.key ≡ true
        → Cut i (cut p (some y.block) key (suc i) (on s ns))
    unfolding unlink link_at destroy_node freed
    cut-hit y ws is r same =
        let (m, there, at) = link_of-some ns y.block i (first ws) (Row-first ns i y.block ws r.2) in
        let (ns₁, made, w) = set_link-Written (on s ns) p i (first ws) (some y.block) r.0 in
        let test = hits-first (on s ns) key i p (y ∷ ws) r in
        elim (Bool-cases (suc i == 1)) [
          | inl bottom ↦ record {
            nodes = freed y ws is r same ns₁ w;
            is_made =
                rw (test, ◌>>=◌)
                  (rw (same, ◌>>=◌)
                    (rw there (rw (at, ◌>>=◌) (rw (made, ◌>>=◌) (rw bottom refl)))));
            stage = freed-Stage y ws is r same ns₁ w (ground arith);
            frame = freed-Frame y ws is r same ns₁ w (ground arith);
          }
          | inr upper ↦ record {
            nodes = ns₁;
            is_made =
                rw (test, ◌>>=◌)
                  (rw (same, ◌>>=◌) (rw there (rw (at, ◌>>=◌) (rw (made, ◌>>=◌) (rw upper refl)))));
            stage = cut-Stage y ws is r same ns₁ w;
            frame = Frame-Written frame w;
          }
        ]

    cut-of :
        (Z : List Entry)
        → row i pl.ahead ≡ Z
        → Row ns i p Z
        → stops (not_below key) Z ≡ true
        → Cut i (cut p (first Z) key (suc i) (on s ns))
    cut-of [] is r stop = cut-none [] is r stop refl
    cut-of (y ∷ ws) is r stop = elim (Bool-cases (same_key key y.key)) [
      | inl same ↦ cut-hit y ws is r same
      | inr other ↦ cut-none (y ∷ ws) is r stop other
    ]

    pub cut-Cut :
        stops (not_below key) (row i pl.ahead) ≡ true
        → Cut i (cut p (first (row i pl.ahead)) key (suc i) (on s ns))
    cut-Cut stop =
        cut-of (row i pl.ahead) refl (Place-Row (not_below key) ns s.head i p es pl here) stop
