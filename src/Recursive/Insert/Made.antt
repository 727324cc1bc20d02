-- ===== src/Recursive/Insert/Made.antt =====
-- The list of sklist_insert in skiplist.r.c when it calls insert_node for the first time.
use miscellaneous_repo.Prelude.{
  ℕ, suc, ◌+◌, ◌-◌, ◌≤◌, ◌<◌, ◌≡◌, refl, sym, ap, ◌∙◌, subst, ◌≢◌, inl, inr, true, false, Option,
  none, some, List, [], ◌∷◌, arith, ltb, length, Bool-cases, ◌==◌, replicate,
}
use miscellaneous_repo.Prelude.Int.{ℤ, negsuc}
use miscellaneous_repo.Skiplist.{Ptr}
use miscellaneous_repo.Recursive.{Node, Store, insert_node, put_node}
use miscellaneous_repo.Recursive.Rows.{
  Entry, first, row, Apart, link_of, key_at, Row, Row-first, All-row, All-mono,
}
use miscellaneous_repo.Recursive.Links.{
  Kept, Row-kept, link_of-some, link_of-node, key_at-node, link_of-same, key_at-same,
  get_elem?-replicate,
}
use miscellaneous_repo.Recursive.Walk.{IsList, IsList-lowest, Stage, Stage-end}
use miscellaneous_repo.Recursive.Place.{start}
use miscellaneous_repo.Recursive.Entries.{
  ins, above, row-ins_low, ins-Ordered, ins-Distinct, All-ins,
}
use miscellaneous_repo.Recursive.Put.{Ready, Linked}
use miscellaneous_repo.Recursive.Insert.Loop.{insert_node-Linked}

-- A block of the list is there, so a block that is not is none of them.
fresh-other :
    (ns : ℕ → Option Node) (w i p : ℕ) (q : Ptr) → ns w ≡ none → link_of ns p i ≡ some q → p ≢ w
fresh-other ns w i p q fresh h same =
    let (n, here, at) = link_of-some ns p i q h in
    let clash : none ≡ some n = sym fresh ∙ ap ns (sym same) ∙ here in ground arith

fresh-Apart :
    (ns : ℕ → Option Node) (w i p : ℕ) (es : List Entry) → ns w ≡ none → Row ns i p es → Apart w es
fresh-Apart ns w i p [] fresh r = tt
fresh-Apart ns w i p (e ∷ es) fresh r = (
  fresh-other ns w i e.block (first es) fresh (Row-first ns i e.block es r.2),
  fresh-Apart ns w i e.block es fresh r.2,
)

-- The list before the first call of insert_node: its level is `top`, and the new node is there.
module _ (s : Store) (es : List Entry) (list : IsList s es) (e : Entry)
    (fresh : s.nodes e.block ≡ none) (levels : 1 ≤ s.max_level) (top : ℕ) (no_lower : s.level ≤ top)
    (fits : e.height ≤ top) where
  abbrev made_node : Node
  made_node = record { link = replicate e.height none; level = e.height; key = e.key }

  abbrev pub made : Store
  made = put_node e.block (some made_node) (record s { level = top })

  made_self : made.nodes e.block ≡ some made_node
  made_self = let same : (e.block == e.block) ≡ true = ground arith in rw same refl

  pub made_other : (q : ℕ) → q ≢ e.block → made.nodes q ≡ s.nodes q
  made_other q h = let other : (e.block == q) ≡ false = ground arith in rw other refl

  made-Kept : (i q : ℕ) → q ≢ e.block → Kept s.nodes made.nodes i q
  made-Kept i q h = (
    link_of-same s.nodes made.nodes q i (made_other q h),
    key_at-same s.nodes made.nodes q (made_other q h),
  )

  lowest : Row s.nodes 0 s.head es
  lowest = IsList-lowest s es list levels

  made-outside : s.head ≢ e.block
  made-outside =
      fresh-other s.nodes e.block 0 s.head (first es) fresh (Row-first s.nodes 0 s.head es lowest)

  made-Apart : Apart e.block es
  made-Apart = fresh-Apart s.nodes e.block 0 s.head es fresh lowest

  made-Stage : Stage s.head s.max_level made.nodes top es (ins e es)
  made-Stage j lt =
      let r =
        Row-kept s.nodes made.nodes j e.block (made-Kept j) s.head (row j es) made-outside
          (All-row (λ x. x.block ≢ e.block) j es made-Apart) (list.rows j lt) in
      elim (Bool-cases (ltb j top)) [
        | inl h ↦ rw h r
        | inr h ↦ rw h (subst (Row made.nodes j s.head) (sym (row-ins_low e j es (ground arith))) r)
      ]

  made-Ready : Ready made e es made.nodes
  made-Ready = record {
    room = λ j h. (
      none,
      link_of-node made.nodes e.block j made_node made_self ∙ get_elem?-replicate e.height j none h,
    );
    is_key = key_at-node made.nodes e.block made_node made_self;
    frame = record {
      head_key = (made-Kept 0 s.head made-outside).1 ∙ list.head_key;
      blocks = λ r h. h;
    };
  }

  module _ (some_level : 1 ≤ e.height) (room : top ≤ s.max_level) where
    pub insert_node-made :
        (fuel : ℕ)
        → length es + s.max_level < fuel
        → Linked made e es 0 (insert_node fuel s.head e.block e.key e.height top made)
    insert_node-made fuel enough =
        let level : suc (top - 1) ≡ top = omega arith in
        subst (λ l. Linked made e es 0 (insert_node fuel s.head e.block e.key e.height l made))
          level
          (insert_node-Linked made e es list.ordered list.distinct made-outside made-Apart fuel
            (top - 1) s.head made.nodes (start (above e) s.head (top - 1) es) (omega arith)
            (subst (λ l. Stage s.head s.max_level made.nodes l es (ins e es)) (sym level)
              made-Stage)
            made-Ready (omega arith))

    pub made-IsList :
        (ns : ℕ → Option Node) (size : ℤ)
        → Stage s.head s.max_level ns 0 es (ins e es)
        → key_at ns s.head ≡ some (negsuc 0)
        → IsList (record made { nodes = ns; size = size }) (ins e es)
    made-IsList ns size stage head_key = record {
      rows = Stage-end s.head s.max_level ns es (ins e es) stage;
      low = room;
      head_key = head_key;
      heights =
          All-ins e (λ x. (1 ≤ x.height) × (x.height ≤ top)) es (some_level, fits)
            (All-mono (λ x. (1 ≤ x.height) × (x.height ≤ s.level))
              (λ x. (1 ≤ x.height) × (x.height ≤ top)) es
              (λ x h. (h.0, omega (arith, h.1, no_lower))) list.heights);
      ordered = ins-Ordered e es list.ordered;
      distinct = ins-Distinct e s.head es (λ h. made-outside (sym h)) made-Apart list.distinct;
    }
