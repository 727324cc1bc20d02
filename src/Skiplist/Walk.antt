-- ===== src/Skiplist/Walk.antt =====
-- The inner loop of search_node, sklist_insert and sklist_delete in skiplist.c, along one level.
use miscellaneous_repo.Prelude.{
  ℕ, ◌>>=◌, zero, suc, ◌<◌, ◌≡◌, refl, ◌∙◌, inl, inr, Bool, true, false, none, some, List, [], ◌∷◌,
  arith, if◌then◌else◌, Bool-cases, length,
}
use miscellaneous_repo.Skiplist.{Ptr, Store, ptr_eq, link_of, key_of, advance}

pub ptr_eq_refl : (p : Ptr) → ptr_eq p p ≡ true
ptr_eq_refl none = refl
ptr_eq_refl (some p) = ground arith

module _ (get_key : Ptr → Ptr) (key : ℕ → Ptr) (s : Store) (i : ℕ) where
  -- Behind `p` on level `i` come the nodes `xs`, which are not the head and have the keys that `key` says,
  -- and then the head.
  abbrev pub Chain : ℕ → List ℕ → Type 0
  Chain p [] = link_of s p i ≡ some s.list.head
  Chain p (x ∷ xs) =
      (link_of s p i ≡ some (some x))
      × (ptr_eq (some x) s.list.head ≡ false)
      × (key_of get_key s x ≡ some (key x))
      × Chain x xs

  module _ (stop : Ptr → Bool) where
    -- The last node before the first key that stops the walk, and the nodes from there on.
    unfoldable pub before : ℕ → List ℕ → ℕ
    before p [] = p
    before p (x ∷ xs) = if stop (key x) then p else before x xs

    unfoldable pub rest : List ℕ → List ℕ
    rest [] = []
    rest (x ∷ xs) = if stop (key x) then x ∷ xs else rest xs

    advance-stops :
        (f p x : ℕ) (xs : List ℕ)
        → Chain p (x ∷ xs)
        → stop (key x) ≡ true
        → advance get_key stop (suc f) i p s ≡ some p
    unfolding advance
    advance-stops f p x xs c e = rw (c.0, c.1, c.2, e, ◌>>=◌) refl

    advance-moves :
        (f p x : ℕ) (xs : List ℕ)
        → Chain p (x ∷ xs)
        → stop (key x) ≡ false
        → advance get_key stop (suc f) i p s ≡ advance get_key stop f i x s
    unfolding advance
    advance-moves f p x xs c e = rw (c.0, c.1, c.2, e, ◌>>=◌) refl

    advance-ends : (f p : ℕ) → Chain p [] → advance get_key stop (suc f) i p s ≡ some p
    unfolding advance
    advance-ends f p c = rw (c, ptr_eq_refl s.list.head, ◌>>=◌) refl

    -- The inner loop from a node `p`, behind which come the nodes `xs` and then the head, with more fuel
    -- than there are nodes: it ends at the last node before the first key that stops it, and behind
    -- that node come the others.
    pub advance-Chain :
        (f p : ℕ) (xs : List ℕ)
        → Chain p xs
        → length xs < f
        → (advance get_key stop f i p s ≡ some (before p xs)) × Chain (before p xs) (rest xs)
    unfolding before rest
    advance-Chain zero p xs c lt = absurd (omega arith)
    advance-Chain (suc f) p [] c lt = (advance-ends f p c, c)
    advance-Chain (suc f) p (x ∷ xs) c lt = elim (Bool-cases (stop (key x))) [
      | inl e ↦ rw e (advance-stops f p x xs c e, c)
      | inr e ↦
          let more = advance-Chain f x xs c.3 (omega arith) in
          rw e (advance-moves f p x xs c e ∙ more.0, more.1)
    ]
