-- ===== src/Slist.antt =====
-- c_data_structure/slist.c: a singly linked list of texts with a tail pointer.
-- A pointer is an `Option ℕ` with `none` for NULL. A text is the list of its bytes before the terminator;
-- malloc is taken to succeed, as the source does, and `block` is the block it gives for the node.
-- `size` is below 2 ^ 64.
pub mod Append
mod Tests
use miscellaneous_repo.Prelude.{
  ℕ, zero, suc, ◌+◌, Option, none, some, List, [], ◌∷◌, ◌==◌, if◌then◌else◌,
}

pub record Snode : Type 0 where
  pub data_ : List ℕ
  pub next : Option ℕ

pub record Slist : Type 0 where
  pub size : ℕ
  pub head : Option ℕ
  pub tail : Option ℕ

abbrev pub put_snode : ℕ → Snode → (ℕ → Snode) → ℕ → Snode
put_snode p n nodes j = if p == j then n else nodes j

-- `token_list` at the start.
abbrev pub token_list : Slist
token_list = record { size = 0; head = none; tail = none }

pub new_node : ℕ → List ℕ → (ℕ → Snode) → ℕ → Snode
new_node block text = put_snode block (record { data_ = text; next = none })

-- The node that is appended, `none` for a NULL tail, which is a fault.
pub add_node : Slist → ℕ → (ℕ → Snode) → Option (Slist × (ℕ → Snode))
add_node l p nodes = elim l.size [
  | zero ↦ some (record { size = suc l.size; head = some p; tail = some p }, nodes)
  | suc _ ↦ elim l.tail [
    | none ↦ none
    | some t ↦ some (
      record { size = l.size + 1; head = l.head; tail = some p },
      put_snode t (record (nodes t) { next = some p }) nodes,
    )
  ]
]

-- The loop of main: the texts from `p` on, as they are printed; the fuel is the number of nodes.
pub texts : ℕ → Option ℕ → (ℕ → Snode) → List (List ℕ)
texts zero p nodes = []
texts (suc f) none nodes = []
texts (suc f) (some p) nodes = (nodes p).data_ ∷ texts f (nodes p).next nodes
