-- ===== src/Flourish/Crdt/Accounts.antt =====
-- What the array holds, in terms of the operations that it was given: each is in its nodes or waits.
pub mod Burying
pub mod Steps
use tanzlaurel.Base.{
  ℕ, ◌≡◌, ◌≢◌, refl, sym, ap, ◌∙◌, subst, List, [], ◌∷◌, ◌++◌, map, Bool, true, false, Option, none,
  some, inl, inr, ◌⊎◌, ◌==◌, ==_iff, if◌then◌else◌, get_elem?, All, Bool-cases, Option-cases,
  Outcome, ok, ok-injective, arith,
}
use mathlib.Core.Option.{some-injective}
use tanzlaurel.Base.Members.{
  In, In-left, In-right, In-cases, In-middle, In-around, In-there, In-map, map-In, get-In, In-get,
  Distinct, Distinct-of_places,
}
use tanzlaurel.Flourish.Uuid.{UuidText}
use tanzlaurel.Flourish.Crdt.Types.{
  NodeId, node_id_eq, node_id_eq_iff, Operation, Node, Rga, op_insert, op_delete,
}
use tanzlaurel.Flourish.Crdt.Rga.{has_after, has_node, apply_insert, apply_delete, node_of}
use tanzlaurel.Flourish.Crdt.Positions.{IsIndex}
use tanzlaurel.Flourish.Crdt.Forest.{Forest, flatten, IsRooted, place}
use tanzlaurel.Flourish.Crdt.Refinement.{Represents, apply_insert-place}
use tanzlaurel.Flourish.Crdt.Deletion.{
  bury, bury_node, bury_node-id, bury_node-after, bury_node-other, apply_delete-bury,
}
use tanzlaurel.Flourish.Crdt.Buffer.{IsFresh, IsFresh-remove, IsFresh-shift}
use tanzlaurel.Flourish.Crdt.Priority.{IsId}
use tanzlaurel.Flourish.Crdt.Ordered.{IsOrdered, place-IsOrdered, bury-IsOrdered}
use tanzlaurel.Flourish.Crdt.Reach.{
  Reaches, stop, inserted, deleted, dropped, relabelled, apply_insert-between,
}

-- The node is the one that this insertion makes, but for the mark of a deletion.
pub record IsMade (op : Operation) (n : Node) : Type 0 where
  pub kind : op.op_type ≡ op_insert
  pub id : n.id ≡ op.node_id
  pub after : n.after ≡ op.after
  pub value : n.value ≡ op.value
  pub authenticated : n.authenticated ≡ op.authenticated

abbrev pub IsBuried : Operation → Node → Type 0
IsBuried op n = (op.op_type ≡ op_delete) × (op.node_id ≡ n.id)

abbrev pub Holds : Rga → (Node → Type 0) → Type 0
Holds r P = (n : Node) × In n r.nodes × P n

-- `given` are the operations that the array was given, `waiting` those that wait.
pub record Accounts (uuid : UuidText) (given : Operation → Type 0) (r : Rga)
    (waiting : List Operation) : Type 0 where
  pub forest : Forest
  pub represents : Represents r forest
  pub ordered : IsOrdered uuid forest
  pub fresh : IsFresh r.index waiting
  pub ids : (n : Node) → In n r.nodes → IsId n.id
  pub made : (n : Node) → In n r.nodes → (op : Operation) × given op × IsMade op n
  pub buried :
      (n : Node) → In n r.nodes → n.deleted ≡ true → (op : Operation) × given op × IsBuried op n
  pub known : (op : Operation) → In op waiting → given op
  pub holds_insert :
      (op : Operation)
      → given op
      → op.op_type ≡ op_insert
      → In op waiting ⊎ Holds r (λ n. n.id ≡ op.node_id)
  pub holds_delete :
      (op : Operation)
      → given op
      → op.op_type ≡ op_delete
      → In op waiting ⊎ Holds r (λ n. (n.id ≡ op.node_id) × (n.deleted ≡ true))

-- The index and the nodes tell the same.
pub index-holds :
    (r : Rga)
    → IsIndex r.nodes r.index
    → (a : NodeId) (i : ℕ) → r.index a ≡ some i
    → Holds r (λ n. n.id ≡ a)
index-holds r ix a i at = let (n, there, id) = ix.found a i at in (n, get-In r.nodes i n there, id)

pub holds-index :
    (r : Rga)
    → IsIndex r.nodes r.index
    → (n : Node) → In n r.nodes
    → (i : ℕ) × (r.index n.id ≡ some i)
holds-index r ix n m = let (i, at) = In-get n r.nodes m in (i, ix.finds i n at)
