-- ===== src/Flourish/Crdt/Accounts/Burying.antt =====
-- What the mark of a deletion does to a node.
use tanzlaurel.Base.{◌≡◌, true, inl, inr, ◌⊎◌, Bool-cases, arith}
use tanzlaurel.Flourish.Crdt.Types.{NodeId, node_id_eq, node_id_eq_iff, Operation, Node}
use tanzlaurel.Flourish.Crdt.Deletion.{bury_node}
use tanzlaurel.Flourish.Crdt.Accounts.{IsMade}

pub bury_node-IsMade :
    (a : NodeId) (op : Operation) (n : Node) → IsMade op n → IsMade op (bury_node a n)
unfolding bury_node
bury_node-IsMade a op n h = elim (Bool-cases (node_id_eq a n.id)) [
  | inl e ↦
      rw (e, bury_node)
        (record {
          kind = h.kind;
          id = h.id;
          after = h.after;
          value = h.value;
          authenticated = h.authenticated;
        })
  | inr e ↦ rw (e, bury_node) h
]

pub bury_node-deleted :
    (a : NodeId) (n : Node) → (bury_node a n).deleted ≡ true → (a ≡ n.id) ⊎ (n.deleted ≡ true)
unfolding bury_node
bury_node-deleted a n h = elim (Bool-cases (node_id_eq a n.id)) [
  | inl e ↦ inl ((node_id_eq_iff a n.id).0 e)
  | inr e ↦ inr (rw (e, bury_node) at h)
]

pub bury_node-stays : (a : NodeId) (n : Node) → n.deleted ≡ true → (bury_node a n).deleted ≡ true
unfolding bury_node
bury_node-stays a n h = ground arith

pub bury_node-marks : (a : NodeId) (n : Node) → a ≡ n.id → (bury_node a n).deleted ≡ true
unfolding bury_node
bury_node-marks a n h = ground (arith, node_id_eq_iff a n.id)
