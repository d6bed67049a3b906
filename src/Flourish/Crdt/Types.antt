-- ===== src/Flourish/Crdt/Types.antt =====
-- The types of crdt.go: node identifiers, operations, the Lamport clock and the array itself.
-- A Go map is a function into `Option`; the set `seen` is the list of its keys. An integer of Go
-- is the natural number of its bit pattern, and a string is the list of its runes.
use tanzlaurel.Base.{
  ℕ, ◌+◌, ◌%◌, ◌^◌, ◌≡◌, ◌↔◌, List, [], Bool, true, ◌&&◌, Option, none, ltb, ◌==◌, if◌then◌else◌,
  arith,
}

pub record NodeId : Type 0 where
  pub replica_id : ℕ
  pub timestamp : ℕ

-- Go's `==` on the struct.
abbrev pub node_id_eq : NodeId → NodeId → Bool
node_id_eq a b = a.replica_id == b.replica_id && a.timestamp == b.timestamp

pub node_id_eq_iff : (a b : NodeId) → (node_id_eq a b ≡ true) ↔ (a ≡ b)
node_id_eq_iff a b = ground arith

-- `OpType` is an `int`, and a payload may hold any.
abbrev pub op_insert : ℕ
op_insert = 1

abbrev pub op_delete : ℕ
op_delete = 2

pub record Operation : Type 0 where
  pub request_id : ℕ
  pub op_type : ℕ
  pub node_id : NodeId
  pub after : Option NodeId
  pub value : ℕ
  pub authenticated : Bool

pub record LamportClock : Type 0 where
  pub replica_id : ℕ
  pub counter : ℕ

unfoldable pub new_lamport_clock : ℕ → LamportClock
new_lamport_clock replica_id = record { replica_id = replica_id; counter = 0 }

-- `c.counter++` on a uint64, and the new identifier.
unfoldable pub tick : LamportClock → LamportClock × NodeId
tick c =
    let counter = (c.counter + 1) % 2 ^ 64 in
    (record c { counter = counter }, record { replica_id = c.replica_id; timestamp = counter })

unfoldable pub update : LamportClock → ℕ → LamportClock
update c ts = if ltb c.counter ts then record c { counter = ts } else c

pub record Node : Type 0 where
  pub id : NodeId
  pub after : Option NodeId
  pub value : ℕ
  pub deleted : Bool
  pub authenticated : Bool

pub record Rga : Type 0 where
  pub clock : LamportClock
  pub nodes : List Node
  pub index : NodeId → Option ℕ
  pub seen : List ℕ
  pub pending : List Operation

unfoldable pub new_rga : ℕ → Rga
unfolding new_lamport_clock
new_rga replica_id = record {
  clock = new_lamport_clock replica_id;
  nodes = [];
  index = λ id. none;
  seen = [];
  pending = [];
}
