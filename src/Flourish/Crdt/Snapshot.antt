-- ===== src/Flourish/Crdt/Snapshot.antt =====
-- crdt.go: `OperationFromPayload`, `Export` and `ImportRGA`. Unmarshalling JSON is a parameter. A
-- string is the list of its runes, and a pointer is an option.
use tanzlaurel.Base.{ℕ, List, [], ◌∷◌, map, Bool, true, Option, none, some}
use tanzlaurel.Base.Errors.{Result, ok, err, ◌>>=◌}
use tanzlaurel.Flourish.Uuid.{UuidText}
use tanzlaurel.Flourish.Crdt.Types.{NodeId, Operation, Node, Rga}
use tanzlaurel.Flourish.Crdt.Rga.{rune, reindex}

pub data PayloadError : Type 0 where
  bad_json bad_request_id no_node_id bad_site_id bad_after bad_replica_id bad_seen_id : PayloadError

-- `payloadNID` and `payloadMsg`
pub record PayloadNid : Type 0 where
  pub site_id : List ℕ
  pub timestamp : ℕ

pub record PayloadMsg : Type 0 where
  pub request_id : List ℕ
  pub op_type : ℕ
  pub node_id : Option PayloadNid
  pub after : Option PayloadNid
  pub value : List ℕ
  pub authenticated : Option Bool

-- A value that may be missing, with the error that then stands for it.
abbrev pub or_err {ℓ} : {A : Type ℓ} → PayloadError → Option A → Result PayloadError A
or_err e none = err e
or_err e (some a) = ok a

-- A missing flag stands for true.
abbrev pub or_true : Option Bool → Bool
or_true none = true
or_true (some b) = b

-- `utf8.DecodeRuneInString`, which gives U+FFFD for the empty string.
unfoldable pub decode_rune : List ℕ → ℕ
decode_rune [] = 0xFFFD
decode_rune (c ∷ cs) = c

-- `if msg.Value != ""`; the rune is 0 otherwise.
unfoldable pub value_rune : List ℕ → ℕ
value_rune [] = 0
value_rune (c ∷ cs) = decode_rune (c ∷ cs)

pub record NodeSnapshot : Type 0 where
  pub id : NodeId
  pub after : Option NodeId
  pub value : List ℕ
  pub deleted : Bool
  pub authenticated : Option Bool

pub record RgaSnapshot : Type 0 where
  pub replica_id : List ℕ
  pub counter : ℕ
  pub nodes : List NodeSnapshot
  pub seen : List (List ℕ)
  pub pending : List Operation

-- `string(n.value)` is one rune long.
unfoldable pub export_node : Node → NodeSnapshot
export_node n = record {
  id = n.id;
  after = n.after;
  value = rune n.value ∷ [];
  deleted = n.deleted;
  authenticated = some n.authenticated;
}

unfoldable pub import_node : NodeSnapshot → Node
import_node ns = record {
  id = ns.id;
  after = ns.after;
  value = decode_rune ns.value;
  deleted = ns.deleted;
  authenticated = or_true ns.authenticated;
}

module _ (uuid : UuidText) where
  unfoldable pub parse_node_id : PayloadError → PayloadNid → Result PayloadError NodeId
  parse_node_id e n = do
    replica_id ← or_err e (uuid.parse n.site_id)
    ok (record { replica_id = replica_id; timestamp = n.timestamp })

  unfoldable pub parse_after : Option PayloadNid → Result PayloadError (Option NodeId)
  parse_after none = ok none
  parse_after (some n) = parse_node_id bad_after n >>= λ id. ok (some id)

  unfoldable pub operation_from_msg : PayloadMsg → Result PayloadError Operation
  operation_from_msg msg = do
    request_id ← or_err bad_request_id (uuid.parse msg.request_id)
    node_id ← or_err no_node_id msg.node_id
    id ← parse_node_id bad_site_id node_id
    after ← parse_after msg.after
    ok (record {
      request_id = request_id;
      op_type = msg.op_type;
      node_id = id;
      after = after;
      value = value_rune msg.value;
      authenticated = or_true msg.authenticated;
    })

  unfoldable pub operation_from_payload :
      (List ℕ → Option PayloadMsg) → List ℕ → Result PayloadError Operation
  operation_from_payload unmarshal payload = do
    msg ← or_err bad_json (unmarshal payload)
    operation_from_msg msg

  unfoldable pub export : Rga → RgaSnapshot
  export r = record {
    replica_id = uuid.to_string r.clock.replica_id;
    counter = r.clock.counter;
    nodes = map export_node r.nodes;
    seen = map uuid.to_string r.seen;
    pending = r.pending;
  }

  unfoldable pub parse_seen : List (List ℕ) → Result PayloadError (List ℕ)
  parse_seen [] = ok []
  parse_seen (s ∷ ss) = do
    id ← or_err bad_seen_id (uuid.parse s)
    ids ← parse_seen ss
    ok (id ∷ ids)

  unfoldable pub import_rga : RgaSnapshot → Result PayloadError Rga
  import_rga snap = do
    replica_id ← or_err bad_replica_id (uuid.parse snap.replica_id)
    seen ← parse_seen snap.seen
    let nodes : List Node = map import_node snap.nodes
    ok (record {
      clock = record { replica_id = replica_id; counter = snap.counter };
      nodes = nodes;
      index = reindex (λ id. none) 0 nodes;
      seen = seen;
      pending = snap.pending;
    })
