-- ===== src/Flourish/Socket/Messages.antt =====
-- flourish/server/handler/ws_protocol.go: the messages on a web socket. The package encoding/json is
-- a parameter. The field Type of an outgoing message is the constructor.
use tanzlaurel.Base.{ℕ, List, [], ◌∷◌, Bool, true, false, ◌&&◌, Option, ◌==◌}
use tanzlaurel.Base.Int.{ℤ}
use tanzlaurel.Flourish.Crdt.Snapshot.{PayloadNid}

-- `NodeIDMsg` has the fields of crdt.go's `payloadNID`.
pub record IncomingMessage : Type 0 where
  pub msg_type : List ℕ
  pub request_id : List ℕ
  pub entry_id : List ℕ
  pub op_type : ℕ
  pub node_id : Option PayloadNid
  pub after : Option PayloadNid
  pub value : List ℕ
  pub last_server_seq : ℤ
  pub authenticated : Option Bool

-- `json.Marshal`, and what `json.Unmarshal` leaves in an empty message, with true for no error.
pub record JsonText : Type 0 where
  pub marshal : IncomingMessage → List ℕ
  pub unmarshal : List ℕ → IncomingMessage × Bool

-- `"op"`
abbrev pub msg_type_op : List ℕ
msg_type_op = b'o' ∷ b'p' ∷ []

-- `"sync_request"`
abbrev pub msg_type_sync_request : List ℕ
msg_type_sync_request =
    b's' ∷ b'y' ∷ b'n' ∷ b'c' ∷ b'_' ∷ b'r' ∷ b'e' ∷ b'q' ∷ b'u' ∷ b'e' ∷ b's' ∷ b't' ∷ []

-- `==` on strings.
unfoldable pub string_eq : List ℕ → List ℕ → Bool
string_eq [] [] = true
string_eq [] (y ∷ ys) = false
string_eq (x ∷ xs) [] = false
string_eq (x ∷ xs) (y ∷ ys) = x == y && string_eq xs ys

pub record AckMsg : Type 0 where
  pub request_id : List ℕ
  pub entry_id : List ℕ
  pub server_seq : ℕ

pub record SyncOpMsg : Type 0 where
  pub request_id : List ℕ
  pub server_seq : ℕ
  pub op_type : ℕ
  pub node_id : Option PayloadNid
  pub after : Option PayloadNid
  pub value : List ℕ
  pub authenticated : Option Bool

pub record SyncMsg : Type 0 where
  pub entry_id : List ℕ
  pub ops : List SyncOpMsg
  pub latest_server_seq : ℕ

-- `"error:invalid_op"` with "Invalid Operation", and `"error:internal"` with "Internal Error".
pub data ErrorType : Type 0 where
  invalid_op internal : ErrorType

-- The instance is the UUID behind `urn:uuid:`.
pub record ErrorMsg : Type 0 where
  pub request_id : Option (List ℕ)
  pub error_type : ErrorType
  pub instance_id : ℕ

pub data Outgoing : Type 0 where
  ack : AckMsg → Outgoing
  sync : SyncMsg → Outgoing
  error : ErrorMsg → Outgoing
  auth_status : Bool → Outgoing

-- `fresh` is what `uuid.New` draws.
unfoldable pub new_error_msg : ℕ → Option (List ℕ) → ErrorType → Outgoing
new_error_msg fresh request_id error_type =
    error (record { request_id = request_id; error_type = error_type; instance_id = fresh })
