-- ===== src/Flourish/Socket.antt =====
-- flourish/server/handler/ws.go: one web socket connection. What is written to connections is a list
-- of messages with their receivers, in the order of the writes; a connection is the number of its
-- subscriber. A write that fails is ignored by the code, so writes do not fail here. The trace spans,
-- the log lines and the handshake are left out.
pub mod Messages
pub mod Once
pub mod Subscriptions
pub mod Operations
pub mod CatchUp
use tanzlaurel.Base.{
  ℕ, List, [], ◌∷◌, ◌++◌, map, Bool, true, false, ◌||◌, Option, none, some, ltb, ◌==◌, Outcome,
  ◌>>=◌, if◌then◌else◌,
}
use tanzlaurel.Base.Errors.{Result, ok, err}
use tanzlaurel.Flourish.Uuid.{UuidText, nil_uuid}
use tanzlaurel.Flourish.Crdt.Rga.{contains}
use tanzlaurel.Flourish.Crdt.Snapshot.{PayloadMsg, PayloadNid}
use tanzlaurel.Flourish.Store.Domain.{EventStoreApi, StoreError}
use tanzlaurel.Flourish.Sync.{
  SyncOp, SyncMessage, AckMessage, SyncService, subscribe, unsubscribe, broadcast, get_diff,
}
use tanzlaurel.Flourish.Sync
use tanzlaurel.Flourish.Projector.{EntryStoreApi, RgaStateApi, Projector}
use tanzlaurel.Flourish.Projector
use tanzlaurel.Flourish.Tickets.{TicketStore, redeem}
use tanzlaurel.Flourish.Socket.Messages.{
  IncomingMessage, JsonText, SyncOpMsg, SyncMsg, ErrorType, invalid_op, internal, Outgoing, ack,
  sync, error, auth_status, new_error_msg, string_eq, msg_type_op, msg_type_sync_request,
}

-- The fields of `WS` that may be nil are options.
pub record Ws (S E T : Type 0) : Type 0 where
  pub sync_service : SyncService S
  pub projector : Option (Projector E T)
  pub auth : Option TicketStore

-- What `ServeHTTP` keeps of a connection.
pub record Socket : Type 0 where
  pub sub : ℕ
  pub subscribed_entries : List ℕ
  pub authenticated : Bool

abbrev pub Sent : Type 0
Sent = ℕ × Outgoing

module _ {S E T : Type 0} where
  unfoldable pub ensure_subscribed : Ws S E T → Socket → ℕ → Ws S E T × Socket
  ensure_subscribed h sock entry_id =
      if contains entry_id sock.subscribed_entries then (h, sock) else (
        record h { sync_service = subscribe h.sync_service entry_id sock.sub },
        record sock { subscribed_entries = sock.subscribed_entries ++ (entry_id ∷ []) },
      )

  -- The deferred loop over `subscribedEntries`.
  unfoldable pub disconnect : ℕ → List ℕ → Ws S E T → Ws S E T
  disconnect sub [] h = h
  disconnect sub (entry_id ∷ ids) h =
      disconnect sub ids (record h { sync_service = unsubscribe h.sync_service entry_id sub })

  -- No ticket is the empty string.
  unfoldable pub authenticate : ℕ → Option ℕ → Ws S E T → Ws S E T × Bool
  authenticate now none h = (h, false)
  authenticate now (some ticket) h = elim h.auth [
    | none ↦ (h, false)
    | some tickets ↦
        let (tickets', good) = redeem now ticket tickets in
        (record h { auth = some tickets' }, good)
  ]

module _ (uuid : UuidText) (json : JsonText) where
  -- What is read back from the payload is sent, also when reading it fails.
  unfoldable pub convert_op : SyncOp (List ℕ) → SyncOpMsg
  convert_op op =
      let (incoming, good) = json.unmarshal op.payload in
      record {
        request_id = uuid.to_string op.request_id;
        server_seq = op.server_seq;
        op_type = incoming.op_type;
        node_id = incoming.node_id;
        after = incoming.after;
        value = incoming.value;
        authenticated = incoming.authenticated;
      }

  unfoldable pub convert_sync_message : SyncMessage (List ℕ) → SyncMsg
  convert_sync_message msg = record {
    entry_id = uuid.to_string msg.entry_id;
    ops = map convert_op msg.ops;
    latest_server_seq = msg.latest_server_seq;
  }

  -- `uuid.Nil`, or `siteID, _ = uuid.Parse(…)`.
  unfoldable pub site_of : Option PayloadNid → ℕ
  site_of none = nil_uuid
  site_of (some nid) = elim (uuid.parse nid.site_id) [
    | none ↦ uuid.rest_of nid.site_id
    | some site_id ↦ site_id
  ]

  -- `Broadcast`, each subscriber's `Send` included.
  unfoldable pub send_all : {S : Type 0} → SyncService S → ℕ → SyncMessage (List ℕ) → List Sent
  send_all s entry_id msg = broadcast s entry_id (sync (convert_sync_message msg))

  module _ {S E T : Type 0} (api : EventStoreApi (List ℕ) S) (entries : EntryStoreApi E)
      (states : RgaStateApi T) (unmarshal : List ℕ → Option PayloadMsg) where
    -- `if h.projector != nil { applied = h.projector.Apply(…) }`
    unfoldable pub project :
        Option (Projector E T) → ℕ → List ℕ → Outcome (Option (Projector E T) × Bool)
    project none entry_id payload = Outcome.ok (none, true)
    project (some p) entry_id payload =
        Projector.apply uuid entries states unmarshal p entry_id payload >>= λ res.
        Outcome.ok (some (res.0), res.1)

    -- The part of `handleOp` behind the acknowledgement.
    unfoldable pub pass_on : Ws S E T → ℕ → ℕ → ℕ → List ℕ → Outcome (Ws S E T × List Sent)
    pass_on h entry_id request_id server_seq payload = elim (ltb 0 server_seq) [
      | false ↦ Outcome.ok (h, [])
      | true ↦ project h.projector entry_id payload >>= λ res.
          let op : SyncOp (List ℕ) = record {
            request_id = request_id;
            server_seq = server_seq;
            payload = payload;
          } in
          let msg : SyncMessage (List ℕ) = record {
            entry_id = entry_id;
            ops = op ∷ [];
            latest_server_seq = server_seq;
          } in
          Outcome.ok (
            record h { projector = res.0 },
            if res.1 then send_all h.sync_service entry_id msg else [],
          )
    ]

    -- The part of `handleOp` behind `ensureSubscribed`.
    unfoldable pub store_op :
        ℕ → Ws S E T → Socket → IncomingMessage → ℕ → ℕ → List ℕ → Outcome (Ws S E T × List Sent)
    store_op fresh h sock msg entry_id request_id payload =
        let (service, answer) =
          Sync.handle_op api h.sync_service entry_id (site_of msg.node_id) request_id payload in
        let stored = record h { sync_service = service } in
        elim answer [
          | err e ↦
              Outcome.ok
                (stored, (sock.sub, new_error_msg fresh (some msg.request_id) internal) ∷ [])
          | ok answered ↦
              let told = ack (record {
                request_id = msg.request_id;
                entry_id = msg.entry_id;
                server_seq = answered.server_seq;
              }) in
              pass_on stored entry_id request_id answered.server_seq payload >>= λ res.
              Outcome.ok (res.0, (sock.sub, told) ∷ res.1)
        ]

    -- `fresh` is what `uuid.New` draws for the instance of an error.
    unfoldable pub handle_op :
        ℕ → Ws S E T → Socket → IncomingMessage → Outcome (Ws S E T × Socket × List Sent)
    handle_op fresh h sock msg =
        let refused =
          Outcome.ok
            (h, sock, (sock.sub, new_error_msg fresh (some msg.request_id) invalid_op) ∷ []) in
        elim (uuid.parse msg.entry_id) [
          | none ↦ refused
          | some entry_id ↦ elim (uuid.parse msg.request_id) [
            | none ↦ refused
            | some request_id ↦
                let stamped = record msg { authenticated = some sock.authenticated } in
                let (h', sock') = ensure_subscribed h sock entry_id in
                store_op fresh h' sock' stamped entry_id request_id (json.marshal stamped)
                >>= λ res. Outcome.ok (res.0, sock', res.1)
          ]
        ]

    unfoldable pub handle_sync_request :
        ℕ → Ws S E T → Socket → IncomingMessage → Ws S E T × Socket × List Sent
    handle_sync_request fresh h sock msg = elim (uuid.parse msg.entry_id) [
      | none ↦ (h, sock, (sock.sub, new_error_msg fresh (some msg.request_id) invalid_op) ∷ [])
      | some entry_id ↦
          let (h', sock') = ensure_subscribed h sock entry_id in
          elim (get_diff api h'.sync_service entry_id msg.last_server_seq) [
            | err e ↦
                (h', sock', (sock.sub, new_error_msg fresh (some msg.request_id) internal) ∷ [])
            | ok diff ↦ (h', sock', (sock.sub, sync (convert_sync_message diff)) ∷ [])
          ]
    ]

    -- One turn of the loop of `ServeHTTP`.
    unfoldable pub receive :
        ℕ → Ws S E T → Socket → List ℕ → Outcome (Ws S E T × Socket × List Sent)
    receive fresh h sock bytes =
        let (msg, good) = json.unmarshal bytes in
        elim good [
          | false ↦ Outcome.ok (h, sock, (sock.sub, new_error_msg fresh none invalid_op) ∷ [])
          | true ↦ elim (string_eq msg.msg_type msg_type_op) [
            | true ↦ handle_op fresh h sock msg
            | false ↦ elim (string_eq msg.msg_type msg_type_sync_request) [
              | true ↦ Outcome.ok (handle_sync_request fresh h sock msg)
              | false ↦
                  Outcome.ok
                    (h, sock, (sock.sub, new_error_msg fresh (some msg.request_id) invalid_op) ∷ [])
            ]
          ]
        ]

    -- The loop, over what is read before the first error.
    unfoldable pub serve_loop :
        List (ℕ × List ℕ) → Ws S E T → Socket → Outcome (Ws S E T × Socket × List Sent)
    serve_loop [] h sock = Outcome.ok (h, sock, [])
    serve_loop ((fresh, bytes) ∷ rest) h sock = receive fresh h sock bytes >>= λ res.
        serve_loop rest (res.0) (res.1) >>= λ last. Outcome.ok (last.0, last.1, res.2 ++ last.2)

    unfoldable pub serve_http :
        ℕ → ℕ → Option ℕ → List (ℕ × List ℕ) → Ws S E T → Outcome (Ws S E T × List Sent)
    serve_http now sub ticket inputs h =
        let (h', authenticated) = authenticate now ticket h in
        let sock : Socket = record {
          sub = sub;
          subscribed_entries = [];
          authenticated = authenticated;
        } in
        serve_loop inputs h' sock >>= λ res. Outcome.ok (
          disconnect sub (res.1.subscribed_entries) (res.0),
          (sub, auth_status authenticated) ∷ res.2,
        )
