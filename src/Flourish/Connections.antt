-- ===== src/Flourish/Connections.antt =====
-- Runs of a web socket connection on small inputs.
use tanzlaurel.Base.{
  ℕ, zero, suc, ◌==◌, Bool-cases, inl, inr, ◌≡◌, refl, sym, List, [], ◌∷◌, Bool, true, false,
  Option, none, some, Outcome, Returns, take, length, ◌++◌,
}
use mathlib.Core.Option.{some-injective}
use tanzlaurel.Base.Int.{pos}
use tanzlaurel.Flourish.Crdt.Rga.{contains}
use tanzlaurel.Flourish.Crdt.Snapshot.{
  PayloadMsg, RgaSnapshot, operation_from_payload, operation_from_msg, parse_node_id, parse_after,
  value_rune, decode_rune, export, export_node,
}
use tanzlaurel.Flourish.Store.Entries.{EntryStore, find, find_by_id, save}
use tanzlaurel.Flourish.Store.Domain.{Event, crdt_op, new_entry}
use tanzlaurel.Flourish.Store.Events.{EventStore, append, new_event_store, memory_event_store}
use tanzlaurel.Flourish.Store.Numbering.{
  IsConsistent, new_event_store-IsConsistent, append-IsConsistent,
}
use tanzlaurel.Flourish.Sync.{new_sync_service, subscribe}
use tanzlaurel.Flourish.Projector.{
  Projector, rga_of, is_refused, put, refresh, with_text, derive_fields, first_line, save_state,
  apply_op,
}
use tanzlaurel.Flourish.Projector
use tanzlaurel.Flourish.Projector.View.{memory_entry_store}
use tanzlaurel.Flourish.Tickets.{new_ticket_store, issue}
use tanzlaurel.Flourish.Socket.{
  Ws, Socket, Sent, project, handle_op, handle_sync_request, authenticate, serve_http,
}
use tanzlaurel.Flourish.Socket.Messages.{
  IncomingMessage, JsonText, SyncMsg, sync, msg_type_op, msg_type_sync_request, string_eq,
}
use tanzlaurel.Flourish.Socket.Operations.{
  stamped, Acknowledges, Subscribes, handle_op-Acknowledges,
}
use tanzlaurel.Flourish.Socket.Subscriptions.{Applies, serve_http-unsubscribes}
use tanzlaurel.Flourish.Socket.CatchUp.{sent_form, handle_sync_request-completes}
use tanzlaurel.Flourish.Examples.{one_digit, program}
use tanzlaurel.Flourish.Services.{no_states, projector}

-- Inserts b after the first character, as the client 1 does.
abbrev typed : IncomingMessage
typed = record {
  msg_type = msg_type_op;
  request_id = 3 ∷ [];
  entry_id = 7 ∷ [];
  op_type = 1;
  node_id = some (record { site_id = 1 ∷ []; timestamp = 3 });
  after = some (record { site_id = 1 ∷ []; timestamp = 1 });
  value = b'b' ∷ [];
  last_server_seq = pos 0;
  authenticated = some true;
}

abbrev asked : IncomingMessage
asked = record typed { msg_type = msg_type_sync_request }

abbrev watcher : Socket
watcher = record { sub = 4; subscribed_entries = []; authenticated = false }

-- A text form of three messages.
abbrev codes : JsonText
codes = record {
  marshal = λ m. 3 ∷ [];
  unmarshal = λ bytes. elim bytes [
    | [] ↦ (typed, false)
    | c ∷ cs ↦ elim c [
      | zero ↦ (asked, true)
      | suc zero ↦ (typed, true)
      | suc (suc n) ↦ (stamped watcher typed, true)
    ]
  ];
}

abbrev payload : List ℕ → Option PayloadMsg
payload bytes = some (record {
  request_id = typed.request_id;
  op_type = typed.op_type;
  node_id = typed.node_id;
  after = typed.after;
  value = typed.value;
  authenticated = some false;
})

abbrev ws : Ws (EventStore (List ℕ)) EntryStore (List (ℕ × RgaSnapshot))
ws = record {
  sync_service = subscribe (new_sync_service new_event_store) 7 3;
  projector = some projector;
  auth = some (issue 90 11 (new_ticket_store 30));
}

abbrev or_old :
    Outcome (Option (Projector EntryStore (List (ℕ × RgaSnapshot))) × Bool)
    → Option (Projector EntryStore (List (ℕ × RgaSnapshot)))
or_old (Outcome.ok res) = res.0
or_old Outcome.panic = none
or_old Outcome.stuck = none

abbrev projected : Option (Projector EntryStore (List (ℕ × RgaSnapshot)))
projected = or_old (
    project one_digit codes (memory_event_store 9) memory_entry_store no_states payload ws.projector
      7 (3 ∷ []))

projects_typed :
    project one_digit codes
      (memory_event_store 9)
      memory_entry_store
      no_states
      payload
      ws.projector
      7
      (3 ∷ [])
    ≡ Outcome.ok (projected, true)
unfolding program project Projector.apply operation_from_payload operation_from_msg parse_node_id
    parse_after value_rune decode_rune apply_op rga_of is_refused put refresh with_text
    derive_fields first_line save_state export export_node find find_by_id save new_entry
projects_typed = refl

handle_op-Acknowledges_example :
    Returns
      (λ res.
        Acknowledges one_digit codes 9
          (stamped watcher typed)
          7
          3
          projected
          true
          ws.sync_service.event_store
          ws.projector
          watcher
          (res.0)
          (res.2)
        × Subscribes 7 ws watcher (res.0) (res.1))
      (handle_op one_digit codes
        (memory_event_store 9)
        memory_entry_store
        no_states
        payload
        5
        ws
        watcher
        typed)
unfolding subscribe new_sync_service
handle_op-Acknowledges_example =
    handle_op-Acknowledges one_digit codes 9 memory_entry_store no_states payload 5 ws watcher typed
      7 3 projected true refl refl new_event_store-IsConsistent refl projects_typed

abbrev inputs : List (ℕ × List ℕ)
inputs = (50, 1 ∷ []) ∷ (51, 0 ∷ []) ∷ (52, []) ∷ []

-- No operation is behind the first message.
quiet :
    (auth : Bool) (p : Option (Projector EntryStore (List (ℕ × RgaSnapshot))))
    → Applies one_digit codes
        (memory_event_store 9)
        memory_entry_store
        no_states
        payload
        auth
        ((51, 0 ∷ []) ∷ (52, []) ∷ [])
        p
unfolding string_eq
quiet auth p = ((tt, (λ e good. absurd (cc good))), λ e good op. absurd (cc op))

inputs-Applies :
    (auth : Bool)
    → Applies one_digit codes
        (memory_event_store 9)
        memory_entry_store
        no_states
        payload
        auth
        inputs
        ws.projector
inputs-Applies auth = (
  quiet auth ws.projector,
  λ e good op parsed.
      let same : 7 ≡ e = some-injective 7 e parsed in
      rw (sym same, projects_typed) (quiet auth projected),
)

absent : (e : ℕ) → contains 4 (ws.sync_service.subscribers e) ≡ false
unfolding subscribe new_sync_service contains
absent e = elim (Bool-cases (e == 7)) [ inl here ↦ rw here refl | inr other ↦ rw other refl ]

serve_http-unsubscribes_example :
    (h' : Ws (EventStore (List ℕ)) EntryStore (List (ℕ × RgaSnapshot))) × (sent : List Sent)
    × (serve_http one_digit codes
          (memory_event_store 9)
          memory_entry_store
          no_states
          payload
          100
          4
          (some 11)
          inputs
          ws
        ≡ Outcome.ok (h', sent))
    × ((e : ℕ) → h'.sync_service.subscribers e ≡ ws.sync_service.subscribers e)
serve_http-unsubscribes_example =
    serve_http-unsubscribes one_digit codes (memory_event_store 9) memory_entry_store no_states
      payload 100 4 (some 11) inputs ws (inputs-Applies (authenticate 100 (some 11) ws).1) absent

abbrev stored : ℕ → Event (List ℕ)
stored request_id = record {
  entry_id = 7;
  server_seq = 0;
  request_id = request_id;
  event_type = crdt_op;
  site_id = 1;
  payload = 1 ∷ [];
  created_at = 0;
}

abbrev two_events : EventStore (List ℕ)
two_events = (append 9 (stored 6) (append 8 (stored 5) new_event_store).0).0

two_events-IsConsistent : IsConsistent two_events
two_events-IsConsistent =
    (append-IsConsistent 9 (stored 6) (append 8 (stored 5) new_event_store).0
      (append-IsConsistent 8 (stored 5) new_event_store new_event_store-IsConsistent).0).0

abbrev old_ws : Ws (EventStore (List ℕ)) EntryStore (List (ℕ × RgaSnapshot))
old_ws = record ws { sync_service = new_sync_service two_events }

-- The client that has one operation of the entry 7.
abbrev behind : IncomingMessage
behind = record asked { last_server_seq = pos 1 }

abbrev served : Ws (EventStore (List ℕ)) EntryStore (List (ℕ × RgaSnapshot)) × Socket × List Sent
served =
    handle_sync_request one_digit codes (memory_event_store 9) memory_entry_store no_states payload
      50 old_ws watcher behind

handle_sync_request-completes_example :
    (diff : SyncMsg) × (served.2 ≡ (4, sync diff) ∷ [])
    × (take 1 (sent_form one_digit codes old_ws.sync_service.event_store 7) ++ diff.ops
        ≡ sent_form one_digit codes old_ws.sync_service.event_store 7)
    × (diff.latest_server_seq ≡ length (old_ws.sync_service.event_store.events 7))
    × (served.0.sync_service.event_store ≡ old_ws.sync_service.event_store)
    × (contains 4 (served.0.sync_service.subscribers 7) ≡ true)
unfolding new_sync_service contains
handle_sync_request-completes_example =
    handle_sync_request-completes one_digit codes memory_entry_store no_states payload 9 50 old_ws
      watcher behind 7 1 refl refl two_events-IsConsistent (λ h. absurd (cc h))
