-- ===== src/Flourish/Socket/Subscriptions.antt =====
-- A connection that ends leaves no subscription behind.
use tanzlaurel.Base.{
  ℕ, ◌≡◌, refl, sym, ◌∙◌, List, [], ◌∷◌, ◌++◌, Bool, true, false, ◌||◌, Option, none, some, ltb,
  ◌==◌, ==_iff, if◌then◌else◌, Outcome, Returns, Returns-bind, Returns-ok, Bool-cases, Option-cases,
  inl, inr,
}
use mathlib.Core.List.{append-nil}
use tanzlaurel.Base.Errors.{Result-cases}
use tanzlaurel.Flourish.Uuid.{UuidText}
use tanzlaurel.Flourish.Crdt.Rga.{contains}
use tanzlaurel.Flourish.Socket.Once.{IsOnce, contains-snoc, IsOnce-snoc}
use tanzlaurel.Flourish.Crdt.Snapshot.{PayloadMsg}
use tanzlaurel.Flourish.Store.Domain.{Event, EventStoreApi, crdt_op}
use tanzlaurel.Flourish.Sync.{subscribe, unsubscribe, get_diff}
use tanzlaurel.Flourish.Sync
use tanzlaurel.Flourish.Sync.CatchUp.{remove_first-append}
use tanzlaurel.Flourish.Projector.{EntryStoreApi, RgaStateApi, Projector}
use tanzlaurel.Flourish.Socket.{
  Ws, Socket, Sent, ensure_subscribed, site_of, project, pass_on, store_op, handle_op,
  handle_sync_request, receive, serve_loop, disconnect, authenticate, serve_http,
}
use tanzlaurel.Flourish.Socket.Messages.{
  JsonText, auth_status, IncomingMessage, string_eq, msg_type_op, msg_type_sync_request,
}

or_false : (b : Bool) → (b || false) ≡ b
or_false true = refl
or_false false = refl

abbrev mine : ℕ → Bool → List ℕ
mine sub b = if b then sub ∷ [] else []

module _ {S E T : Type 0} (base : ℕ → List ℕ) (sub : ℕ) (auth : Bool) where
  -- The connection has subscribed to its entries, once each, and all other subscriptions stand.
  record Follows (h : Ws S E T) (sock : Socket) : Type 0 where
    once : IsOnce sock.subscribed_entries
    same : sock.sub ≡ sub
    flag : sock.authenticated ≡ auth
    has :
        (e : ℕ)
        → h.sync_service.subscribers e ≡ base e ++ mine sub (contains e sock.subscribed_entries)

  ensure_subscribed-Follows :
      (h : Ws S E T) (sock : Socket) (entry_id : ℕ)
      → Follows h sock
      → Follows (ensure_subscribed h sock entry_id).0 (ensure_subscribed h sock entry_id).1
  unfolding ensure_subscribed subscribe
  ensure_subscribed-Follows h sock entry_id f =
      elim (Bool-cases (contains entry_id sock.subscribed_entries)) [
        | inl there ↦ rw (there, ensure_subscribed) f
        | inr new ↦
            rw (new, ensure_subscribed)
              (record {
                once = IsOnce-snoc entry_id sock.subscribed_entries new f.once;
                same = f.same;
                flag = f.flag;
                has = λ e. elim (Bool-cases (e == entry_id)) [
                  | inl here ↦
                      let same = (==_iff e entry_id).0 here in
                      let before : h.sync_service.subscribers entry_id ≡ base entry_id =
                        f.has entry_id ∙ rw new (append-nil (base entry_id)) in
                      rw
                        (
                          contains-snoc e entry_id sock.subscribed_entries,
                          here,
                          same,
                          new,
                          before,
                          f.same,
                        )
                        refl
                  | inr other ↦
                      rw
                        (
                          contains-snoc e entry_id sock.subscribed_entries,
                          other,
                          or_false (contains e sock.subscribed_entries),
                        )
                        (f.has e)
                ];
              })
      ]

  disconnect-subscribers :
      (ids : List ℕ) (h : Ws S E T)
      → ((e : ℕ) → contains sub (base e) ≡ false)
      → IsOnce ids
      → ((e : ℕ) → h.sync_service.subscribers e ≡ base e ++ mine sub (contains e ids))
      → (e : ℕ) → (disconnect sub ids h).sync_service.subscribers e ≡ base e
  unfolding disconnect unsubscribe contains
  disconnect-subscribers [] h absent once has e = has e ∙ append-nil (base e)
  disconnect-subscribers (x ∷ ids) h absent once has e =
      disconnect-subscribers ids (record h { sync_service = unsubscribe h.sync_service x sub })
        absent once.1
        (λ j. elim (Bool-cases (j == x)) [
          | inl here ↦
              let same = (==_iff j x).0 here in
              let before : h.sync_service.subscribers x ≡ base x ++ (sub ∷ []) =
                has x ∙ rw ((==_iff x x).1 refl) refl in
              rw (here, same, once.0, before, remove_first-append sub (base x) (absent x))
                (sym (append-nil (base x)))
          | inr other ↦ rw other (has j ∙ rw other refl)
        ])
        e

  ensure_subscribed-projector :
      (h : Ws S E T) (sock : Socket) (entry_id : ℕ)
      → (ensure_subscribed h sock entry_id).0.projector ≡ h.projector
  unfolding ensure_subscribed
  ensure_subscribed-projector h sock entry_id =
      elim (Bool-cases (contains entry_id sock.subscribed_entries)) [
        | inl there ↦ rw (there, ensure_subscribed) refl
        | inr new ↦ rw (new, ensure_subscribed) refl
      ]

  Follows-with :
      (h h' : Ws S E T) (sock : Socket)
      → h'.sync_service.subscribers ≡ h.sync_service.subscribers
      → Follows h sock
      → Follows h' sock
  Follows-with h h' sock e f = record {
    once = f.once;
    same = f.same;
    flag = f.flag;
    has = rw e f.has;
  }

module _ (uuid : UuidText) (json : JsonText) {S E T : Type 0} (api : EventStoreApi (List ℕ) S)
    (entries : EntryStoreApi E) (states : RgaStateApi T) (unmarshal : List ℕ → Option PayloadMsg)
    (After : Option (Projector E T) → Type 0) where
  abbrev Keeps : (ℕ → List ℕ) → Ws S E T × List Sent → Type 0
  Keeps subs res = After (res.0.projector) × (res.0.sync_service.subscribers ≡ subs)

  pass_on-Keeps :
      (h : Ws S E T) (entry_id request_id server_seq : ℕ) (payload : List ℕ)
      → After h.projector
      → Returns
          (λ res. After (res.0))
          (project uuid json api entries states unmarshal h.projector entry_id payload)
      → Returns
          (Keeps h.sync_service.subscribers)
          (pass_on uuid json api entries states unmarshal h entry_id request_id server_seq payload)
  unfolding pass_on
  pass_on-Keeps h entry_id request_id server_seq payload good runs =
      elim (Bool-cases (ltb 0 server_seq)) [
        | inr none' ↦ rw (none', pass_on) (good, refl)
        | inl new ↦
            rw (new, pass_on)
              (Returns-bind (λ res. After (res.0)) (Keeps h.sync_service.subscribers)
                (project uuid json api entries states unmarshal h.projector entry_id payload) _ runs
                (λ res g. (g, refl)))
      ]

  store_op-Keeps :
      (fresh : ℕ) (h : Ws S E T) (sock : Socket) (msg : IncomingMessage) (entry_id request_id : ℕ)
      (payload : List ℕ)
      → After h.projector
      → Returns
          (λ res. After (res.0))
          (project uuid json api entries states unmarshal h.projector entry_id payload)
      → Returns (Keeps h.sync_service.subscribers) (
          store_op uuid json api entries states unmarshal fresh h sock msg entry_id request_id
            payload)
  unfolding store_op Sync.handle_op
  store_op-Keeps fresh h sock msg entry_id request_id payload good runs =
      let event : Event (List ℕ) = record {
        entry_id = entry_id;
        server_seq = 0;
        request_id = request_id;
        event_type = crdt_op;
        site_id = site_of uuid json msg.node_id;
        payload = payload;
        created_at = 0;
      } in
      elim (Result-cases (api.append event h.sync_service.event_store).1) [
        | inr (e, failed) ↦ rw (failed, store_op, Sync.handle_op) (good, refl)
        | inl (seq, stored) ↦
            rw (stored, store_op, Sync.handle_op)
              (Returns-bind (Keeps h.sync_service.subscribers) (Keeps h.sync_service.subscribers)
                (pass_on uuid json api entries states unmarshal _ entry_id request_id seq payload) _
                (pass_on-Keeps _ entry_id request_id seq payload good runs) (λ res k. k))
      ]

  -- What a turn of the loop keeps.
  abbrev Serves : (ℕ → List ℕ) → ℕ → Bool → Ws S E T × Socket × List Sent → Type 0
  Serves base sub auth res = After (res.0.projector) × Follows base sub auth (res.0) (res.1)

  module _ (base : ℕ → List ℕ) (sub : ℕ) (auth : Bool) where
    handle_op-Serves :
        (fresh : ℕ) (h : Ws S E T) (sock : Socket) (msg : IncomingMessage)
        → After h.projector
        → ((entry_id : ℕ)
            → uuid.parse msg.entry_id ≡ some entry_id
            → Returns
                (λ res. After (res.0))
                (project uuid json api entries states unmarshal h.projector entry_id
                  (json.marshal (record msg { authenticated = some auth }))))
        → Follows base sub auth h sock
        → Returns
            (Serves base sub auth)
            (handle_op uuid json api entries states unmarshal fresh h sock msg)
    unfolding handle_op
    handle_op-Serves fresh h sock msg good runs f = elim (Option-cases (uuid.parse msg.entry_id)) [
      | inl bad ↦ rw (bad, handle_op) (good, f)
      | inr (entry_id, e) ↦ elim (Option-cases (uuid.parse msg.request_id)) [
        | inl bad ↦ rw (e, bad, handle_op) (good, f)
        | inr (request_id, q) ↦
            let stamped = record msg { authenticated = some sock.authenticated } in
            let now = ensure_subscribed h sock entry_id in
            let here = ensure_subscribed-Follows base sub auth h sock entry_id f in
            rw (e, q, handle_op)
              (Returns-bind (Keeps (now.0.sync_service.subscribers)) (Serves base sub auth)
                (store_op uuid json api entries states unmarshal fresh (now.0) (now.1) stamped
                  entry_id request_id (json.marshal stamped))
                _
                (store_op-Keeps fresh (now.0) (now.1) stamped entry_id request_id
                  (json.marshal stamped)
                  (rw (ensure_subscribed-projector base sub auth h sock entry_id) good)
                  (rw (ensure_subscribed-projector base sub auth h sock entry_id, f.flag)
                    (runs entry_id e)))
                (λ res k. (k.0, Follows-with base sub auth (now.0) (res.0) (now.1) k.1 here)))
      ]
    ]

    handle_sync_request-Serves :
        (fresh : ℕ) (h : Ws S E T) (sock : Socket) (msg : IncomingMessage)
        → After h.projector
        → Follows base sub auth h sock
        → Serves base sub auth
            (handle_sync_request uuid json api entries states unmarshal fresh h sock msg)
    unfolding handle_sync_request
    handle_sync_request-Serves fresh h sock msg good f =
        elim (Option-cases (uuid.parse msg.entry_id)) [
          | inl bad ↦ rw (bad, handle_sync_request) (good, f)
          | inr (entry_id, e) ↦
              let now = ensure_subscribed h sock entry_id in
              let here = ensure_subscribed-Follows base sub auth h sock entry_id f in
              let good' : After (now.0.projector) =
                rw (ensure_subscribed-projector base sub auth h sock entry_id) good in
              elim (Result-cases (get_diff api (now.0.sync_service) entry_id msg.last_server_seq)) [
                | inr (x, failed) ↦ rw (e, failed, handle_sync_request) (good', here)
                | inl (diff, got) ↦ rw (e, got, handle_sync_request) (good', here)
              ]
        ]

    receive-Serves :
        (fresh : ℕ) (h : Ws S E T) (sock : Socket) (bytes : List ℕ)
        → After h.projector
        → ((entry_id : ℕ)
            → (json.unmarshal bytes).1 ≡ true
            → string_eq (json.unmarshal bytes).0.msg_type msg_type_op ≡ true
            → uuid.parse (json.unmarshal bytes).0.entry_id ≡ some entry_id
            → Returns
                (λ res. After (res.0))
                (project uuid json api entries states unmarshal h.projector entry_id
                  (json.marshal (record (json.unmarshal bytes).0 { authenticated = some auth }))))
        → Follows base sub auth h sock
        → Returns
            (Serves base sub auth)
            (receive uuid json api entries states unmarshal fresh h sock bytes)
    unfolding receive
    receive-Serves fresh h sock bytes good runs f =
        let msg = (json.unmarshal bytes).0 in
        elim (Bool-cases (json.unmarshal bytes).1) [
          | inr bad ↦ rw (bad, receive) (good, f)
          | inl read ↦ elim (Bool-cases (string_eq msg.msg_type msg_type_op)) [
            | inl op ↦
                rw (read, op, receive)
                  (handle_op-Serves fresh h sock msg good (λ entry_id. runs entry_id read op) f)
            | inr other ↦ elim (Bool-cases (string_eq msg.msg_type msg_type_sync_request)) [
              | inl ask ↦
                  rw (read, other, ask, receive)
                    (handle_sync_request-Serves fresh h sock msg good f)
              | inr unknown ↦ rw (read, other, unknown, receive) (good, f)
            ]
          ]
        ]

module _ (uuid : UuidText) (json : JsonText) {S E T : Type 0} (api : EventStoreApi (List ℕ) S)
    (entries : EntryStoreApi E) (states : RgaStateApi T) (unmarshal : List ℕ → Option PayloadMsg)
    (auth : Bool) where
  -- The projector returns for the operations among the messages, one after the other, marked with
  -- the flag of the connection; it also does when any of them do not get to it.
  abbrev pub Applies : List (ℕ × List ℕ) → Option (Projector E T) → Type 0
  Applies [] p = Unit {0}
  Applies ((fresh, bytes) ∷ rest) p =
      Applies rest p
      × ((entry_id : ℕ)
          → (json.unmarshal bytes).1 ≡ true
          → string_eq (json.unmarshal bytes).0.msg_type msg_type_op ≡ true
          → uuid.parse (json.unmarshal bytes).0.entry_id ≡ some entry_id
          → Returns (λ res. Applies rest (res.0))
              (project uuid json api entries states unmarshal p entry_id
                (json.marshal (record (json.unmarshal bytes).0 { authenticated = some auth }))))

  serve_loop-Follows :
      (base : ℕ → List ℕ) (sub : ℕ) (inputs : List (ℕ × List ℕ)) (h : Ws S E T) (sock : Socket)
      → Applies inputs h.projector
      → Follows base sub auth h sock
      → Returns
          (λ res. Follows base sub auth (res.0) (res.1))
          (serve_loop uuid json api entries states unmarshal inputs h sock)
  unfolding serve_loop
  serve_loop-Follows base sub [] h sock good f = f
  serve_loop-Follows base sub ((fresh, bytes) ∷ rest) h sock good f =
      let served = Serves uuid json api entries states unmarshal (Applies rest) base sub auth in
      let follows =
        λ (res : Ws S E T × Socket × List Sent). Follows base sub auth (res.0) (res.1) in
      Returns-bind served follows
        (receive uuid json api entries states unmarshal fresh h sock bytes) _
        (receive-Serves uuid json api entries states unmarshal (Applies rest) base sub auth fresh h
          sock bytes good.0 good.1 f)
        (λ res k.
          Returns-bind follows follows
            (serve_loop uuid json api entries states unmarshal rest (res.0) (res.1)) _
            (serve_loop-Follows base sub rest (res.0) (res.1) k.0 k.1) (λ last j. j))

authenticate-keeps :
    {S E T : Type 0} (now : ℕ) (ticket : Option ℕ) (h : Ws S E T)
    → ((authenticate now ticket h).0.projector ≡ h.projector)
      × ((authenticate now ticket h).0.sync_service ≡ h.sync_service)
unfolding authenticate
authenticate-keeps now none h = (refl, refl)
authenticate-keeps now (some ticket) h = elim (Option-cases h.auth) [
  | inl e ↦ rw (e, authenticate) (refl, refl)
  | inr (tickets, e) ↦ rw (e, authenticate) (refl, refl)
]

-- A connection reads messages and then an error. The projector returns for the operations among the
-- messages, in their order, marked with what the ticket gave, whichever of them get to it; and the
-- subscriber has no subscription yet. Then the connection is served to its end, and afterwards every
-- entry has the subscribers that it had before, in their order.
pub serve_http-unsubscribes :
    (uuid : UuidText) (json : JsonText) {S E T : Type 0} (api : EventStoreApi (List ℕ) S)
    (entries : EntryStoreApi E) (states : RgaStateApi T) (unmarshal : List ℕ → Option PayloadMsg)
    (now sub : ℕ) (ticket : Option ℕ) (inputs : List (ℕ × List ℕ)) (h : Ws S E T)
    → Applies uuid json api entries states unmarshal
        (authenticate now ticket h).1
        inputs
        h.projector
    → ((e : ℕ) → contains sub (h.sync_service.subscribers e) ≡ false)
    → (h' : Ws S E T) × (sent : List Sent) × (serve_http uuid json api entries states unmarshal now
          sub ticket inputs h
        ≡ Outcome.ok (h', sent))
      × ((e : ℕ) → h'.sync_service.subscribers e ≡ h.sync_service.subscribers e)
unfolding serve_http contains
serve_http-unsubscribes uuid json api entries states unmarshal now sub ticket inputs h good absent =
    let base = h.sync_service.subscribers in
    let start = authenticate now ticket h in
    let (same_projector, same_service) = authenticate-keeps now ticket h in
    let sock : Socket = record { sub = sub; subscribed_entries = []; authenticated = start.1 } in
    let f : Follows base sub (start.1) (start.0) sock = record {
      once = tt;
      same = refl;
      flag = refl;
      has = λ e. rw same_service (sym (append-nil (base e)));
    } in
    let (res, run, f') =
      Returns-ok (λ last. Follows base sub (start.1) (last.0) (last.1))
        (serve_loop uuid json api entries states unmarshal inputs (start.0) sock)
        (serve_loop-Follows uuid json api entries states unmarshal (start.1) base sub inputs
          (start.0) sock (rw same_projector good) f) in
    (
      disconnect sub (res.1.subscribed_entries) (res.0),
      (sub, auth_status start.1) ∷ res.2,
      rw (run, serve_http) refl,
      disconnect-subscribers base sub (start.1) (res.1.subscribed_entries) (res.0) absent f'.once
          f'.has,
    )
