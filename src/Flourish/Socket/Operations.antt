-- ===== src/Flourish/Socket/Operations.antt =====
-- What becomes of an operation that a client sends.
use tanzlaurel.Base.{
  ℕ, suc, ◌≡◌, refl, sym, subst, List, [], ◌∷◌, ◌++◌, map, length, Bool, true, false, not, ◌&&◌,
  Option, some, ltb, ◌==◌, if◌then◌else◌, ==_iff, Outcome, Returns, Returns-bind, Bool-cases, inl,
  inr, ◌⊎◌, arith,
}
use mathlib.Core.List.{append-nil}
use tanzlaurel.Base.Errors.{Result, ok}
use tanzlaurel.Flourish.Uuid.{UuidText}
use tanzlaurel.Flourish.Crdt.Rga.{contains}
use tanzlaurel.Flourish.Crdt.Snapshot.{PayloadMsg}
use tanzlaurel.Flourish.Store.Domain.{Event, StoreError, crdt_op}
use tanzlaurel.Flourish.Store.Events.{EventStore, append, memory_event_store}
use tanzlaurel.Flourish.Store.Numbering.{IsConsistent}
use tanzlaurel.Flourish.Sync.{SyncService, AckMessage, subscribe, broadcast}
use tanzlaurel.Flourish.Sync
use tanzlaurel.Flourish.Projector.{EntryStoreApi, RgaStateApi, Projector}
use tanzlaurel.Flourish.Socket.{
  Ws, Socket, Sent, ensure_subscribed, send_all, site_of, convert_op, convert_sync_message, project,
  pass_on, store_op, handle_op,
}
use tanzlaurel.Flourish.Socket.Messages.{JsonText, IncomingMessage, SyncMsg, ack, sync}

-- The message with the flag of its connection.
abbrev pub stamped : Socket → IncomingMessage → IncomingMessage
stamped sock msg = record msg { authenticated = some sock.authenticated }

-- The broadcast of one operation.
abbrev pub news : UuidText → IncomingMessage → ℕ → ℕ → ℕ → SyncMsg
news uuid msg entry_id request_id server_seq = record {
  entry_id = uuid.to_string entry_id;
  ops =
      record {
        request_id = uuid.to_string request_id;
        server_seq = server_seq;
        op_type = msg.op_type;
        node_id = msg.node_id;
        after = msg.after;
        value = msg.value;
        authenticated = msg.authenticated;
      }
      ∷ [];
  latest_server_seq = server_seq;
}

pub ensure_subscribed-store :
    {S E T : Type 0} (h : Ws S E T) (sock : Socket) (entry_id : ℕ)
    → ((ensure_subscribed h sock entry_id).0.sync_service.event_store ≡ h.sync_service.event_store)
      × ((ensure_subscribed h sock entry_id).0.projector ≡ h.projector)
      × ((ensure_subscribed h sock entry_id).1.sub ≡ sock.sub)
unfolding ensure_subscribed subscribe
ensure_subscribed-store h sock entry_id =
    elim (Bool-cases (contains entry_id sock.subscribed_entries)) [
      | inl there ↦ rw (there, ensure_subscribed) (refl, refl, refl)
      | inr new ↦ rw (new, ensure_subscribed) (refl, refl, refl)
    ]

-- The connection is behind the subscribers of the entry, and remembers that, unless it did before.
abbrev pub Subscribes : {S E T : Type 0} → ℕ → Ws S E T → Socket → Ws S E T → Socket → Type 0
Subscribes entry_id h sock h' sock' =
    let known = contains entry_id sock.subscribed_entries in
    ((e : ℕ)
      → h'.sync_service.subscribers e
        ≡ h.sync_service.subscribers e
          ++ (if e == entry_id && not known then sock.sub ∷ [] else []))
    × (sock'.subscribed_entries ≡ sock.subscribed_entries ++ (if known then [] else entry_id ∷ []))

ensure_subscribed-Subscribes :
    {S E T : Type 0} (h : Ws S E T) (sock : Socket) (entry_id : ℕ)
    → Subscribes entry_id h sock
        (ensure_subscribed h sock entry_id).0
        (ensure_subscribed h sock entry_id).1
unfolding ensure_subscribed subscribe
ensure_subscribed-Subscribes h sock entry_id =
    elim (Bool-cases (contains entry_id sock.subscribed_entries)) [
      | inl there ↦
          rw (there, ensure_subscribed)
            (
              (λ e. elim (Bool-cases (e == entry_id)) [
                | inl here ↦ rw here (sym (append-nil (h.sync_service.subscribers e)))
                | inr other ↦ rw other (sym (append-nil (h.sync_service.subscribers e)))
              ]),
              sym (append-nil sock.subscribed_entries),
            )
      | inr new ↦
          rw (new, ensure_subscribed)
            (
              (λ e. elim (Bool-cases (e == entry_id)) [
                | inl here ↦ let same = (==_iff e entry_id).0 here in rw (here, same) refl
                | inr other ↦ rw other (sym (append-nil (h.sync_service.subscribers e)))
              ]),
              refl,
            )
    ]

module _ (uuid : UuidText) (json : JsonText) {E T : Type 0} (now : ℕ) (msg : IncomingMessage)
    (entry_id request_id : ℕ) (p : Option (Projector E T)) (applied : Bool) where
  abbrev pub told : Socket → ℕ → Sent
  told sock server_seq = (
    sock.sub,
    ack (record { request_id = msg.request_id; entry_id = msg.entry_id; server_seq = server_seq }),
  )

  -- The event that is stored under the number.
  abbrev pub stored : ℕ → Event (List ℕ)
  stored server_seq = record {
    entry_id = entry_id;
    server_seq = server_seq;
    request_id = request_id;
    event_type = crdt_op;
    site_id = site_of uuid json msg.node_id;
    payload = json.marshal msg;
    created_at = now;
  }

  -- A repeated request is acknowledged by 0, and nothing is stored, projected or sent to others. A new
  -- one is stored under the next number of its entry, behind the events there, and acknowledged by
  -- it; then, if the projector applied it, every subscriber gets the operation under that number.
  abbrev pub Acknowledges :
      EventStore (List ℕ)
      → Option (Projector E T)
      → Socket
      → Ws (EventStore (List ℕ)) E T
      → List Sent
      → Type 0
  Acknowledges store projector sock h' sent =
      let n = suc (length (store.events entry_id)) in
      ((contains request_id store.seen ≡ true)
        × (h'.sync_service.event_store ≡ store)
        × (h'.projector ≡ projector)
        × (sent ≡ told sock 0 ∷ []))
      ⊎ ((contains request_id store.seen ≡ false)
          × ((e : ℕ)
              → h'.sync_service.event_store.events e
                ≡ store.events e ++ (if e == entry_id then stored n ∷ [] else []))
          × (h'.projector ≡ p)
          × (sent
              ≡ told sock n
                ∷ (if applied
                    then map (λ sub. (sub, sync (news uuid msg entry_id request_id n)))
                        (h'.sync_service.subscribers entry_id)
                    else [])))

  module _ (entries : EntryStoreApi E) (states : RgaStateApi T)
      (unmarshal : List ℕ → Option PayloadMsg) (fresh : ℕ) where
    abbrev payload : List ℕ
    payload = json.marshal msg

    -- What is sent on.
    abbrev spread : Ws (EventStore (List ℕ)) E T → ℕ → List Sent
    spread h n =
        if applied
        then map (λ sub. (sub, sync (news uuid msg entry_id request_id n)))
            (h.sync_service.subscribers entry_id)
        else []

    pass_on-news :
        (h : Ws (EventStore (List ℕ)) E T) (n : ℕ)
        → json.unmarshal payload ≡ (msg, true)
        → project uuid json
            (memory_event_store now)
            entries
            states
            unmarshal
            h.projector
            entry_id
            payload
          ≡ Outcome.ok (p, applied)
        → pass_on uuid json
            (memory_event_store now)
            entries
            states
            unmarshal
            h
            entry_id
            request_id
            (suc n)
            payload
          ≡ Outcome.ok (record h { projector = p }, spread h (suc n))
    unfolding pass_on send_all broadcast convert_sync_message convert_op
    pass_on-news h n law run =
        let more : ltb 0 (suc n) ≡ true = ground arith in rw (more, run, pass_on) (rw law refl)

    module _ (h : Ws (EventStore (List ℕ)) E T) (sock : Socket) where
      abbrev store : EventStore (List ℕ)
      store = h.sync_service.event_store

      abbrev service : SyncService (EventStore (List ℕ)) × Result StoreError AckMessage
      service =
          Sync.handle_op (memory_event_store now) h.sync_service entry_id
            (site_of uuid json msg.node_id) request_id payload

      abbrev after : Ws (EventStore (List ℕ)) E T
      after = record h { sync_service = service.0 }

      -- Behind the store.
      store_op-pass_on :
          (n : ℕ) (rest : Ws (EventStore (List ℕ)) E T × List Sent)
          → service.1 ≡ ok (record { request_id = request_id; entry_id = entry_id; server_seq = n })
          → pass_on uuid json
              (memory_event_store now)
              entries
              states
              unmarshal
              after
              entry_id
              request_id
              n
              payload
            ≡ Outcome.ok rest
          → store_op uuid json
              (memory_event_store now)
              entries
              states
              unmarshal
              fresh
              h
              sock
              msg
              entry_id
              request_id
              payload
            ≡ Outcome.ok (rest.0, told sock n ∷ rest.1)
      unfolding store_op
      store_op-pass_on n rest e run = rw (e, run, store_op) refl

      store_op-Acknowledges :
          IsConsistent store
          → json.unmarshal payload ≡ (msg, true)
          → project uuid json
              (memory_event_store now)
              entries
              states
              unmarshal
              h.projector
              entry_id
              payload
            ≡ Outcome.ok (p, applied)
          → Returns
              (λ res.
                Acknowledges store h.projector sock (res.0) (res.1)
                × (res.0.sync_service.subscribers ≡ h.sync_service.subscribers))
              (store_op uuid json
                (memory_event_store now)
                entries
                states
                unmarshal
                fresh
                h
                sock
                msg
                entry_id
                request_id
                payload)
      unfolding pass_on Sync.handle_op append
      store_op-Acknowledges consistent law run =
          let k = store.seqs entry_id in
          let result = λ (res : Ws (EventStore (List ℕ)) E T × List Sent).
            Acknowledges store h.projector sock (res.0) (res.1)
            × (res.0.sync_service.subscribers ≡ h.sync_service.subscribers) in
          elim (Bool-cases (contains request_id store.seen)) [
            | inl dup ↦
                let done =
                  store_op-pass_on 0 (after, []) (rw (dup, Sync.handle_op, append) refl) refl in
                subst (Returns result) (sym done)
                  (inl (dup, rw (dup, Sync.handle_op, append) refl, refl, refl), refl)
            | inr new ↦
                let hi = consistent.highest entry_id in
                let self : (entry_id == entry_id) ≡ true = (==_iff entry_id entry_id).1 refl in
                let done =
                  store_op-pass_on (suc k) (record after { projector = p }, spread after (suc k))
                    (rw (new, Sync.handle_op, append) refl) (pass_on-news after k law run) in
                subst (Returns result) (sym done) (
                  inr (
                    new,
                    (λ e.
                        rw (new, Sync.handle_op, append, hi)
                          (elim (Bool-cases (e == entry_id)) [
                            | inl here ↦
                                let same = (==_iff e entry_id).0 here in rw (here, same) refl
                            | inr other ↦ rw other (sym (append-nil (store.events e)))
                          ])),
                    refl,
                    rw hi refl,
                  ),
                  refl,
                )
          ]

-- A client sends an operation whose entry id and request id are UUIDs, over a consistent store in
-- memory; JSON reads back what it wrote of the message, and the projector returns for that payload.
-- Then the handler returns. The connection is behind the subscribers of the entry from then on, unless
-- it counts the entry as subscribed already; no other subscriptions change. A repeated request is
-- acknowledged with the number 0, and nothing is stored, projected or sent to others. A new one is
-- stored, marked with the authentication of the connection whatever the client said of itself, behind
-- the events of its entry under their next number, and acknowledged with it first; if the projector
-- applied it, then every subscriber of the entry gets the operation with that mark and number,
-- and if it did not, nobody does.
pub handle_op-Acknowledges :
    (uuid : UuidText) (json : JsonText) {E T : Type 0} (now : ℕ) (entries : EntryStoreApi E)
    (states : RgaStateApi T) (unmarshal : List ℕ → Option PayloadMsg) (fresh : ℕ)
    (h : Ws (EventStore (List ℕ)) E T) (sock : Socket) (msg : IncomingMessage)
    (entry_id request_id : ℕ) (p : Option (Projector E T)) (applied : Bool)
    → uuid.parse msg.entry_id ≡ some entry_id
    → uuid.parse msg.request_id ≡ some request_id
    → IsConsistent h.sync_service.event_store
    → json.unmarshal (json.marshal (stamped sock msg)) ≡ (stamped sock msg, true)
    → project uuid json
        (memory_event_store now)
        entries
        states
        unmarshal
        h.projector
        entry_id
        (json.marshal (stamped sock msg))
      ≡ Outcome.ok (p, applied)
    → Returns
        (λ res.
          Acknowledges uuid json now
            (stamped sock msg)
            entry_id
            request_id
            p
            applied
            h.sync_service.event_store
            h.projector
            sock
            (res.0)
            (res.2)
          × Subscribes entry_id h sock (res.0) (res.1))
        (handle_op uuid json (memory_event_store now) entries states unmarshal fresh h sock msg)
unfolding handle_op
handle_op-Acknowledges uuid json now entries states unmarshal fresh h sock msg entry_id request_id p
      applied pe pr consistent law run =
    let m = stamped sock msg in
    let next = ensure_subscribed h sock entry_id in
    let (store, projector, sub) = ensure_subscribed-store h sock entry_id in
    let result = λ (res : Ws (EventStore (List ℕ)) _ _ × List Sent).
      Acknowledges uuid json now m entry_id request_id p applied h.sync_service.event_store
        h.projector sock (res.0) (res.1)
      × (res.0.sync_service.subscribers ≡ next.0.sync_service.subscribers) in
    let answer : Returns result (
        store_op uuid json (memory_event_store now) entries states unmarshal fresh (next.0) (next.1)
          m entry_id request_id (json.marshal m)) =
      rw (store, projector, sub) at
        (store_op-Acknowledges uuid json now m entry_id request_id p applied entries states
          unmarshal fresh (next.0) (next.1) (rw store consistent) law (rw projector run)) in
    rw (pe, pr, handle_op)
      (Returns-bind result
        (λ res.
          Acknowledges uuid json now m entry_id request_id p applied h.sync_service.event_store
            h.projector sock (res.0) (res.2)
          × Subscribes entry_id h sock (res.0) (res.1))
        (store_op uuid json (memory_event_store now) entries states unmarshal fresh (next.0)
          (next.1) m entry_id request_id (json.marshal m))
        _ answer (λ res (k, subs). (k, rw subs (ensure_subscribed-Subscribes h sock entry_id))))
