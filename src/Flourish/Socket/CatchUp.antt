-- ===== src/Flourish/Socket/CatchUp.antt =====
-- What a client that comes back gets from handleSyncRequest of flourish/server/handler/ws.go.
use tanzlaurel.Base.{
  ℕ, zero, suc, ◌≡◌, refl, sym, ap, ◌∙◌, subst, List, [], ◌∷◌, ◌++◌, map, take, length, true, some,
  ==_iff, Bool-cases, inl, inr, Option, arith,
}
use mathlib.Core.List.{map-append}
use tanzlaurel.Base.Int.{pos}
use tanzlaurel.Flourish.Uuid.{UuidText}
use tanzlaurel.Flourish.Crdt.Rga.{contains}
use tanzlaurel.Flourish.Crdt.Snapshot.{PayloadMsg}
use tanzlaurel.Flourish.Projector.{EntryStoreApi, RgaStateApi}
use tanzlaurel.Flourish.Store.Events.{EventStore, memory_event_store}
use tanzlaurel.Flourish.Store.Numbering.{IsConsistent}
use tanzlaurel.Flourish.Sync.{subscribe}
use tanzlaurel.Flourish.Sync.CatchUp.{op_of, get_diff_completes}
use tanzlaurel.Flourish.Socket.{
  Ws, Socket, ensure_subscribed, convert_op, convert_sync_message, handle_sync_request,
}
use tanzlaurel.Flourish.Socket.Messages.{JsonText, IncomingMessage, SyncMsg, SyncOpMsg, sync}
use tanzlaurel.Flourish.Socket.Operations.{ensure_subscribed-store}

take-map {ℓ κ} :
    {A : Type ℓ} {B : Type κ} (f : A → B) (n : ℕ) (xs : List A)
    → take n (map f xs) ≡ map f (take n xs)
take-map f zero xs = refl
take-map f (suc n) [] = refl
take-map f (suc n) (x ∷ xs) = ap (◌∷◌ (f x)) (take-map f n xs)

completes_map {ℓ κ} :
    {A : Type ℓ} {B : Type κ} (f : A → B) (n : ℕ) (all rest : List A)
    → take n all ++ rest ≡ all
    → take n (map f all) ++ map f rest ≡ map f all
completes_map f n all rest h =
    ap (λ xs. xs ++ map f rest) (take-map f n all)
    ∙ sym (map-append f (take n all) rest)
    ∙ ap (map f) h

contains-snoc : (k : ℕ) (xs : List ℕ) → contains k (xs ++ (k ∷ [])) ≡ true
unfolding contains
contains-snoc k [] = ground (arith, (==_iff k k).1 refl)
contains-snoc k (x ∷ xs) = ground (arith, contains-snoc k xs)

module _ {S E T : Type 0} where
  ensure_subscribed-contains :
      (h : Ws S E T) (sock : Socket) (entry_id : ℕ)
      → (contains entry_id sock.subscribed_entries ≡ true
          → contains sock.sub (h.sync_service.subscribers entry_id) ≡ true)
      → contains sock.sub ((ensure_subscribed h sock entry_id).0.sync_service.subscribers entry_id)
        ≡ true
  unfolding ensure_subscribed subscribe
  ensure_subscribed-contains h sock entry_id known =
      elim (Bool-cases (contains entry_id sock.subscribed_entries)) [
        | inl there ↦ rw there (known there)
        | inr new ↦
            rw (new, (==_iff entry_id entry_id).1 refl)
              (contains-snoc sock.sub (h.sync_service.subscribers entry_id))
      ]

-- The events of an entry in the form in which they are sent.
abbrev pub sent_form : UuidText → JsonText → EventStore (List ℕ) → ℕ → List SyncOpMsg
sent_form uuid json s entry_id = map (convert_op uuid json) (map op_of (s.events entry_id))

-- A connection that counts an entry as subscribed is among its subscribers, the store in memory is
-- consistent, and the request names the entry by a UUID and the number `n`. Then the one message
-- sent goes to that connection, and completes the first `n` operations of the entry to all of
-- them in order, with their count as the latest number. The stored events stay, and the connection is
-- among the subscribers of the entry.
pub handle_sync_request-completes :
    (uuid : UuidText) (json : JsonText) {E T : Type 0} (entries : EntryStoreApi E)
    (states : RgaStateApi T) (unmarshal : List ℕ → Option PayloadMsg) (now fresh : ℕ)
    (h : Ws (EventStore (List ℕ)) E T) (sock : Socket) (msg : IncomingMessage) (entry_id n : ℕ)
    → uuid.parse msg.entry_id ≡ some entry_id
    → msg.last_server_seq ≡ pos n
    → IsConsistent h.sync_service.event_store
    → (contains entry_id sock.subscribed_entries ≡ true
        → contains sock.sub (h.sync_service.subscribers entry_id) ≡ true)
    → (diff : SyncMsg) × ((handle_sync_request uuid json
          (memory_event_store now)
          entries
          states
          unmarshal
          fresh
          h
          sock
          msg).2
        ≡ (sock.sub, sync diff) ∷ [])
      × (take n (sent_form uuid json h.sync_service.event_store entry_id) ++ diff.ops
          ≡ sent_form uuid json h.sync_service.event_store entry_id)
      × (diff.latest_server_seq ≡ length (h.sync_service.event_store.events entry_id))
      × ((handle_sync_request uuid json
            (memory_event_store now)
            entries
            states
            unmarshal
            fresh
            h
            sock
            msg).0.sync_service.event_store
          ≡ h.sync_service.event_store)
      × (contains sock.sub (
            (handle_sync_request uuid json
                (memory_event_store now)
                entries
                states
                unmarshal
                fresh
                h
                sock
                msg).0.sync_service.subscribers
              entry_id)
          ≡ true)
unfolding handle_sync_request convert_sync_message
handle_sync_request-completes uuid json entries states unmarshal now fresh h sock msg entry_id n
      parsed asked consistent known =
    let after = ensure_subscribed h sock entry_id in
    let kept = ensure_subscribed-store h sock entry_id in
    let there = ensure_subscribed-contains h sock entry_id known in
    let (diff, found, completed, latest, named) =
      get_diff_completes now (after.0.sync_service) entry_id n (rw (kept.0) consistent) in
    let run : handle_sync_request uuid json (memory_event_store now) entries states unmarshal fresh
          h sock msg
        ≡ (after.0, after.1, (sock.sub, sync (convert_sync_message uuid json diff)) ∷ []) =
      rw (handle_sync_request, parsed, asked, found) refl in
    (
      convert_sync_message uuid json diff,
      ap (λ res. res.2) run,
      subst
          (λ s.
            take n (sent_form uuid json s entry_id) ++ map (convert_op uuid json) diff.ops
            ≡ sent_form uuid json s entry_id)
          kept.0
          (completes_map (convert_op uuid json) n
            (map op_of (after.0.sync_service.event_store.events entry_id)) diff.ops completed),
      subst (λ s. diff.latest_server_seq ≡ length (s.events entry_id)) kept.0 latest,
      ap (λ res. res.0.sync_service.event_store) run ∙ kept.0,
      ap (λ res. contains sock.sub (res.0.sync_service.subscribers entry_id)) run ∙ there,
    )
