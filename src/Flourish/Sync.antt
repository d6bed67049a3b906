-- ===== src/Flourish/Sync.antt =====
-- flourish/server/application/sync_service.go: operations are stored, acknowledged and sent on. The
-- event store is any store behind the interface. The trace spans are left out. A subscriber is a
-- number, for the identity that `existing == sub` compares.
pub mod CatchUp
use tanzlaurel.Base.{ℕ, List, [], ◌∷◌, ◌++◌, map, ◌==◌, if◌then◌else◌}
use tanzlaurel.Base.Errors.{Result, ok, err, ◌>>=◌}
use tanzlaurel.Base.Int.{ℤ}
use tanzlaurel.Flourish.Store.Domain.{Event, EventStoreApi, StoreError, crdt_op}
use tanzlaurel.Flourish.Store.Events.{update}

pub record SyncOp (P : Type 0) : Type 0 where
  pub request_id : ℕ
  pub server_seq : ℕ
  pub payload : P

pub record SyncMessage (P : Type 0) : Type 0 where
  pub entry_id : ℕ
  pub ops : List (SyncOp P)
  pub latest_server_seq : ℕ

pub record AckMessage : Type 0 where
  pub request_id : ℕ
  pub entry_id : ℕ
  pub server_seq : ℕ

pub record SyncService (S : Type 0) : Type 0 where
  pub event_store : S
  pub subscribers : ℕ → List ℕ

-- The first occurrence is taken out.
unfoldable pub remove_first : ℕ → List ℕ → List ℕ
remove_first sub [] = []
remove_first sub (x ∷ xs) = if x == sub then xs else x ∷ remove_first sub xs

module _ {S : Type 0} where
  unfoldable pub new_sync_service : S → SyncService S
  new_sync_service event_store = record { event_store = event_store; subscribers = λ e. [] }

  unfoldable pub subscribe : SyncService S → ℕ → ℕ → SyncService S
  subscribe s entry_id sub = record s {
    subscribers = update s.subscribers entry_id (s.subscribers entry_id ++ (sub ∷ []));
  }

  unfoldable pub unsubscribe : SyncService S → ℕ → ℕ → SyncService S
  unsubscribe s entry_id sub = record s {
    subscribers = update s.subscribers entry_id (remove_first sub (s.subscribers entry_id));
  }

  -- The messages that are sent, in their order, each with its receiver.
  unfoldable pub broadcast {ℓ} : {M : Type ℓ} → SyncService S → ℕ → M → List (ℕ × M)
  broadcast s entry_id msg = map (λ sub. (sub, msg)) (s.subscribers entry_id)

module _ {P S : Type 0} (api : EventStoreApi P S) where
  -- The fields that the store sets are the zero values of the Go struct.
  unfoldable pub handle_op :
      SyncService S → ℕ → ℕ → ℕ → P → SyncService S × Result StoreError AckMessage
  handle_op s entry_id site_id request_id payload =
      let event : Event P = record {
        entry_id = entry_id;
        server_seq = 0;
        request_id = request_id;
        event_type = crdt_op;
        site_id = site_id;
        payload = payload;
        created_at = 0;
      } in
      let (store, answer) = api.append event s.event_store in
      (
        record s { event_store = store },
        answer >>= λ server_seq.
            ok (record { request_id = request_id; entry_id = entry_id; server_seq = server_seq }),
      )

  unfoldable pub get_diff : SyncService S → ℕ → ℤ → Result StoreError (SyncMessage P)
  get_diff s entry_id after_seq = do
    events ← api.list_after s.event_store entry_id after_seq
    max_seq ← api.max_server_seq s.event_store entry_id
    ok (record {
      entry_id = entry_id;
      ops =
          map
            (λ e. record {
              request_id = e.request_id;
              server_seq = e.server_seq;
              payload = e.payload;
            })
            events;
      latest_server_seq = max_seq;
    })
