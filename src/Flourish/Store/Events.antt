-- ===== src/Flourish/Store/Events.antt =====
-- flourish/server/adapter/memory/event_store.go. A Go map that is read with its zero value for a
-- missing key is a function. A sequence number counts events in memory, so it does not wrap.
use tanzlaurel.Base.{ℕ, suc, List, [], ◌∷◌, ◌++◌, ◌==◌, if◌then◌else◌}
use tanzlaurel.Base.Errors.{ok}
use tanzlaurel.Base.Int.{ℤ, ltb_ℕ}
use tanzlaurel.Flourish.Crdt.Rga.{contains}
use tanzlaurel.Flourish.Store.Domain.{Event, EventStoreApi}

pub record EventStore (P : Type 0) : Type 0 where
  pub events : ℕ → List (Event P)
  pub seqs : ℕ → ℕ
  pub seen : List ℕ

-- A write to a map.
abbrev pub update {ℓ} : {A : Type ℓ} → (ℕ → A) → ℕ → A → ℕ → A
update m k v j = if j == k then v else m j

module _ {P : Type 0} where
  unfoldable pub new_event_store : EventStore P
  new_event_store = record { events = λ e. []; seqs = λ e. 0; seen = [] }

  -- `now` is the time that the clock gives. The answer is 0 for a duplicate.
  unfoldable pub append : ℕ → Event P → EventStore P → EventStore P × ℕ
  append now event s =
      let seq = suc (s.seqs event.entry_id) in
      let stamped = record event { server_seq = seq; created_at = now } in
      if contains event.request_id s.seen then (s, 0) else (
        record {
          events = update s.events event.entry_id (s.events event.entry_id ++ (stamped ∷ []));
          seqs = update s.seqs event.entry_id seq;
          seen = event.request_id ∷ s.seen;
        },
        seq,
      )

  -- The loop of `ListAfter`.
  unfoldable pub newer : ℤ → List (Event P) → List (Event P)
  newer after_seq [] = []
  newer after_seq (e ∷ es) =
      let rest = newer after_seq es in if ltb_ℕ after_seq e.server_seq then e ∷ rest else rest

  unfoldable pub list_after : EventStore P → ℕ → ℤ → List (Event P)
  list_after s entry_id after_seq = newer after_seq (s.events entry_id)

  unfoldable pub max_server_seq : EventStore P → ℕ → ℕ
  max_server_seq s entry_id = s.seqs entry_id

  -- The store behind the interface: no operation of it fails.
  abbrev pub memory_event_store : ℕ → EventStoreApi P (EventStore P)
  memory_event_store now = record {
    append = λ event s. let (s', seq) = append now event s in (s', ok seq);
    list_after = λ s entry_id after_seq. ok (list_after s entry_id after_seq);
    max_server_seq = λ s entry_id. ok (max_server_seq s entry_id);
  }
