-- ===== src/Flourish/Store/Files/Restart.antt =====
-- A store on files that is opened again has what it had.
use tanzlaurel.Base.{ℕ, ◌^◌, ◌<◌, ◌≡◌, List, [], ◌∷◌, map, true, some}
use tanzlaurel.Base.Errors.{ok}
use tanzlaurel.Flourish.Uuid.{UuidText}
use tanzlaurel.Flourish.Crdt.Rga.{contains}
use tanzlaurel.Flourish.Store.Domain.{Event}
use tanzlaurel.Flourish.Store.Events.{EventStore, new_event_store}
use tanzlaurel.Flourish.Store.Numbering.{IsConsistent}
use tanzlaurel.Flourish.Store.Events
use tanzlaurel.Flourish.Store.Files.{LineText, FileStore, open_store, json_of, append}
use tanzlaurel.Flourish.Store.Files.Reading.{file, read_table, requests_table, Ids, IsShort}
use tanzlaurel.Flourish.Store.Files.Writing.{Once}

module _ (uuid : UuidText) (text : LineText) where
  -- The files hold what the memory holds.
  record Mirrors (fs : FileStore) : Type 0 where
    table : List (ℕ × List (List ℕ))
    files : fs.dir ≡ map (file uuid text) table
    ids : Ids uuid text table
    once : Once uuid text table
    events : (e : ℕ) → fs.store.events e ≡ read_table uuid text e table
    seen : (k : ℕ) → contains k fs.store.seen ≡ requests_table uuid text table k
    consistent : IsConsistent fs.store

  -- The store opens on the directory, with what is in memory.
  abbrev pub Reopens : FileStore → Type 0
  Reopens fs =
      (fs' : FileStore) × (open_store uuid text fs.dir ≡ ok fs')
      × ((e : ℕ) → fs'.store.events e ≡ fs.store.events e)
      × ((e : ℕ) → fs'.store.seqs e ≡ fs.store.seqs e)
      × ((k : ℕ) → contains k fs'.store.seen ≡ contains k fs.store.seen)

  -- The line of an event, under any number and time, is read back, and the scanner yields it.
  abbrev pub Reads : Event (List ℕ) → Type 0
  Reads event =
      (n t : ℕ)
      → (text.unmarshal
            (text.marshal (json_of uuid text (record event { server_seq = n; created_at = t })))
          ≡ some (json_of uuid text (record event { server_seq = n; created_at = t })))
        × IsShort
            (text.marshal (json_of uuid text (record event { server_seq = n; created_at = t })))

-- `Append` for one event after another, each at its time and with a successful write.
unfoldable pub append_all : UuidText → LineText → List (ℕ × Event (List ℕ)) → FileStore → FileStore
append_all uuid text [] fs = fs
append_all uuid text ((now, event) ∷ rest) fs =
    append_all uuid text rest (append uuid text true now event fs).0

-- The ids of an event are UUIDs.
abbrev pub HasUuids : Event (List ℕ) → Type 0
HasUuids ev = (ev.entry_id < 2 ^ 128) × (ev.request_id < 2 ^ 128) × (ev.site_id < 2 ^ 128)

abbrev pub empty_store : FileStore
empty_store = record { dir = []; store = new_event_store }
