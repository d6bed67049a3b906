-- ===== src/Flourish/Services.antt =====
-- Runs of the stores, the projector, the sync service and the tickets on small inputs.
use tanzlaurel.Base.{
  ℕ, suc, ◌+◌, ◌≡◌, ◌≢◌, refl, List, [], ◌∷◌, ◌++◌, map, Bool, true, false, not, Option, none, some,
  Outcome, arith, length, take, drop, ◌⊎◌, ltb,
}
use tanzlaurel.Base.Errors.{ok, err}
use tanzlaurel.Base.Int.{pos}
use tanzlaurel.Flourish.Crdt.Types.{Rga}
use tanzlaurel.Flourish.Crdt.Rga.{contains, text, has_node, is_node_authenticated}
use tanzlaurel.Flourish.Crdt.Rga
use tanzlaurel.Flourish.Crdt.Apply.{IsWell}
use tanzlaurel.Flourish.Crdt.Snapshot.{PayloadMsg, RgaSnapshot}
use tanzlaurel.Flourish.Store.Domain.{
  Entry, Event, crdt_op, new_entry, entry_not_found, entry_deleted,
}
use tanzlaurel.Flourish.Store.Events.{
  EventStore, new_event_store, append, list_after, memory_event_store,
}
use tanzlaurel.Flourish.Store.Numbering.{
  IsConsistent, new_event_store-IsConsistent, append-IsConsistent, list_after-drop,
}
use tanzlaurel.Flourish.Store.Entries
use tanzlaurel.Flourish.Store.Entries.{EntryStore, find_by_id}
use tanzlaurel.Flourish.Store.Lookup.{find_by_id-save, find_by_id-delete}
use tanzlaurel.Flourish.Sync.{
  SyncService, SyncMessage, new_sync_service, get_diff, subscribe, unsubscribe, broadcast,
}
use tanzlaurel.Flourish.Sync.CatchUp.{op_of, get_diff_completes, broadcast-subscribe}
use tanzlaurel.Flourish.Tickets.{
  TicketStore, new_ticket_store, cleanup, issue, redeem, redeem-issue,
}
use tanzlaurel.Flourish.Projector.{RgaStateApi, Projector, rga_of, is_refused, apply_op}
use tanzlaurel.Flourish.Projector.Guard.{Keeps, apply_op-Keeps}
use tanzlaurel.Flourish.Projector.View.{
  memory_entry_store, memory_entry_store-IsEntryStore, IsFirstLine, apply_op-shows,
}
use tanzlaurel.Flourish.Examples.{one_digit, type_b, delete_c, rga_ac, rga_ac-IsWell, program}

abbrev event : ℕ → Event ℕ
event request_id = record {
  entry_id = 7;
  server_seq = 0;
  request_id = request_id;
  event_type = crdt_op;
  site_id = 1;
  payload = 42;
  created_at = 0;
}

abbrev one_event : EventStore ℕ
one_event = (append 5 (event 1) new_event_store).0

one_event-IsConsistent : IsConsistent one_event
one_event-IsConsistent =
    (append-IsConsistent 5 (event 1) new_event_store new_event_store-IsConsistent).0

append-IsConsistent_example :
    IsConsistent (append 6 (event 2) one_event).0
    × ((contains 2 one_event.seen ≡ true)
          × ((append 6 (event 2) one_event).0 ≡ one_event)
          × ((append 6 (event 2) one_event).1 ≡ 0)
        ⊎ (contains 2 one_event.seen ≡ false)
          × ((append 6 (event 2) one_event).1 ≡ suc (length (one_event.events 7)))
          × (length ((append 6 (event 2) one_event).0.events 7)
              ≡ suc (length (one_event.events 7))))
append-IsConsistent_example = append-IsConsistent 6 (event 2) one_event one_event-IsConsistent

list_after-drop_example : list_after one_event 7 (pos 1) ≡ drop 1 (one_event.events 7)
list_after-drop_example = list_after-drop one_event 7 1 one_event-IsConsistent

abbrev pub service : SyncService (EventStore ℕ)
service = new_sync_service one_event

get_diff_completes_example :
    (msg : SyncMessage ℕ) × (get_diff (memory_event_store 9) service 7 (pos 0) ≡ ok msg)
    × (take 0 (map op_of (one_event.events 7)) ++ msg.ops ≡ map op_of (one_event.events 7))
    × (msg.latest_server_seq ≡ length (one_event.events 7))
    × (msg.entry_id ≡ 7)
unfolding new_sync_service
get_diff_completes_example = get_diff_completes 9 service 7 0 one_event-IsConsistent

abbrev message : SyncMessage ℕ
message = record { entry_id = 7; ops = []; latest_server_seq = 1 }

broadcast-subscribe_example :
    (broadcast (subscribe (subscribe service 7 3) 7 4) 7 message
      ≡ broadcast (subscribe service 7 3) 7 message ++ ((4, message) ∷ []))
    × ((j : ℕ)
        → j ≢ 7
        → broadcast (subscribe (subscribe service 7 3) 7 4) j message
          ≡ broadcast (subscribe service 7 3) j message)
    × ((j : ℕ)
        → broadcast (unsubscribe (subscribe (subscribe service 7 3) 7 4) 7 4) j message
          ≡ broadcast (subscribe service 7 3) j message)
unfolding new_sync_service subscribe contains
broadcast-subscribe_example = broadcast-subscribe (subscribe service 7 3) 7 4 message refl

abbrev pub entries : EntryStore
entries = Entries.save (new_entry 7 1) (Entries.save (new_entry 8 2) [])

find_by_id-delete_example :
    ((find_by_id 7 entries ≡ err entry_not_found)
      × (Entries.delete 7 entries ≡ (entries, some entry_not_found)))
    ⊎ (((Entries.delete 7 entries).1 ≡ none)
        × (find_by_id 7 (Entries.delete 7 entries).0 ≡ err entry_deleted)
        × ((j : ℕ) → j ≢ 7 → find_by_id j (Entries.delete 7 entries).0 ≡ find_by_id j entries))
find_by_id-delete_example = find_by_id-delete 7 entries

find_by_id-save_example : find_by_id 8 (Entries.save (new_entry 7 3) entries) ≡ find_by_id 8 entries
unfolding new_entry
find_by_id-save_example = find_by_id-save (new_entry 7 3) entries 8 refl

abbrev tickets : TicketStore
tickets = issue 90 11 (new_ticket_store 30)

redeem-issue_example :
    ((redeem 101 12 (issue 100 12 tickets)).1 ≡ ltb 101 (100 + 30))
    × ((redeem 102 12 (redeem 101 12 (issue 100 12 tickets)).0).1 ≡ false)
    × ((other : ℕ)
        → other ≢ 12
        → (redeem 101 other (issue 100 12 tickets)).1 ≡ (redeem 101 other tickets).1)
unfolding issue new_ticket_store cleanup
redeem-issue_example = redeem-issue tickets 12 100 101 102 (omega arith)

abbrev pub no_states : RgaStateApi (List (ℕ × RgaSnapshot))
no_states = record {
  save_rga = λ id snap states. ((id, snap) ∷ states, none);
  load_rga = λ states id. err entry_not_found;
}

abbrev pub projector : Projector EntryStore (List (ℕ × RgaSnapshot))
projector = record {
  rgas = λ id. some rga_ac;
  entry_store = entries;
  rga_state = [];
  markdown = [];
}

abbrev pub no_json : List ℕ → Option PayloadMsg
no_json bytes = none

apply_op-Keeps_example :
    (p' : Projector EntryStore (List (ℕ × RgaSnapshot))) × (b : Bool) × (apply_op one_digit
        memory_entry_store no_states no_json projector 7 delete_c
      ≡ Outcome.ok (p', b))
    × Keeps rga_ac (rga_of p' 7)
    × ((j : ℕ) → j ≢ 7 → p'.rgas j ≡ projector.rgas j)
unfolding rga_of
apply_op-Keeps_example =
    apply_op-Keeps one_digit memory_entry_store no_states no_json projector 7 delete_c rga_ac-IsWell
      refl refl

apply_op-shows_example :
    (p' : Projector EntryStore (List (ℕ × RgaSnapshot))) × (r' : Rga) × (e' : Entry) × (apply_op
        one_digit memory_entry_store no_states no_json projector 7 type_b
      ≡ Outcome.ok (p', true))
    × (Rga.apply one_digit rga_ac type_b ≡ Outcome.ok (r', not (contains 3 rga_ac.seen)))
    × IsWell r'
    × (p'.rgas 7 ≡ some r')
    × (find_by_id 7 p'.entry_store ≡ ok e')
    × (e'.text ≡ text r')
    × IsFirstLine e'.title (text r')
    × (e'.content ≡ take 200 (text r'))
    × (p'.markdown ≡ [] ++ ((7, text r') ∷ []))
unfolding program rga_of is_refused Entries.find_by_id Entries.save Entries.find new_entry
apply_op-shows_example =
    apply_op-shows one_digit memory_entry_store no_states no_json memory_entry_store-IsEntryStore
      projector 7 type_b (new_entry 7 1) rga_ac-IsWell ((λ e. refl), tt, tt) refl refl
