-- ===== src/Flourish/Store/Files.antt =====
-- flourish/server/adapter/jsonfile/event_store.go: the events of an entry as the lines of a file. The
-- directory is the list of its entries, each with its lines and with whether it opens; encoding/json and
-- the text form of a time are parameters. Whether a write succeeds is an argument. A file is read
-- without an error once it is open, and the directory is there. A line holds one of
-- the event types that the package domain names.
pub mod Names
pub mod Reading
pub mod Writing
pub mod Restart
use tanzlaurel.Base.{
  ℕ, suc, List, [], ◌∷◌, ◌++◌, map, Bool, true, false, Option, none, some, ltb, ◌==◌, if◌then◌else◌,
  length, ◌*◌,
}
use tanzlaurel.Base.Errors.{Result, ok, err, ◌>>=◌}
use tanzlaurel.Base.Int.{ℤ}
use tanzlaurel.Flourish.Uuid.{UuidText}
use tanzlaurel.Flourish.Crdt.Rga.{contains}
use tanzlaurel.Flourish.Store.Domain.{Event, EventType, StoreError, internal}
use tanzlaurel.Flourish.Store.Events.{EventStore, update, new_event_store}
use tanzlaurel.Flourish.Socket.Messages.{string_eq}

-- `eventJSON`
pub record EventJson : Type 0 where
  pub entry_id : List ℕ
  pub server_seq : ℕ
  pub request_id : List ℕ
  pub event_type : EventType
  pub site_id : List ℕ
  pub payload : List ℕ
  pub created_at : List ℕ

-- `json.Marshal` and `json.Unmarshal` of a line, and a time in the layout RFC3339Nano; a text that is
-- no time reads as the zero time.
pub record LineText : Type 0 where
  pub marshal : EventJson → List ℕ
  pub unmarshal : List ℕ → Option EventJson
  pub format : ℕ → List ℕ
  pub parse_time : List ℕ → ℕ

pub record DirEntry : Type 0 where
  pub name : List ℕ
  pub is_dir : Bool
  pub opens : Bool
  pub lines : List (List ℕ)

pub record FileStore : Type 0 where
  pub dir : List DirEntry
  pub store : EventStore (List ℕ)

-- `".jsonl"`
abbrev pub suffix : List ℕ
suffix = b'.' ∷ b'j' ∷ b's' ∷ b'o' ∷ b'n' ∷ b'l' ∷ []

-- `strings.TrimSuffix`, of a name for which `strings.HasSuffix` holds.
unfoldable pub trim_suffix : List ℕ → Option (List ℕ)
trim_suffix [] = none
trim_suffix (c ∷ cs) = elim (string_eq (c ∷ cs) suffix) [
  | true ↦ some []
  | false ↦ elim (trim_suffix cs) [ none ↦ none | some rest ↦ some (c ∷ rest) ]
]

-- A write at the end of a file, which is made when there is none.
unfoldable pub append_line : List ℕ → List ℕ → List DirEntry → List DirEntry
append_line name line [] =
    record { name = name; is_dir = false; opens = true; lines = line ∷ [] } ∷ []
append_line name line (e ∷ entries) =
    let rest = append_line name line entries in
    if string_eq e.name name
    then record e { lines = e.lines ++ (line ∷ []) } ∷ entries
    else e ∷ rest

-- The size of the scanner's buffer.
abbrev pub max_line : ℕ
max_line = 1024 * 1024

-- What `bufio.Scanner` yields of the lines of a file. A line and its line break have to fit into the
-- buffer; at the first that does not, the scanner stops.
unfoldable pub scan : List (List ℕ) → List (List ℕ)
scan [] = []
scan (line ∷ lines) =
    let rest = scan lines in if ltb (length line) max_line then line ∷ rest else []

module _ (uuid : UuidText) (text : LineText) where
  -- `requestID, _ := uuid.Parse(…)`
  unfoldable pub parse_ignoring : List ℕ → ℕ
  parse_ignoring s = elim (uuid.parse s) [ none ↦ uuid.rest_of s | some u ↦ u ]

  unfoldable pub event_of : ℕ → EventJson → Event (List ℕ)
  event_of entry_id ej = record {
    entry_id = entry_id;
    server_seq = ej.server_seq;
    request_id = parse_ignoring ej.request_id;
    event_type = ej.event_type;
    site_id = parse_ignoring ej.site_id;
    payload = ej.payload;
    created_at = text.parse_time ej.created_at;
  }

  -- The loop over the lines; one that is no JSON is passed over.
  unfoldable pub load_lines : ℕ → List (List ℕ) → EventStore (List ℕ) → EventStore (List ℕ)
  load_lines entry_id [] s = s
  load_lines entry_id (line ∷ lines) s = elim (text.unmarshal line) [
    | none ↦ load_lines entry_id lines s
    | some ej ↦
        let ev = event_of entry_id ej in
        load_lines entry_id lines (record {
          events = update s.events entry_id (s.events entry_id ++ (ev ∷ []));
          seqs =
              if ltb (s.seqs entry_id) ev.server_seq
              then update s.seqs entry_id ev.server_seq
              else s.seqs;
          seen = ev.request_id ∷ s.seen;
        })
  ]

  -- The entry that a file is for.
  unfoldable pub entry_of : DirEntry → Option ℕ
  entry_of e =
      if e.is_dir then none else elim (trim_suffix e.name) [ none ↦ none | some s ↦ uuid.parse s ]

  -- A file that does not open ends the loop with its error.
  unfoldable pub load_all :
      List DirEntry → EventStore (List ℕ) → Result StoreError (EventStore (List ℕ))
  load_all [] s = ok s
  load_all (e ∷ entries) s = elim (entry_of e) [
    | none ↦ load_all entries s
    | some entry_id ↦ elim e.opens [
      | false ↦ err internal
      | true ↦ load_all entries (load_lines entry_id (scan e.lines) s)
    ]
  ]

  -- `NewEventStore`, with the directory in place.
  unfoldable pub open_store : List DirEntry → Result StoreError FileStore
  open_store dir = do store ← load_all dir new_event_store; ok (record { dir = dir; store = store })

  unfoldable pub file_name : ℕ → List ℕ
  file_name entry_id = uuid.to_string entry_id ++ suffix

  unfoldable pub json_of : Event (List ℕ) → EventJson
  json_of ev = record {
    entry_id = uuid.to_string ev.entry_id;
    server_seq = ev.server_seq;
    request_id = uuid.to_string ev.request_id;
    event_type = ev.event_type;
    site_id = uuid.to_string ev.site_id;
    payload = ev.payload;
    created_at = text.format ev.created_at;
  }

  -- `writes` tells whether `appendToFile` succeeds; if not, nothing is in the file, and what is in
  -- memory stays.
  unfoldable pub append : Bool → ℕ → Event (List ℕ) → FileStore → FileStore × Result StoreError ℕ
  append writes now event fs =
      let s = fs.store in
      let seq = suc (s.seqs event.entry_id) in
      let stamped = record event { server_seq = seq; created_at = now } in
      let s' : EventStore (List ℕ) = record {
        events = update s.events event.entry_id (s.events event.entry_id ++ (stamped ∷ []));
        seqs = update s.seqs event.entry_id seq;
        seen = event.request_id ∷ s.seen;
      } in
      elim (contains event.request_id s.seen) [
        | true ↦ (fs, ok 0)
        | false ↦ elim writes [
          | false ↦ (record fs { store = s' }, err internal)
          | true ↦ (
            record {
              dir = append_line (file_name event.entry_id) (text.marshal (json_of stamped)) fs.dir;
              store = s';
            },
            ok seq,
          )
        ]
      ]
