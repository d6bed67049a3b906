-- ===== src/Flourish/Reopening.antt =====
-- A store on files that is closed and opened again.
use tanzlaurel.Base.{ℕ, ◌++◌, List, [], ◌∷◌, Option, none, some}
use tanzlaurel.Flourish.Store.Domain.{Event, crdt_op}
use tanzlaurel.Flourish.Store.Files.{EventJson, LineText}

abbrev logged : ℕ → Event (List ℕ)
logged request_id = record {
  entry_id = 7;
  server_seq = 0;
  request_id = request_id;
  event_type = crdt_op;
  site_id = 1;
  payload = b'{' ∷ b'}' ∷ [];
  created_at = 0;
}

-- A line for events that differ in their request, number and time.
abbrev short_lines : LineText
short_lines = record {
  marshal = λ ej. ej.request_id ++ (ej.server_seq ∷ ej.created_at);
  unmarshal = unmarshal;
  format = λ t. t ∷ [];
  parse_time = parse_time;
}
  where
    unmarshal : List ℕ → Option EventJson
    unmarshal (r ∷ (n ∷ (t ∷ []))) = some (record {
      entry_id = 7 ∷ [];
      server_seq = n;
      request_id = r ∷ [];
      event_type = crdt_op;
      site_id = 1 ∷ [];
      payload = b'{' ∷ b'}' ∷ [];
      created_at = t ∷ [];
    })
    unmarshal bytes = none

    parse_time : List ℕ → ℕ
    parse_time [] = 0
    parse_time (t ∷ ts) = t

abbrev log : List (ℕ × Event (List ℕ))
log = (5, logged 1) ∷ (6, logged 2) ∷ (7, logged 1) ∷ []
