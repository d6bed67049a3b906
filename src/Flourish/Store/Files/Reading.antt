-- ===== src/Flourish/Store/Files/Reading.antt =====
-- What `loadAll` makes of a directory.
use tanzlaurel.Base.{
  ℕ, suc, ◌+◌, ◌*◌, ◌^◌, ◌<◌, ◌≡◌, refl, sym, ap, ◌∙◌, List, [], ◌∷◌, ◌++◌, map, Bool, true, false,
  ◌||◌, none, some, ltb, ◌==◌, ==_iff, if◌then◌else◌, length, Bool-cases, Option-cases, inl, inr,
  arith, All,
}
use mathlib.Core.List.{append-nil, append_assoc}
use tanzlaurel.Base.Errors.{ok}
use tanzlaurel.Flourish.Uuid.{UuidText}
use tanzlaurel.Flourish.Crdt.Rga.{contains}
use tanzlaurel.Flourish.Store.Domain.{Event}
use tanzlaurel.Flourish.Store.Events.{EventStore, update}
use tanzlaurel.Flourish.Store.Numbering.{IsNumbered}
use tanzlaurel.Flourish.Store.Files.{
  LineText, DirEntry, max_line, scan, event_of, load_lines, entry_of, load_all, file_name,
}
use tanzlaurel.Flourish.Store.Files.Names.{trim_suffix-append}

-- The highest number.
unfoldable pub top : ℕ → List (Event (List ℕ)) → ℕ
top m [] = m
top m (ev ∷ es) = top (if ltb m ev.server_seq then ev.server_seq else m) es

top-append : (xs ys : List (Event (List ℕ))) (m : ℕ) → top m (xs ++ ys) ≡ top (top m xs) ys
unfolding top
top-append [] ys m = refl
top-append (x ∷ xs) ys m = top-append xs ys (if ltb m x.server_seq then x.server_seq else m)

if_same {ℓ} : {A : Type ℓ} (b : Bool) (a : A) → (if b then a else a) ≡ a
if_same true a = refl
if_same false a = refl

pub or_false : (b : Bool) → (b || false) ≡ b
or_false true = refl
or_false false = refl

or_swap : (a b c : Bool) → ((a || b) || c) ≡ (b || (a || c))
or_swap true true c = refl
or_swap true false c = refl
or_swap false b c = refl

pub or_left : (a b c : Bool) → (a || (b || c)) ≡ (b || (a || c))
or_left true true c = refl
or_left true false c = refl
or_left false b c = refl

pub or_turn : (a b c : Bool) → ((a || (b || false)) || c) ≡ (b || (a || c))
or_turn true true c = refl
or_turn true false c = refl
or_turn false true c = refl
or_turn false false c = refl

pub or_assoc : (a b c : Bool) → ((a || b) || c) ≡ (a || (b || c))
or_assoc true b c = refl
or_assoc false b c = refl

pub top-IsNumbered :
    (entry_id m : ℕ) (es : List (Event (List ℕ)))
    → IsNumbered entry_id (suc m) es
    → top m es ≡ m + length es
unfolding top
top-IsNumbered entry_id m [] h = omega arith
top-IsNumbered entry_id m (e ∷ es) h =
    let more : ltb m e.server_seq ≡ true = ground (arith, h.0) in
    rw (more, h.0) (top-IsNumbered entry_id (suc m) es h.2 ∙ omega arith)

abbrev none_new : List (Event (List ℕ))
none_new = []

pick_append :
    (b : Bool) (a r t : List (Event (List ℕ)))
    → (a ++ (if b then r else [])) ++ t ≡ a ++ (if b then r ++ t else t)
pick_append true a r t = append_assoc a r t
pick_append false a r t = ap (λ (l : List (Event (List ℕ))). l ++ t) (append-nil a)

pick_top :
    (b : Bool) (m : ℕ) (r t : List (Event (List ℕ)))
    → top (top m (if b then r else [])) t ≡ top m (if b then r ++ t else t)
unfolding top
pick_top true m r t = sym (top-append r t m)
pick_top false m r t = refl

pub end_append :
    (r r' t : List (Event (List ℕ))) (x : Event (List ℕ))
    → r' ≡ r ++ (x ∷ [])
    → t ≡ []
    → r' ++ t ≡ (r ++ t) ++ (x ∷ [])
end_append r r' t x e nothing =
    rw (e, nothing)
      (append-nil (r ++ (x ∷ []))
        ∙ ap (λ (l : List (Event (List ℕ))). l ++ (x ∷ [])) (sym (append-nil r)))

more_events :
    (s : EventStore (List ℕ)) (id : ℕ) (ev : Event (List ℕ)) (rest : List (Event (List ℕ))) (e : ℕ)
    → update s.events id (s.events id ++ (ev ∷ [])) e ++ (if e == id then rest else [])
      ≡ s.events e ++ (if e == id then ev ∷ rest else [])
more_events s id ev rest e = elim (Bool-cases (e == id)) [
  | inl here ↦
      let same = (==_iff e id).0 here in rw (here, same) (append_assoc (s.events id) (ev ∷ []) rest)
  | inr other ↦ rw other refl
]

more_seqs :
    (s : EventStore (List ℕ)) (id : ℕ) (ev : Event (List ℕ)) (rest : List (Event (List ℕ))) (e : ℕ)
    → top
        ((if ltb (s.seqs id) ev.server_seq then update s.seqs id ev.server_seq else s.seqs) e)
        (if e == id then rest else [])
      ≡ top (s.seqs e) (if e == id then ev ∷ rest else [])
unfolding top
more_seqs s id ev rest e = elim (Bool-cases (ltb (s.seqs id) ev.server_seq)) [
  | inl higher ↦ elim (Bool-cases (e == id)) [
    | inl here ↦
        let same = (==_iff e id).0 here in
        let step : top (s.seqs id) (ev ∷ rest) ≡ top ev.server_seq rest = rw (top, higher) refl in
        rw (higher, here, same) (sym step)
    | inr other ↦ rw (higher, other) refl
  ]
  | inr lower ↦ elim (Bool-cases (e == id)) [
    | inl here ↦
        let same = (==_iff e id).0 here in
        let step : top (s.seqs id) (ev ∷ rest) ≡ top (s.seqs id) rest = rw (top, lower) refl in
        rw (lower, here, same) (sym step)
    | inr other ↦ rw (lower, other) refl
  ]
]

-- The line and its line break fit into the buffer of the scanner.
abbrev pub IsShort : List ℕ → Type 0
IsShort line = length line < 1024 * 1024

scan-IsShort : (lines : List (List ℕ)) → All IsShort lines → scan lines ≡ lines
unfolding scan
scan-IsShort [] h = refl
scan-IsShort (line ∷ lines) h =
    let fits : ltb (length line) max_line ≡ true = ground (arith, h.0) in
    rw fits (ap (◌∷◌ line) (scan-IsShort lines h.1))

module _ (uuid : UuidText) (text : LineText) where
  -- The events of lines.
  unfoldable pub read_lines : ℕ → List (List ℕ) → List (Event (List ℕ))
  read_lines id [] = []
  read_lines id (line ∷ lines) = elim (text.unmarshal line) [
    | none ↦ read_lines id lines
    | some ej ↦ event_of uuid text id ej ∷ read_lines id lines
  ]

  unfoldable pub requests : List (Event (List ℕ)) → ℕ → Bool
  requests [] k = false
  requests (e ∷ es) k = k == e.request_id || requests es k

  -- What a file adds to a store.
  record Adds (id : ℕ) (es : List (Event (List ℕ))) (s s' : EventStore (List ℕ)) : Type 0 where
    events : (e : ℕ) → s'.events e ≡ s.events e ++ (if e == id then es else [])
    seqs : (e : ℕ) → s'.seqs e ≡ top (s.seqs e) (if e == id then es else [])
    seen : (k : ℕ) → contains k s'.seen ≡ (contains k s.seen || requests es k)

  load_lines-Adds :
      (id : ℕ) (lines : List (List ℕ)) (s : EventStore (List ℕ))
      → Adds id (read_lines id lines) s (load_lines uuid text id lines s)
  unfolding load_lines read_lines top requests contains
  load_lines-Adds id [] s = record {
    events = λ e. rw (if_same (e == id) none_new) (sym (append-nil (s.events e)));
    seqs = λ e. rw (if_same (e == id) none_new) refl;
    seen = λ k. sym (or_false (contains k s.seen));
  }
  load_lines-Adds id (line ∷ lines) s = elim (Option-cases (text.unmarshal line)) [
    | inl bad ↦ rw (bad, load_lines, read_lines) (load_lines-Adds id lines s)
    | inr (ej, good) ↦
        let ev = event_of uuid text id ej in
        let s1 : EventStore (List ℕ) = record {
          events = update s.events id (s.events id ++ (ev ∷ []));
          seqs = if ltb (s.seqs id) ev.server_seq then update s.seqs id ev.server_seq else s.seqs;
          seen = ev.request_id ∷ s.seen;
        } in
        let h = load_lines-Adds id lines s1 in
        rw (good, load_lines, read_lines)
          (record {
            events = λ e. h.events e ∙ more_events s id ev (read_lines id lines) e;
            seqs = λ e. h.seqs e ∙ more_seqs s id ev (read_lines id lines) e;
            seen = λ k.
                h.seen k
                ∙ or_swap (k == ev.request_id) (contains k s.seen)
                    (requests (read_lines id lines) k);
          })
  ]

  -- The files that the store makes, one for each entry.
  abbrev pub file : ℕ × List (List ℕ) → DirEntry
  file (id, lines) = record {
    name = file_name uuid text id;
    is_dir = false;
    opens = true;
    lines = lines;
  }

  unfoldable pub read_table : ℕ → List (ℕ × List (List ℕ)) → List (Event (List ℕ))
  read_table e [] = []
  read_table e ((id, lines) ∷ table) =
      if e == id then read_lines id lines ++ read_table e table else read_table e table

  unfoldable pub requests_table : List (ℕ × List (List ℕ)) → ℕ → Bool
  requests_table [] k = false
  requests_table ((id, lines) ∷ table) k =
      requests (read_lines id lines) k || requests_table table k

  -- Files of entries, with lines that the scanner yields.
  abbrev pub Ids : List (ℕ × List (List ℕ)) → Type 0
  Ids = All (λ (row : ℕ × List (List ℕ)). (row.0 < 2 ^ 128) × All IsShort row.1)

  entry_of-file :
      (id : ℕ) (lines : List (List ℕ))
      → id < 2 ^ 128
      → entry_of uuid text (file (id, lines)) ≡ some id
  unfolding entry_of file_name
  entry_of-file id lines small =
      rw (trim_suffix-append (uuid.to_string id)) (uuid.parse-to_string id small)

  -- What a directory gives.
  pub load_table :
      (table : List (ℕ × List (List ℕ))) (s : EventStore (List ℕ))
      → Ids table
      → (s' : EventStore (List ℕ)) × (load_all uuid text (map file table) s ≡ ok s')
        × ((e : ℕ) → s'.events e ≡ s.events e ++ read_table e table)
        × ((e : ℕ) → s'.seqs e ≡ top (s.seqs e) (read_table e table))
        × ((k : ℕ) → contains k s'.seen ≡ (contains k s.seen || requests_table table k))
  unfolding load_all read_table requests_table top
  load_table [] s ids = (
    s,
    refl,
    (λ e. sym (append-nil (s.events e))),
    (λ e. refl),
    λ k. sym (or_false (contains k s.seen)),
  )
  load_table ((id, lines) ∷ table) s ids =
      let s1 = load_lines uuid text id lines s in
      let h = load_lines-Adds id lines s in
      let (s', loaded, events, seqs, seen) = load_table table s1 ids.1 in
      (
        s',
        rw (entry_of-file id lines ids.0.0, scan-IsShort lines ids.0.1, load_all) loaded,
        (λ e.
            events e
            ∙ (rw (h.events e)
                (pick_append (e == id) (s.events e) (read_lines id lines) (read_table e table)))),
        (λ e.
            seqs e
            ∙ (rw (h.seqs e)
                (pick_top (e == id) (s.seqs e) (read_lines id lines) (read_table e table)))),
        λ k.
            seen k
            ∙ rw (h.seen k) (
                or_assoc (contains k s.seen) (requests (read_lines id lines) k)
                  (requests_table table k)),
      )
