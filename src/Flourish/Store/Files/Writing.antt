-- ===== src/Flourish/Store/Files/Writing.antt =====
-- What a write at the end of a file adds to what is read.
use tanzlaurel.Base.{
  ℕ, ◌^◌, ◌<◌, ◌≡◌, ◌≢◌, refl, sym, ap, ◌∙◌, List, [], ◌∷◌, ◌++◌, map, false, ◌||◌, some, ◌==◌,
  ==_iff, if◌then◌else◌, Bool-cases, Option-cases, inl, inr, arith, All,
}
use mathlib.Core.Option.{some-injective}
use mathlib.Core.List.{append-nil, append_assoc}
use tanzlaurel.Flourish.Uuid.{UuidText}
use tanzlaurel.Flourish.Store.Domain.{Event}
use tanzlaurel.Flourish.Socket.Messages.{string_eq}
use tanzlaurel.Flourish.Store.Files.{
  EventJson, LineText, suffix, trim_suffix, append_line, event_of, file_name,
}
use tanzlaurel.Flourish.Store.Files.Names.{string_eq-≡, string_eq_refl, trim_suffix-append}
use tanzlaurel.Flourish.Store.Files.Reading.{
  or_false, or_assoc, or_left, or_turn, end_append, read_lines, requests, file, read_table,
  requests_table, Ids, IsShort,
}

All-snoc {ℓ} :
    {A : Type ℓ} (P : A → Type 0) (xs : List A) (x : A) → All P xs → P x → All P (xs ++ (x ∷ []))
All-snoc P [] x h p = (p, tt)
All-snoc P (y ∷ ys) x h p = (h.0, All-snoc P ys x h.1 p)

module _ (uuid : UuidText) (text : LineText) where
  -- What a write does to the files.
  pub table_append : ℕ → List ℕ → List (ℕ × List (List ℕ)) → List (ℕ × List (List ℕ))
  table_append id line [] = (id, line ∷ []) ∷ []
  table_append id line ((j, lines) ∷ table) =
      let rest = table_append id line table in
      if j == id then (j, lines ++ (line ∷ [])) ∷ table else (j, lines) ∷ rest

  -- The name of a file uuid text tells the entry.
  name_eq :
      (j id : ℕ)
      → j < 2 ^ 128
      → id < 2 ^ 128
      → string_eq (file_name uuid text j) (file_name uuid text id) ≡ (j == id)
  unfolding file_name
  name_eq j id small small' = elim (Bool-cases (j == id)) [
    | inl e ↦
        let same = (==_iff j id).0 e in rw (e, same) (string_eq_refl (uuid.to_string id ++ suffix))
    | inr ne ↦
        elim (Bool-cases (string_eq (uuid.to_string j ++ suffix) (uuid.to_string id ++ suffix))) [
          | inr apart ↦ apart ∙ sym ne
          | inl e ↦
              let names =
                string_eq-≡ (uuid.to_string j ++ suffix) (uuid.to_string id ++ suffix) e in
              let texts : uuid.to_string j ≡ uuid.to_string id =
                some-injective (uuid.to_string j) (uuid.to_string id) (
                  sym (trim_suffix-append (uuid.to_string j))
                  ∙ ap trim_suffix names
                  ∙ trim_suffix-append (uuid.to_string id)) in
              let same : j ≡ id = some-injective j id (
                sym (uuid.parse-to_string j small)
                ∙ ap (λ (t : List ℕ). uuid.parse t) texts
                ∙ uuid.parse-to_string id small') in
              absurd (cc ((==_iff j id).1 same))
        ]
  ]

  pub append_line-table :
      (id : ℕ) (line : List ℕ) (table : List (ℕ × List (List ℕ)))
      → id < 2 ^ 128
      → Ids uuid text table
      → append_line (file_name uuid text id) line (map (file uuid text) table)
        ≡ map (file uuid text) (table_append id line table)
  unfolding append_line table_append
  append_line-table id line [] small ids = refl
  append_line-table id line ((j, lines) ∷ table) small ids = elim (Bool-cases (j == id)) [
    | inl e ↦ rw (name_eq j id ids.0.0 small, e) refl
    | inr ne ↦
        rw (name_eq j id ids.0.0 small, ne)
          (ap (◌∷◌ (file uuid text (j, lines))) (append_line-table id line table small ids.1))
  ]

  read_lines-snoc :
      (id : ℕ) (lines : List (List ℕ)) (line : List ℕ) (ej : EventJson)
      → text.unmarshal line ≡ some ej
      → read_lines uuid text id (lines ++ (line ∷ []))
        ≡ read_lines uuid text id lines ++ (event_of uuid text id ej ∷ [])
  unfolding read_lines
  read_lines-snoc id [] line ej good = rw (good, read_lines) refl
  read_lines-snoc id (l ∷ lines) line ej good = elim (Option-cases (text.unmarshal l)) [
    | inl e ↦ rw (e, read_lines) (read_lines-snoc id lines line ej good)
    | inr (x, e) ↦
        rw (e, read_lines)
          (ap (◌∷◌ (event_of uuid text id x)) (read_lines-snoc id lines line ej good))
  ]

  requests-append :
      (xs ys : List (Event (List ℕ))) (k : ℕ)
      → requests uuid text (xs ++ ys) k ≡ (requests uuid text xs k || requests uuid text ys k)
  unfolding requests
  requests-append [] ys k = refl
  requests-append (x ∷ xs) ys k =
      rw (requests-append xs ys k)
        (sym (or_assoc (k == x.request_id) (requests uuid text xs k) (requests uuid text ys k)))

  -- No entry has two files.
  abbrev pub Once : List (ℕ × List (List ℕ)) → Type 0
  Once [] = Unit {0}
  Once ((id, lines) ∷ table) = All (λ (row : ℕ × List (List ℕ)). row.0 ≢ id) table × Once table

  read_table-none :
      (id : ℕ) (table : List (ℕ × List (List ℕ)))
      → All (λ (row : ℕ × List (List ℕ)). row.0 ≢ id) table
      → read_table uuid text id table ≡ []
  unfolding read_table
  read_table-none id [] h = refl
  read_table-none id ((j, lines) ∷ table) h =
      let other : (id == j) ≡ false = ground (arith, h.0) in rw other (read_table-none id table h.1)

  module _ (id : ℕ) (line : List ℕ) (ej : EventJson) (good : text.unmarshal line ≡ some ej) where
    abbrev added : Event (List ℕ)
    added = event_of uuid text id ej

    table_append-others :
        (j : ℕ) (table : List (ℕ × List (List ℕ)))
        → id ≢ j
        → All (λ (row : ℕ × List (List ℕ)). row.0 ≢ j) table
        → All (λ (row : ℕ × List (List ℕ)). row.0 ≢ j) (table_append id line table)
    unfolding table_append
    table_append-others j [] ne h = (ne, tt)
    table_append-others j ((i, lines) ∷ table) ne h = elim (Bool-cases (i == id)) [
      | inl e ↦ rw e h
      | inr other ↦ rw other (h.0, table_append-others j table ne h.1)
    ]

    pub table_append-Once :
        (table : List (ℕ × List (List ℕ))) → Once table → Once (table_append id line table)
    unfolding table_append
    table_append-Once [] h = (tt, tt)
    table_append-Once ((i, lines) ∷ table) h = elim (Bool-cases (i == id)) [
      | inl e ↦ rw e h
      | inr other ↦
          rw other (table_append-others i table (ground arith) h.0, table_append-Once table h.1)
    ]

    pub table_append-Ids :
        (table : List (ℕ × List (List ℕ)))
        → id < 2 ^ 128
        → IsShort line
        → Ids uuid text table
        → Ids uuid text (table_append id line table)
    unfolding table_append
    table_append-Ids [] small short h = ((small, (short, tt)), tt)
    table_append-Ids ((i, lines) ∷ table) small short h = elim (Bool-cases (i == id)) [
      | inl e ↦ rw e ((h.0.0, All-snoc IsShort lines line h.0.1 short), h.1)
      | inr other ↦ rw other (h.0, table_append-Ids table small short h.1)
    ]

    pub read_table-append :
        (table : List (ℕ × List (List ℕ)))
        → Once table
        → (e : ℕ)
        → read_table uuid text e (table_append id line table)
          ≡ read_table uuid text e table ++ (if e == id then added ∷ [] else [])
    unfolding read_table table_append read_lines
    read_table-append [] h e = elim (Bool-cases (e == id)) [
      | inl here ↦
          rw here (ap (λ (l : List (Event (List ℕ))). l ++ []) (read_lines-snoc id [] line ej good))
      | inr other ↦ rw other refl
    ]
    read_table-append ((j, lines) ∷ table) h e = elim (Bool-cases (j == id)) [
      | inl same ↦
          let named : j ≡ id = (==_iff j id).0 same in
          elim (Bool-cases (e == id)) [
            | inl here ↦
                let at_id : e ≡ id = (==_iff e id).0 here in
                let nothing : read_table uuid text e table ≡ [] =
                  rw at_id (read_table-none id table (rw named at h.0)) in
                rw (same, named, here)
                  (end_append (read_lines uuid text id lines)
                    (read_lines uuid text id (lines ++ (line ∷ []))) (read_table uuid text e table)
                    added (read_lines-snoc id lines line ej good) nothing)
            | inr other ↦ rw (same, named, other) (sym (append-nil (read_table uuid text e table)))
          ]
      | inr apart ↦ elim (Bool-cases (e == j)) [
        | inl mine ↦
            rw (apart, mine)
              (ap (λ (l : List (Event (List ℕ))). read_lines uuid text j lines ++ l)
                  (read_table-append table h.1 e)
                ∙ sym (
                    append_assoc (read_lines uuid text j lines) (read_table uuid text e table)
                      (if e == id then added ∷ [] else [])))
        | inr others ↦ rw (apart, others) (read_table-append table h.1 e)
      ]
    ]

    pub requests_table-append :
        (table : List (ℕ × List (List ℕ))) (k : ℕ)
        → requests_table uuid text (table_append id line table) k
          ≡ (k == added.request_id || requests_table uuid text table k)
    unfolding requests_table table_append requests read_lines
    requests_table-append [] k =
        rw (read_lines-snoc id [] line ej good) (or_false (k == added.request_id || false))
    requests_table-append ((j, lines) ∷ table) k = elim (Bool-cases (j == id)) [
      | inl same ↦
          let named : j ≡ id = (==_iff j id).0 same in
          rw
            (
              same,
              named,
              read_lines-snoc id lines line ej good,
              requests-append (read_lines uuid text id lines) (added ∷ []) k,
            )
            (or_turn (requests uuid text (read_lines uuid text id lines) k) (k == added.request_id)
              (requests_table uuid text table k))
      | inr apart ↦
          rw (apart, requests_table-append table k)
            (or_left (requests uuid text (read_lines uuid text j lines) k) (k == added.request_id)
              (requests_table uuid text table k))
    ]
