-- ===== src/Flourish/Crdt/Restoring.antt =====
-- What `ImportRGA` reads back from what `Export` wrote.
use tanzlaurel.Base.{
  ℕ, ◌<◌, ◌^◌, ◌≡◌, refl, sym, ap, ◌∙◌, List, [], ◌∷◌, map, Option, none, some, inl, inr, All,
  Option-cases,
}
use native.Mathlib.Nat.{zero-add}
use tanzlaurel.Base.Errors.{ok}
use tanzlaurel.Flourish.Uuid.{UuidText}
use tanzlaurel.Flourish.Crdt.Types.{NodeId, Node, Rga}
use tanzlaurel.Flourish.Crdt.Rga.{rune, reindex}
use tanzlaurel.Flourish.Crdt.Positions.{IsIndex}
use tanzlaurel.Flourish.Crdt.Reindex.{reindex_cases}
use tanzlaurel.Flourish.Crdt.Apply.{IsWell}
use tanzlaurel.Flourish.Crdt.Snapshot.{
  export_node, import_node, decode_rune, export, import_rga, parse_seen,
}

abbrev pub IsUuid : ℕ → Type 0
IsUuid u = u < 2 ^ 128

-- An array whose values are code points and whose identifiers are 16 bytes.
pub record IsStorable (r : Rga) : Type 0 where
  pub replica : IsUuid r.clock.replica_id
  pub seen : All IsUuid r.seen
  pub values : All (λ n. rune n.value ≡ n.value) r.nodes

import-export_nodes :
    (ns : List Node)
    → All (λ n. rune n.value ≡ n.value) ns
    → map import_node (map export_node ns) ≡ ns
unfolding import_node export_node decode_rune
import-export_nodes [] h = refl
import-export_nodes (n ∷ ns) (h, hs) = rw (h, import-export_nodes ns hs) refl

-- The index that is built from nothing is the index of a well-formed array.
reindex-all :
    (ns : List Node) (index : NodeId → Option ℕ)
    → IsIndex ns index
    → (a : NodeId) → reindex (λ id. none) 0 ns a ≡ index a
reindex-all ns index ix a = elim (reindex_cases ns (λ id. none) 0 a) [
  | inl (e, absent) ↦ elim (Option-cases (index a)) [
    | inl none' ↦ e ∙ sym none'
    | inr (i, some') ↦ let (n, at, id) = ix.found a i some' in absurd (absent i n at id)
  ]
  | inr (j, n, at, id, e) ↦ e ∙ ap some (zero-add j) ∙ sym (ix.finds j n at) ∙ ap index id
]

module _ (uuid : UuidText) where
  parse-to_string-All :
      (ids : List ℕ) → All IsUuid ids → parse_seen uuid (map uuid.to_string ids) ≡ ok ids
  unfolding parse_seen
  parse-to_string-All [] h = refl
  parse-to_string-All (u ∷ us) (h, hs) =
      rw (uuid.parse-to_string u h, parse-to_string-All us hs) refl

  -- A well-formed array whose values are code points and whose identifiers are 16 bytes is read back
  -- from its own snapshot without any change: nodes, index, clock, duplicates and buffer.
  pub import-export : (r : Rga) → IsWell r → IsStorable r → import_rga uuid (export uuid r) ≡ ok r
  unfolding import_rga export
  import-export r well storable =
      let index : reindex (λ id. none) 0 r.nodes ≡ r.index =
        λ i a. reindex-all r.nodes r.index well.represents.indexed a i in
      rw
        (
          uuid.parse-to_string r.clock.replica_id storable.replica,
          parse-to_string-All r.seen storable.seen,
          import-export_nodes r.nodes storable.values,
          index,
        )
        refl
