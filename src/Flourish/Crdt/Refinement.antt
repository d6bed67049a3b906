-- ===== src/Flourish/Crdt/Refinement.antt =====
-- `applyInsert` and `applyDelete` on an array that represents a forest.
use tanzlaurel.Base.{
  ℕ, suc, ◌+◌, ◌≤◌, ◌<◌, ◌≡◌, refl, sym, ap, ◌∙◌, ◌≢◌, List, true, Option, none, some, inl, inr,
  dec_lt, length, get_elem?, drop, arith, Option-cases, ok,
}
use native.Mathlib.Nat.{zero-add}
use mathlib.Core.Path.{subst}
use mathlib.Core.Option.{some-injective}
use tanzlaurel.Flourish.Uuid.{UuidText}
use tanzlaurel.Flourish.Crdt.Types.{NodeId, Node, Operation, Rga}
use tanzlaurel.Flourish.Crdt.Rga.{insert_loop, start_idx, node_of, apply_insert, reindex, has_after}
use tanzlaurel.Flourish.Crdt.Positions.{IsIndex, IsCausal, rank-none, lt_length}
use tanzlaurel.Flourish.Crdt.Forest.{
  Forest, leaf, tree, flatten, size, size-flatten, IsRooted, IsLaid, flatten-IsLaid, place,
  place-IsRooted,
}
use tanzlaurel.Flourish.Crdt.Insertion.{
  Finds, Ends, insert_at, slices_insert-insert_at, search_siblings,
}
use tanzlaurel.Flourish.Crdt.Planting.{search_under}
use tanzlaurel.Flourish.Crdt.Reindex.{insert_at-IsIndex, insert_at-stays_absent}

-- The node list is the reading of the forest, and the index is right.
pub record Represents (r : Rga) (f : Forest) : Type 0 where
  pub reads : r.nodes ≡ flatten f
  pub rooted : IsRooted none f
  pub indexed : IsIndex r.nodes r.index

-- A laid forest under a parent that stands further left has every parent left of its children.
laid_parent :
    (nodes : List Node) (index : NodeId → Option ℕ) (ix : IsIndex nodes index) (o : ℕ)
    (p : Option NodeId) (f : Forest)
    → IsLaid nodes o p f
    → ((a : NodeId) → p ≡ some a → (j : ℕ) × (index a ≡ some j) × (j < o))
    → (i : ℕ) (n : Node) (a : NodeId) → o ≤ i
    → i < o + size f
    → get_elem? nodes i ≡ some n
    → n.after ≡ some a
    → (j : ℕ) × (index a ≡ some j) × (j < i)
unfolding size
laid_parent nodes index ix o p leaf h up i n a oi ie at e = absurd (omega arith)
laid_parent nodes index ix o p (tree m c s) h up i n a oi ie at e = elim (dec_lt o i) [
  | no first ↦
      let same : i ≡ o = omega arith in
      let (j, there, lt) = up a (ground (arith, h.0, h.1)) in (j, there, omega arith)
  | yes later ↦ elim (dec_lt i (suc (o + size c))) [
    | yes inside ↦
        laid_parent nodes index ix (suc o) (some m.id) c h.2
          (λ b q. (o, ap index (sym (some-injective m.id b q)) ∙ ix.finds o m h.0, omega arith)) i n
          a (omega arith) (omega arith) at e
    | no outside ↦
        laid_parent nodes index ix (suc (o + size c)) p s h.3
          (λ b q. let (j, there, lt) = up b q in (j, there, omega arith)) i n a (omega arith)
          (omega arith) at e
  ]
]

module _ {r : Rga} {f : Forest} (rep : Represents r f) where
  pub Represents-IsLaid : IsLaid r.nodes 0 none f
  Represents-IsLaid = subst (λ ns. IsLaid ns 0 none f) (sym rep.reads) (flatten-IsLaid f rep.rooted)

  pub Represents-size : length r.nodes ≡ size f
  Represents-size = ap length rep.reads ∙ size-flatten f

  pub Represents-IsCausal : IsCausal r.nodes r.index
  Represents-IsCausal i n a at e =
      laid_parent r.nodes r.index rep.indexed 0 none f Represents-IsLaid (λ b q. cc) i n a
        (omega arith) (omega (arith, lt_length r.nodes i n at, Represents-size)) at e

module _ (uuid : UuidText) (r : Rga) (f : Forest) (rep : Represents r f) where
  -- The search finds the place of the forest.
  search-Finds :
      (op : Operation)
      → has_after r op.after ≡ true
      → Finds
          (insert_loop uuid (suc (length r.nodes)) r op (start_idx r op.after))
          0
          (node_of op)
          f
          (place uuid (node_of op) op.after f)
  unfolding start_idx has_after place
  search-Finds op ready = go op.after refl ready
    where
      ix : IsIndex r.nodes r.index
      ix = rep.indexed

      fits : size f ≡ length r.nodes
      fits = sym (Represents-size rep)

      ends : (up : ℕ) → Ends r.index r.nodes (0 + size f) up
      ends up n h = absurd (omega (arith, lt_length r.nodes (0 + size f) n h, fits))

      go :
          (o : Option NodeId)
          → op.after ≡ o
          → has_after r o ≡ true
          → Finds
              (insert_loop uuid (suc (length r.nodes)) r op (start_idx r o))
              0
              (node_of op)
              f
              (place uuid (node_of op) o f)
      go none e h =
          search_siblings uuid r ix (Represents-IsCausal rep) op f (suc (length r.nodes)) 0
            (rw e (Represents-IsLaid rep)) (rw (e, rank-none) (omega arith)) (omega (arith, fits))
            (ends _) (omega (arith, fits))
      go (some a) e h = elim (Option-cases (r.index a)) [
        | inl q ↦ absurd (ground arith)
        | inr (k, q) ↦
            let (n, at, id) = ix.found a k q in
            rw (q, start_idx)
              (search_under uuid r ix (Represents-IsCausal rep) op a k f (suc (length r.nodes)) 0
                none e q (Represents-IsLaid rep) (rw rank-none (omega arith)) (omega (arith, fits))
                (ends _) (omega (arith, fits)) (omega (arith, lt_length r.nodes k n at, fits))
                (omega (arith, fits)))
      ]

  -- The array after an insertion.
  pub inserted : Operation → ℕ → Rga
  inserted op i = record r {
    nodes = insert_at r.nodes i (node_of op);
    index = reindex r.index i (drop i (insert_at r.nodes i (node_of op)));
  }

  -- On an array that represents a forest, with the parent of the new node there and an identifier
  -- that is not in use, the insertion returns, and the list that it leaves is the reading of the
  -- forest with the new node in its place. Buffer, duplicates and clock stay, and no other id is
  -- added.
  pub apply_insert-place :
      (op : Operation)
      → has_after r op.after ≡ true
      → r.index op.node_id ≡ none
      → (r' : Rga) × (apply_insert uuid r op ≡ ok r')
        × Represents r' (place uuid (node_of op) op.after f)
        × (r'.pending ≡ r.pending)
        × (r'.seen ≡ r.seen)
        × (r'.clock ≡ r.clock)
        × ((a : NodeId) → a ≢ op.node_id → r.index a ≡ none → r'.index a ≡ none)
  unfolding apply_insert node_of inserted
  apply_insert-place op ready fresh =
      let (i, run, le, eq) = search-Finds op ready in
      let fits : i ≤ length r.nodes = omega (arith, Represents-size rep) in
      (
        inserted op i,
        rw (run, zero-add i, slices_insert-insert_at r.nodes i (node_of op) fits),
        record {
          reads = ap (λ (l : List Node). insert_at l i (node_of op)) rep.reads ∙ eq;
          rooted = place-IsRooted uuid (node_of op) f rep.rooted;
          indexed = insert_at-IsIndex r.nodes r.index rep.indexed i (node_of op) fits fresh;
        },
        refl,
        refl,
        refl,
        insert_at-stays_absent r.nodes r.index rep.indexed i (node_of op) fits fresh,
      )
