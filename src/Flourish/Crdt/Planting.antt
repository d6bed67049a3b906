-- ===== src/Flourish/Crdt/Planting.antt =====
-- `applyInsert` below a node that the array holds: from the node after which to insert, the search
-- reaches the place that the forest gives the new node.
use tanzlaurel.Base.{
  ℕ, suc, ◌+◌, ◌≤◌, ◌<◌, ◌≡◌, refl, sym, ap, ◌∙◌, List, ◌∷◌, ◌++◌, true, false, Option, some, inl,
  inr, ◌⊎◌, dec_lt, length, get_elem?, arith, Bool-cases, ok,
}
use mathlib.Core.Path.{subst}
use native.Mathlib.Nat.{le_refl}
use tanzlaurel.Flourish.Uuid.{UuidText}
use tanzlaurel.Flourish.Crdt.Types.{NodeId, node_id_eq, node_id_eq_iff, Node, Operation, Rga}
use tanzlaurel.Flourish.Crdt.Rga.{insert_loop, node_of}
use tanzlaurel.Flourish.Crdt.Positions.{IsIndex, IsCausal, rank, rank-some}
use tanzlaurel.Flourish.Crdt.Forest.{Forest, leaf, tree, flatten, size, size-flatten, IsLaid, plant}
use tanzlaurel.Flourish.Crdt.Insertion.{
  Finds, Ends, insert_at, insert_at-append_left, insert_at-append_right, search_siblings, behind,
}

module _ (uuid : UuidText) (r : Rga) (ix : IsIndex r.nodes r.index)
    (causal : IsCausal r.nodes r.index) where
  -- A node that stands outside a laid forest is not in it: planting below it changes nothing.
  plant_absent :
      (a : NodeId) (k : ℕ) (x : Node) (o : ℕ) (p : Option NodeId) (f : Forest)
      → r.index a ≡ some k
      → IsLaid r.nodes o p f
      → (k < o) ⊎ (o + size f ≤ k)
      → plant uuid a x f ≡ f
  unfolding plant size
  plant_absent a k x o p leaf h laid away = refl
  plant_absent a k x o p (tree n c s) h laid away =
      let ne : node_id_eq a n.id ≡ false = elim (Bool-cases (node_id_eq a n.id)) [
        | inr q ↦ q
        | inl q ↦
            let same : some o ≡ some k =
              sym (ix.finds o n laid.0) ∙ ap r.index (sym ((node_id_eq_iff a n.id).0 q)) ∙ h in
            absurd (ground arith)
      ] in
      rw (
        ne,
        plant_absent a k x (suc o) (some n.id) c h laid.2
            (elim away [ inl lt ↦ inl (omega arith) | inr le ↦ inr (omega arith) ]),
        plant_absent a k x (suc (o + size c)) p s h laid.3
            (elim away [ inl lt ↦ inl (omega arith) | inr le ↦ inr (omega arith) ]),
      )

  -- The search from behind the node with the id `a`, which stands at `k` in the forest.
  pub search_under :
      (op : Operation) (a : NodeId) (k : ℕ) (f : Forest) (fuel o : ℕ) (p : Option NodeId)
      → op.after ≡ some a
      → r.index a ≡ some k
      → IsLaid r.nodes o p f
      → rank r.index p ≤ o
      → o + size f ≤ length r.nodes
      → Ends r.index r.nodes (o + size f) (rank r.index p)
      → o ≤ k
      → k < o + size f
      → size f < fuel
      → Finds (insert_loop uuid fuel r op (suc k)) o (node_of op) f (plant uuid a (node_of op) f)
  unfolding plant insert_at size
  search_under op a k leaf fuel o p ea h laid le fits ends lo hi more = absurd (omega arith)
  search_under op a k (tree n c s) fuel o p ea h laid le fits ends lo hi more = elim (dec_lt o k) [
    | no here ↦
        let same : k ≡ o = omega arith in
        let (j, run, jle, eq) =
          search_siblings uuid r ix causal op c fuel (suc o) (laid_c same)
            (rw (under same, root) (le_refl _)) (omega arith)
            (λ m at. rw (under same) (after_c m at)) (omega arith) in
        (
          suc j,
          ap (λ (i : ℕ). insert_loop uuid fuel r op (suc i)) same ∙ run ∙ ap ok (omega arith),
          omega arith,
          rw (found same) (
              ap (◌∷◌ n) (
                insert_at-append_left (flatten c) (flatten s) j x (omega (arith, size-flatten c))
                ∙ ap (λ (l : List Node). l ++ flatten s) eq)),
        )
    | yes below ↦ elim (dec_lt k next) [
      | yes inside ↦
          let (j, run, jle, eq) =
            search_under op a k c fuel (suc o) (some n.id) ea h laid.2 (rw root (le_refl _))
              (omega arith) after_c below (omega arith) (omega arith) in
          (
            suc j,
            run ∙ ap ok (omega arith),
            omega arith,
            rw (missed below, plant_absent a k x next p s h laid.3 (inl inside))
                (ap (◌∷◌ n) (
                  insert_at-append_left (flatten c) (flatten s) j x (omega (arith, size-flatten c))
                  ∙ ap (λ (l : List Node). l ++ flatten s) eq)),
          )
      | no outside ↦
          let (j, run, jle, eq) =
            search_under op a k s fuel next p ea h laid.3 (omega arith) (omega arith) after_s
              (omega arith) (omega arith) (omega arith) in
          (
            suc (size c + j),
            run ∙ ap ok (omega arith),
            omega arith,
            rw (missed below, plant_absent a k x (suc o) (some n.id) c h laid.2 (inr (omega arith)))
                (ap (◌∷◌ n)
                  (rw (← size-flatten c, insert_at-append_right) (ap (◌++◌ (flatten c)) eq))),
          )
    ]
  ]
    where
      x : Node
      x = node_of op

      next : ℕ
      next = suc (o + size c)

      root : rank r.index (some n.id) ≡ suc o
      root = rank-some r.index n.id o (ix.finds o n laid.0)

      after_s : Ends r.index r.nodes (next + size s) (rank r.index p)
      after_s m at = ends m (subst (λ (e : ℕ). get_elem? r.nodes e ≡ some m) (omega arith) at)

      after_c : Ends r.index r.nodes (suc o + size c) (rank r.index (some n.id))
      after_c m at = rw root (
          behind uuid r ix causal o next p s laid.3 le after_s m
            (subst (λ (e : ℕ). get_elem? r.nodes e ≡ some m) (omega arith) at))

      is_root : k ≡ o → a ≡ n.id
      is_root same =
          let (m, at, id) = ix.found a k h in
          let here : get_elem? r.nodes k ≡ some n = rw same laid.0 in ground arith

      under : k ≡ o → op.after ≡ some n.id
      under same = ea ∙ ap some (is_root same)

      laid_c : k ≡ o → IsLaid r.nodes (suc o) op.after c
      laid_c same = subst (λ q. IsLaid r.nodes (suc o) q c) (sym (under same)) laid.2

      found : k ≡ o → node_id_eq a n.id ≡ true
      found same = (node_id_eq_iff a n.id).1 (is_root same)

      missed : o < k → node_id_eq a n.id ≡ false
      missed lt = elim (Bool-cases (node_id_eq a n.id)) [
        | inr q ↦ q
        | inl q ↦
            let same : some o ≡ some k =
              sym (ix.finds o n laid.0) ∙ ap r.index (sym ((node_id_eq_iff a n.id).0 q)) ∙ h in
            absurd (ground arith)
      ]
