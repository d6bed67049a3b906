-- ===== src/Flourish/Crdt/Positions.antt =====
-- Positions in the node list: what it means that the index is right, that every parent stands
-- before its children, and what `is_descendant_of` and the loop of `skipSubtree` then compute.
use tanzlaurel.Base.{
  ℕ, zero, suc, ◌+◌, ◌≤◌, ◌<◌, ◌≡◌, refl, ap, List, [], ◌∷◌, true, false, Option, none, some, inl,
  inr, lt→ltb, ge→ltb, dec_lt, length, get_elem?, ok, arith, Bool-cases, Option-cases,
}
use tanzlaurel.Flourish.Crdt.Types.{NodeId, node_id_eq, node_id_eq_iff, Node, Rga}
use tanzlaurel.Flourish.Crdt.Rga.{is_descendant_of, skip_loop}

-- The index holds the position of every node, and nothing else. So no two nodes share an id.
pub record IsIndex (nodes : List Node) (index : NodeId → Option ℕ) : Type 0 where
  pub finds : (i : ℕ) (n : Node) → get_elem? nodes i ≡ some n → index n.id ≡ some i
  pub found :
      (a : NodeId) (i : ℕ)
      → index a ≡ some i
      → (n : Node) × (get_elem? nodes i ≡ some n) × (n.id ≡ a)

-- Every node comes after its parent.
abbrev pub IsCausal : List Node → (NodeId → Option ℕ) → Type 0
IsCausal nodes index =
    (i : ℕ) (n : Node) (a : NodeId)
    → get_elem? nodes i ≡ some n
    → n.after ≡ some a
    → (j : ℕ) × (index a ≡ some j) × (j < i)

-- One more than the parent's position, and 0 for a node without parent.
pub rank : (NodeId → Option ℕ) → Option NodeId → ℕ
rank index none = 0
rank index (some a) = elim (index a) [ none ↦ 0 | some j ↦ suc j ]

pub rank-some :
    (index : NodeId → Option ℕ) (a : NodeId) (j : ℕ)
    → index a ≡ some j
    → rank index (some a) ≡ suc j
unfolding rank
rank-some index a j h = rw (h, rank)

pub rank-none : (index : NodeId → Option ℕ) → rank index none ≡ 0
unfolding rank
rank-none index = refl

pub lt_length {ℓ} :
    {A : Type ℓ} (xs : List A) (i : ℕ) (x : A) → get_elem? xs i ≡ some x → i < length xs
lt_length [] i x h = cc
lt_length (y ∷ ys) zero x h = omega arith
lt_length (y ∷ ys) (suc i) x h = omega (arith, lt_length ys i x h)

pub get_elem?-some {ℓ} :
    {A : Type ℓ} (xs : List A) (i : ℕ) → i < length xs → (x : A) × (get_elem? xs i ≡ some x)
get_elem?-some [] i h = elim h [ ]
get_elem?-some (y ∷ ys) zero h = (y, refl)
get_elem?-some (y ∷ ys) (suc i) h = get_elem?-some ys i (omega arith)

module _ (r : Rga) (ix : IsIndex r.nodes r.index) (causal : IsCausal r.nodes r.index) where
  pub rank-le : (i : ℕ) (n : Node) → get_elem? r.nodes i ≡ some n → rank r.index n.after ≤ i
  rank-le i n h = elim (Option-cases n.after) [
    | inl e ↦ rw (e, rank-none r.index) (omega arith)
    | inr (a, e) ↦ let (j, at, lt) = causal i n a h e in rw (e, rank-some r.index a j at) lt
  ]

  module _ (k : ℕ) (parent_id : NodeId) (parent : r.index parent_id ≡ some k) where
    -- A node whose parent stands before position `k` is no descendant of the node at `k`.
    pub not_descendant :
        (fuel i : ℕ) (n : Node)
        → get_elem? r.nodes i ≡ some n
        → i < fuel
        → rank r.index n.after ≤ k
        → is_descendant_of fuel r i parent_id ≡ ok false
    unfolding is_descendant_of
    not_descendant zero i n h lt le = elim lt [ ]
    not_descendant (suc fuel) i n h lt le = elim (Option-cases n.after) [
      | inl e ↦ rw (h, e, is_descendant_of)
      | inr (a, e) ↦
          let (j, at, before) = causal i n a h e in
          let (m, hm, id) = ix.found a j at in
          let le' : suc j ≤ k = rw (e, rank-some r.index a j at) at le in
          let ne : node_id_eq a parent_id ≡ false = elim (Bool-cases (node_id_eq a parent_id)) [
            | inl eq ↦ absurd (ground (arith, node_id_eq_iff a parent_id))
            | inr ne ↦ ne
          ] in
          rw (h, e, ne, at, is_descendant_of)
            (not_descendant fuel j m hm (omega arith) (omega (arith, rank-le j m hm)))
    ]

    -- Where all parents between `k` and `e` stand at `k` or later, all are descendants.
    pub descendant :
        (e : ℕ)
        → ((i : ℕ) (n : Node)
            → k < i
            → i < e
            → get_elem? r.nodes i ≡ some n
            → k < rank r.index n.after)
        → (fuel i : ℕ) (n : Node) → get_elem? r.nodes i ≡ some n
        → i < fuel
        → k < i
        → i < e
        → is_descendant_of fuel r i parent_id ≡ ok true
    unfolding is_descendant_of
    descendant e within zero i n h lt ki ie = elim lt [ ]
    descendant e within (suc fuel) i n h lt ki ie = elim (Option-cases n.after) [
      | inl q ↦
          let none_rank : k < 0 = rw (q, rank-none r.index) at (within i n ki ie h) in
          absurd (omega arith)
      | inr (a, q) ↦
          let (j, at, before) = causal i n a h q in
          let (m, hm, id) = ix.found a j at in
          let le' : k < suc j = rw (q, rank-some r.index a j at) at (within i n ki ie h) in
          elim (Bool-cases (node_id_eq a parent_id)) [
            | inl eq ↦ rw (h, q, eq, is_descendant_of)
            | inr ne ↦
                let further : k < j = ground (
                  arith,
                  node_id_eq_iff a parent_id,
                  node_id_eq_iff m.id parent_id,
                  ix.found parent_id k parent,
                ) in
                rw (h, q, ne, at, is_descendant_of)
                  (descendant e within fuel j m hm (omega arith) further (omega arith))
          ]
    ]

    -- The loop stops behind the last descendant.
    pub skip_loop_lem :
        (e : ℕ)
        → e ≤ length r.nodes
        → ((i : ℕ) (n : Node)
            → k < i
            → i < e
            → get_elem? r.nodes i ≡ some n
            → k < rank r.index n.after)
        → ((n : Node) → get_elem? r.nodes e ≡ some n → rank r.index n.after ≤ k)
        → (fuel i : ℕ) → k < i
        → i ≤ e
        → e < i + fuel
        → skip_loop fuel r i parent_id ≡ ok e
    unfolding skip_loop
    skip_loop_lem e el within ends zero i ki ie f = absurd (omega arith)
    skip_loop_lem e el within ends (suc fuel) i ki ie f = elim (dec_lt i e) [
      | yes lt ↦
          let (n, h) = get_elem?-some r.nodes i (omega arith) in
          rw
            (
              lt→ltb i (length r.nodes) (omega arith),
              descendant e within (suc (length r.nodes)) i n h (omega arith) ki lt,
              skip_loop,
            )
            (skip_loop_lem e el within ends fuel (suc i) (omega arith) (omega arith) (omega arith))
      | no ge ↦
          let same : i ≡ e = omega arith in
          elim (dec_lt i (length r.nodes)) [
            | yes more ↦
                let (n, h) = get_elem?-some r.nodes i more in
                rw
                  (
                    lt→ltb i (length r.nodes) more,
                    not_descendant (suc (length r.nodes)) i n h (omega arith)
                        (ends n (rw same at h)),
                    skip_loop,
                  )
                  (ap ok same)
            | no end ↦ rw (ge→ltb i (length r.nodes) (omega arith), skip_loop) (ap ok same)
          ]
    ]
