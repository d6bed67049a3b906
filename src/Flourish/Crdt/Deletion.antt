-- ===== src/Flourish/Crdt/Deletion.antt =====
-- `applyDelete` on an array that represents a forest: the node becomes a tombstone.
use tanzlaurel.Base.{
  ℕ, zero, suc, ◌≡◌, refl, sym, ap, ◌∙◌, List, [], ◌∷◌, map, true, Option, none, some, inl, inr,
  if◌then◌else◌, get_elem?, set, arith, Bool-cases, Option-cases, ok, ◌≢◌,
}
use mathlib.Core.List.{map-append}
use mathlib.Core.Path.{ap₂}
use mathlib.Core.Option.{some-injective}
use tanzlaurel.Flourish.Crdt.Types.{NodeId, node_id_eq, node_id_eq_iff, Node, Operation, Rga}
use tanzlaurel.Flourish.Crdt.Rga.{apply_delete, has_node}
use tanzlaurel.Flourish.Crdt.Positions.{IsIndex}
use tanzlaurel.Flourish.Crdt.Forest.{Forest, leaf, tree, flatten, IsRooted}
use tanzlaurel.Flourish.Crdt.Refinement.{Represents}

-- The node with the id `a` is marked as deleted.
unfoldable pub bury_node : NodeId → Node → Node
bury_node a n = if node_id_eq a n.id then record n { deleted = true } else n

-- What a deletion means.
unfoldable pub bury : NodeId → Forest → Forest
bury a leaf = leaf
bury a (tree n children siblings) = tree (bury_node a n) (bury a children) (bury a siblings)

pub bury_node-id : (a : NodeId) (n : Node) → (bury_node a n).id ≡ n.id
unfolding bury_node
bury_node-id a n = ground arith

pub bury_node-after : (a : NodeId) (n : Node) → (bury_node a n).after ≡ n.after
unfolding bury_node
bury_node-after a n = ground arith

pub bury_node-other : (a : NodeId) (n : Node) → a ≢ n.id → bury_node a n ≡ n
unfolding bury_node
bury_node-other a n ne = ground (arith, node_id_eq_iff a n.id)

flatten-bury : (a : NodeId) (f : Forest) → flatten (bury a f) ≡ map (bury_node a) (flatten f)
unfolding bury
flatten-bury a leaf = refl
flatten-bury a (tree n c s) = ap (◌∷◌ (bury_node a n)) (
    rw (flatten-bury a c, flatten-bury a s)
      (sym (map-append (bury_node a) (flatten c) (flatten s))))

bury-IsRooted : (a : NodeId) (p : Option NodeId) (f : Forest) → IsRooted p f → IsRooted p (bury a f)
unfolding bury
bury-IsRooted a p leaf h = tt
bury-IsRooted a p (tree n c s) h = (
  bury_node-after a n ∙ h.0,
  rw bury_node-id (bury-IsRooted a (some n.id) c h.1),
  bury-IsRooted a p s h.2,
)

get_elem?-map :
    (g : Node → Node) (ns : List Node) (i : ℕ) {m : Node}
    → get_elem? (map g ns) i ≡ some m
    → (n : Node) × (get_elem? ns i ≡ some n) × (m ≡ g n)
get_elem?-map g [] i h = cc
get_elem?-map g (n ∷ ns) zero h = (n, refl, sym (some-injective _ _ h))
get_elem?-map g (n ∷ ns) (suc i) h = get_elem?-map g ns i h

pub map-get_elem? :
    (g : Node → Node) (ns : List Node) (i : ℕ) {n : Node}
    → get_elem? ns i ≡ some n
    → get_elem? (map g ns) i ≡ some (g n)
map-get_elem? g [] i h = cc
map-get_elem? g (n ∷ ns) zero h = ap some (ap g (some-injective _ _ h))
map-get_elem? g (n ∷ ns) (suc i) h = map-get_elem? g ns i h

bury-IsIndex :
    (a : NodeId) (nodes : List Node) (index : NodeId → Option ℕ)
    → IsIndex nodes index
    → IsIndex (map (bury_node a) nodes) index
bury-IsIndex a nodes index ix = record {
  finds = λ i m h.
      let (n, at, e) = get_elem?-map (bury_node a) nodes i h in
      rw (e, bury_node-id) (ix.finds i n at);
  found = λ b i h.
      let (n, at, id) = ix.found b i h in
      (bury_node a n, map-get_elem? (bury_node a) nodes i at, bury_node-id a n ∙ id);
}

bury_node_other : (a : NodeId) (n : Node) → n.id ≢ a → bury_node a n ≡ n
unfolding bury_node
bury_node_other a n ne = elim (Bool-cases (node_id_eq a n.id)) [
  | inl q ↦ absurd (ne (sym ((node_id_eq_iff a n.id).0 q)))
  | inr q ↦ rw q
]

bury_node_self : (a : NodeId) (n : Node) → n.id ≡ a → bury_node a n ≡ record n { deleted = true }
unfolding bury_node
bury_node_self a n e = rw ((node_id_eq_iff a n.id).1 (sym e))

bury_absent :
    (a : NodeId) (nodes : List Node)
    → ((j : ℕ) (m : Node) → get_elem? nodes j ≡ some m → m.id ≢ a)
    → map (bury_node a) nodes ≡ nodes
bury_absent a [] h = refl
bury_absent a (n ∷ ns) h = rw (bury_node_other a n (h 0 n refl), bury_absent a ns (λ j. h (suc j)))

-- Where no other node has the id, the write at the node's place is the mark on the whole list.
set-bury :
    (a : NodeId) (nodes : List Node) (k : ℕ) (n : Node)
    → get_elem? nodes k ≡ some n
    → n.id ≡ a
    → ((j : ℕ) (m : Node) → get_elem? nodes j ≡ some m → m.id ≡ a → j ≡ k)
    → set nodes k (record n { deleted = true }) ≡ map (bury_node a) nodes
set-bury a [] k n at id only = cc
set-bury a (x ∷ xs) zero n at id only =
    let same : x ≡ n = some-injective _ _ at in
    ap₂ ◌∷◌ (sym (bury_node_self a n id) ∙ ap (bury_node a) (sym same))
      (sym (bury_absent a xs (λ j m h e. absurd (zero_ne (only (suc j) m h e)))))
  where
    zero_ne : {j : ℕ} → suc j ≡ 0 → ⊥
    zero_ne h = omega arith
set-bury a (x ∷ xs) (suc k) n at id only =
    ap₂ ◌∷◌ (sym (bury_node_other a x (λ e. absurd (zero_ne (only 0 x refl e)))))
      (set-bury a xs k n at id (λ j m h e. suc-injective (only (suc j) m h e)))
  where
    zero_ne : {j : ℕ} → 0 ≡ suc j → ⊥
    zero_ne h = omega arith

    suc-injective : {i j : ℕ} → suc i ≡ suc j → i ≡ j
    suc-injective h = omega arith

-- On an array that represents a forest, a deletion of a node that is there returns, and marks that
-- node and no other: the list that it leaves is the reading of the forest with that node marked.
pub apply_delete-bury :
    (r : Rga) (f : Forest) (rep : Represents r f) (op : Operation)
    → has_node r op.node_id ≡ true
    → (apply_delete r op ≡ ok (record r { nodes = map (bury_node op.node_id) r.nodes }))
      × Represents (record r { nodes = map (bury_node op.node_id) r.nodes }) (bury op.node_id f)
unfolding apply_delete has_node
apply_delete-bury r f rep op h = elim (Option-cases (r.index op.node_id)) [
  | inl q ↦ absurd (ground arith)
  | inr (k, q) ↦
      let (n, at, id) = rep.indexed.found op.node_id k q in
      (
        rw (q, at, apply_delete)
            (ap (λ (l : List Node). ok (record r { nodes = l }))
              (set-bury op.node_id r.nodes k n at id (λ j m h' e. only j m k h' q e))),
        record {
          reads = ap (map (bury_node op.node_id)) rep.reads ∙ sym (flatten-bury op.node_id f);
          rooted = bury-IsRooted op.node_id none f rep.rooted;
          indexed = bury-IsIndex op.node_id r.nodes r.index rep.indexed;
        },
      )
]
  where
    only :
        (j : ℕ) (m : Node) (k : ℕ)
        → get_elem? r.nodes j ≡ some m
        → r.index op.node_id ≡ some k
        → m.id ≡ op.node_id
        → j ≡ k
    only j m k at q e = some-injective j k (sym (rep.indexed.finds j m at) ∙ ap r.index e ∙ q)
