-- ===== src/Flourish/Crdt/Ordered.antt =====
-- In the forest that an array represents, siblings stand in the order of their priority.
use tanzlaurel.Base.{◌≡◌, ◌≢◌, refl, sym, true, Option, none, some, inl, inr, Bool-cases}
use tanzlaurel.Base.Members.{In, In-left, In-right}
use tanzlaurel.Flourish.Uuid.{UuidText}
use tanzlaurel.Flourish.Crdt.Types.{NodeId, node_id_eq, Node}
use tanzlaurel.Flourish.Crdt.Rga.{node_id_priority}
use tanzlaurel.Flourish.Crdt.Forest.{Forest, leaf, tree, flatten, graft, plant, place}
use tanzlaurel.Flourish.Crdt.Deletion.{bury, bury_node-id}
use tanzlaurel.Flourish.Crdt.Priority.{IsId, priority_trans, priority_total}

module _ (uuid : UuidText) where
  -- Every tree of the top level has a lower priority than `a`.
  abbrev pub IsUnder : NodeId → Forest → Type 0
  IsUnder a leaf = Unit {0}
  IsUnder a (tree m children siblings) = (node_id_priority uuid a m.id ≡ true) × IsUnder a siblings

  abbrev pub IsOrdered : Forest → Type 0
  IsOrdered leaf = Unit {0}
  IsOrdered (tree n children siblings) =
      IsUnder n.id siblings × IsOrdered children × IsOrdered siblings

  IsUnder-trans :
      (a b : NodeId) (f : Forest) → node_id_priority uuid a b ≡ true → IsUnder b f → IsUnder a f
  IsUnder-trans a b leaf h u = tt
  IsUnder-trans a b (tree m c s) h u =
      (priority_trans uuid a b m.id h u.0, IsUnder-trans a b s h u.1)

  graft-IsUnder :
      (a : NodeId) (x : Node) (f : Forest)
      → node_id_priority uuid a x.id ≡ true
      → IsUnder a f
      → IsUnder a (graft uuid x f)
  unfolding graft
  graft-IsUnder a x leaf h u = (h, tt)
  graft-IsUnder a x (tree m c s) h u = elim (Bool-cases (node_id_priority uuid x.id m.id)) [
    | inl q ↦ rw q (h, u)
    | inr q ↦ rw q (u.0, graft-IsUnder a x s h u.1)
  ]

  graft-IsOrdered :
      (x : Node) (f : Forest)
      → IsId x.id
      → ((y : Node) → In y (flatten f) → IsId y.id × (y.id ≢ x.id))
      → IsOrdered f
      → IsOrdered (graft uuid x f)
  unfolding graft
  graft-IsOrdered x leaf hx hy o = (tt, tt, tt)
  graft-IsOrdered x (tree m c s) hx hy o = elim (Bool-cases (node_id_priority uuid x.id m.id)) [
    | inl q ↦ rw q ((q, IsUnder-trans x.id m.id s q o.0), tt, o)
    | inr q ↦
        let (hm, ne) = hy m (inl refl) in
        let lower : node_id_priority uuid m.id x.id ≡ true =
          priority_total uuid x.id m.id hx hm (λ e. ne (sym e)) q in
        rw q (
          graft-IsUnder m.id x s lower o.0,
          o.1,
          graft-IsOrdered x s hx (λ y i. hy y (inr (In-right y (flatten c) (flatten s) i))) o.2,
        )
  ]

  plant-IsUnder :
      (b a : NodeId) (x : Node) (f : Forest) → IsUnder b f → IsUnder b (plant uuid a x f)
  unfolding plant
  plant-IsUnder b a x leaf u = tt
  plant-IsUnder b a x (tree m c s) u = elim (Bool-cases (node_id_eq a m.id)) [
    | inl q ↦ rw q u
    | inr q ↦ rw q (u.0, plant-IsUnder b a x s u.1)
  ]

  plant-IsOrdered :
      (a : NodeId) (x : Node) (f : Forest)
      → IsId x.id
      → ((y : Node) → In y (flatten f) → IsId y.id × (y.id ≢ x.id))
      → IsOrdered f
      → IsOrdered (plant uuid a x f)
  unfolding plant
  plant-IsOrdered a x leaf hx hy o = tt
  plant-IsOrdered a x (tree m c s) hx hy o =
      let in_c : (y : Node) → In y (flatten c) → IsId y.id × (y.id ≢ x.id) =
        λ y i. hy y (inr (In-left y (flatten c) (flatten s) i)) in
      let in_s : (y : Node) → In y (flatten s) → IsId y.id × (y.id ≢ x.id) =
        λ y i. hy y (inr (In-right y (flatten c) (flatten s) i)) in
      elim (Bool-cases (node_id_eq a m.id)) [
        | inl q ↦ rw q (o.0, graft-IsOrdered x c hx in_c o.1, o.2)
        | inr q ↦ rw q (
          plant-IsUnder m.id a x s o.0,
          plant-IsOrdered a x c hx in_c o.1,
          plant-IsOrdered a x s hx in_s o.2,
        )
      ]

  -- A new node with an identifier of its own keeps the order.
  pub place-IsOrdered :
      (x : Node) (o : Option NodeId) (f : Forest)
      → IsId x.id
      → ((y : Node) → In y (flatten f) → IsId y.id × (y.id ≢ x.id))
      → IsOrdered f
      → IsOrdered (place uuid x o f)
  unfolding place
  place-IsOrdered x none f hx hy o = graft-IsOrdered x f hx hy o
  place-IsOrdered x (some a) f hx hy o = plant-IsOrdered a x f hx hy o

  bury-IsUnder : (b a : NodeId) (f : Forest) → IsUnder b f → IsUnder b (bury a f)
  unfolding bury
  bury-IsUnder b a leaf u = tt
  bury-IsUnder b a (tree m c s) u = (rw (bury_node-id a m) u.0, bury-IsUnder b a s u.1)

  pub bury-IsOrdered : (a : NodeId) (f : Forest) → IsOrdered f → IsOrdered (bury a f)
  unfolding bury
  bury-IsOrdered a leaf o = tt
  bury-IsOrdered a (tree m c s) o = (
    rw (bury_node-id a m) (bury-IsUnder m.id a s o.0),
    bury-IsOrdered a c o.1,
    bury-IsOrdered a s o.2,
  )
