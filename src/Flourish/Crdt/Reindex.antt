-- ===== src/Flourish/Crdt/Reindex.antt =====
-- The index that `applyInsert` rebuilds is right for the list with the new node.
use tanzlaurel.Base.{
  ℕ, zero, suc, ◌+◌, ◌-◌, ◌≤◌, ◌<◌, ◌≡◌, refl, sym, ap, ◌∙◌, ◌≢◌, List, [], ◌∷◌, false, Option,
  none, some, inl, inr, ◌⊎◌, dec_lt, ltb, lt→ltb, ge→ltb, if◌then◌else◌, length, get_elem?, drop,
  arith, Bool-cases,
}
use native.Mathlib.Nat.{zero-add, suc-add}
use mathlib.Core.Option.{some-injective}
use tanzlaurel.Flourish.Crdt.Types.{NodeId, node_id_eq, node_id_eq_iff, Node}
use tanzlaurel.Flourish.Crdt.Rga.{reindex}
use tanzlaurel.Flourish.Crdt.Positions.{IsIndex}
use tanzlaurel.Flourish.Crdt.Insertion.{insert_at}

get_elem?-drop {ℓ} :
    {A : Type ℓ} (xs : List A) (i j : ℕ) → get_elem? (drop i xs) j ≡ get_elem? xs (i + j)
get_elem?-drop xs zero j = rw zero-add
get_elem?-drop [] (suc i) j = refl
get_elem?-drop (x ∷ xs) (suc i) j = rw suc-add (get_elem?-drop xs i j)

get-insert_at_below {ℓ} :
    {A : Type ℓ} (xs : List A) (i k : ℕ) (x : A)
    → k < i
    → i ≤ length xs
    → get_elem? (insert_at xs i x) k ≡ get_elem? xs k
unfolding insert_at
get-insert_at_below xs zero k x h le = absurd (omega arith)
get-insert_at_below [] (suc i) k x h le = absurd (omega arith)
get-insert_at_below (y ∷ ys) (suc i) zero x h le = refl
get-insert_at_below (y ∷ ys) (suc i) (suc k) x h le =
    get-insert_at_below ys i k x (omega arith) (omega arith)

get-insert_at_self {ℓ} :
    {A : Type ℓ} (xs : List A) (i : ℕ) (x : A)
    → i ≤ length xs
    → get_elem? (insert_at xs i x) i ≡ some x
unfolding insert_at
get-insert_at_self xs zero x le = refl
get-insert_at_self [] (suc i) x le = absurd (omega arith)
get-insert_at_self (y ∷ ys) (suc i) x le = get-insert_at_self ys i x (omega arith)

get-insert_at_above {ℓ} :
    {A : Type ℓ} (xs : List A) (i k : ℕ) (x : A)
    → i ≤ k
    → i ≤ length xs
    → get_elem? (insert_at xs i x) (suc k) ≡ get_elem? xs k
unfolding insert_at
get-insert_at_above xs zero k x h le = refl
get-insert_at_above [] (suc i) k x h le = absurd (omega arith)
get-insert_at_above (y ∷ ys) (suc i) zero x h le = absurd (omega arith)
get-insert_at_above (y ∷ ys) (suc i) (suc k) x h le =
    get-insert_at_above ys i k x (omega arith) (omega arith)

-- Either the list has a node with the id, and the index then its position, or nothing has changed.
pub reindex_cases :
    (ns : List Node) (index : NodeId → Option ℕ) (i : ℕ) (a : NodeId)
    → ((reindex index i ns a ≡ index a) × ((j : ℕ) (n : Node) → get_elem? ns j ≡ some n → n.id ≢ a))
      ⊎ ((j : ℕ) × (n : Node) × (get_elem? ns j ≡ some n)
          × (n.id ≡ a)
          × (reindex index i ns a ≡ some (i + j)))
unfolding reindex
reindex_cases [] index i a = inl (refl, λ j n h e. cc)
reindex_cases (n ∷ ns) index i a =
    elim (reindex_cases ns (λ id. if node_id_eq id n.id then some i else index id) (suc i) a) [
      | inr (j, m, at, id, e) ↦ inr (suc j, m, at, id, e ∙ ap some (omega arith))
      | inl (e, absent) ↦ elim (Bool-cases (node_id_eq a n.id)) [
        | inl q ↦
            inr (0, n, refl, sym ((node_id_eq_iff a n.id).0 q), e ∙ rw q (ap some (omega arith)))
        | inr q ↦ inl (e ∙ rw q, other q absent)
      ]
    ]
  where
    other :
        node_id_eq a n.id ≡ false
        → ((j : ℕ) (m : Node) → get_elem? ns j ≡ some m → m.id ≢ a)
        → (j : ℕ) (m : Node) → get_elem? (n ∷ ns) j ≡ some m
        → m.id ≢ a
    other q absent zero m h id = ground (arith, node_id_eq_iff a n.id)
    other q absent (suc j) m h id = absent j m h id

module _ (nodes : List Node) (index : NodeId → Option ℕ) (ix : IsIndex nodes index) (i : ℕ)
    (x : Node) (le : i ≤ length nodes) (fresh : index x.id ≡ none) where
  abbrev nodes' : List Node
  nodes' = insert_at nodes i x

  abbrev index' : NodeId → Option ℕ
  index' = reindex index i (drop i nodes')

  -- Where a node of the new list comes from.
  sources :
      (k : ℕ) (n : Node)
      → get_elem? nodes' k ≡ some n
      → ((k < i) × (get_elem? nodes k ≡ some n))
        ⊎ ((k ≡ i) × (n ≡ x))
        ⊎ ((l : ℕ) × (k ≡ suc l) × (i ≤ l) × (get_elem? nodes l ≡ some n))
  sources k n h = elim (dec_lt k i) [
    | yes lt ↦ inl (lt, sym (get-insert_at_below nodes i k x lt le) ∙ h)
    | no ge ↦ elim (dec_lt i k) [
      | no eq ↦
          let same : k ≡ i = omega arith in
          let self = get-insert_at_self nodes i x le in inr (inl (same, ground arith))
      | yes gt ↦ inr (inr (above k gt h))
    ]
  ]
    where
      above :
          (k : ℕ)
          → i < k
          → get_elem? nodes' k ≡ some n
          → (l : ℕ) × (k ≡ suc l) × (i ≤ l) × (get_elem? nodes l ≡ some n)
      above zero gt h = absurd (omega arith)
      above (suc l) gt h =
          (l, refl, omega arith, sym (get-insert_at_above nodes i l x (omega arith) le) ∙ h)

  -- The new position of a node, by its old one.
  abbrev moved : Option ℕ → ℕ
  moved none = i
  moved (some l) = if ltb l i then l else suc l

  position : (k : ℕ) (n : Node) → get_elem? nodes' k ≡ some n → k ≡ moved (index n.id)
  position k n h = elim (sources k n h) [
    | inl (lt, at) ↦ rw (ix.finds k n at, lt→ltb k i lt)
    | inr (inl (e, same)) ↦ rw (same, fresh) e
    | inr (inr (l, e, ge, at)) ↦ rw (ix.finds l n at, ge→ltb l i ge) e
  ]

  -- No two nodes of the new list share an id.
  unique :
      (k l : ℕ) (m n : Node)
      → get_elem? nodes' k ≡ some m
      → get_elem? nodes' l ≡ some n
      → m.id ≡ n.id
      → k ≡ l
  unique k l m n hk hl e =
      position k m hk ∙ ap (λ (a : NodeId). moved (index a)) e ∙ sym (position l n hl)

  suffix_at :
      (k : ℕ) (n : Node)
      → i ≤ k
      → get_elem? nodes' k ≡ some n
      → get_elem? (drop i nodes') (k - i) ≡ some n
  suffix_at k n ge h =
      get_elem?-drop nodes' i (k - i) ∙ ap (λ (l : ℕ). get_elem? nodes' l) (omega arith) ∙ h

  pub insert_at-IsIndex : IsIndex nodes' index'
  insert_at-IsIndex = record { finds = finds; found = found }
    where
      finds : (k : ℕ) (n : Node) → get_elem? nodes' k ≡ some n → index' n.id ≡ some k
      finds k n h = elim (reindex_cases (drop i nodes') index i n.id) [
        | inl (e, absent) ↦ elim (dec_lt k i) [
          | yes lt ↦ e ∙ ix.finds k n (sym (get-insert_at_below nodes i k x lt le) ∙ h)
          | no ge ↦ absurd (absent (k - i) n (suffix_at k n (omega arith) h) refl)
        ]
        | inr (j, m, at, id, e) ↦
            e ∙ ap some (unique (i + j) k m n (sym (get_elem?-drop nodes' i j) ∙ at) h id)
      ]

      found :
          (a : NodeId) (k : ℕ)
          → index' a ≡ some k
          → (n : Node) × (get_elem? nodes' k ≡ some n) × (n.id ≡ a)
      found a k h = elim (reindex_cases (drop i nodes') index i a) [
        | inl (e, absent) ↦
            let (n, at, id) = ix.found a k (sym e ∙ h) in
            elim (dec_lt k i) [
              | yes lt ↦ (n, get-insert_at_below nodes i k x lt le ∙ at, id)
              | no ge ↦ absurd (
                  absent (suc k - i) n
                    (suffix_at (suc k) n (omega arith)
                      (get-insert_at_above nodes i k x (omega arith) le ∙ at))
                    id)
            ]
        | inr (j, m, at, id, e) ↦
            let same : i + j ≡ k = some-injective (i + j) k (sym e ∙ h) in
            (
              m,
              ap (λ (l : ℕ). get_elem? nodes' l) (sym same) ∙ sym (get_elem?-drop nodes' i j) ∙ at,
              id,
            )
      ]

  -- Ids that were not in use, but for the new node's, stay so.
  pub insert_at-stays_absent : (a : NodeId) → a ≢ x.id → index a ≡ none → index' a ≡ none
  insert_at-stays_absent a ne h = elim (reindex_cases (drop i nodes') index i a) [
    | inl (e, absent) ↦ e ∙ h
    | inr (j, m, at, id, e) ↦ elim (sources (i + j) m (sym (get_elem?-drop nodes' i j) ∙ at)) [
      | inl (lt, old) ↦ absurd (ground (arith, ix.finds (i + j) m old ∙ refl, ap index id))
      | inr (inl (q, same)) ↦ absurd (ne (sym id ∙ ap (λ (n : Node). n.id) same))
      | inr (inr (l, q, ge, old)) ↦ absurd (ground (arith, ix.finds l m old, ap index id))
    ]
  ]
