-- ===== src/Flourish/Crdt/Rga.antt =====
-- The operations of crdt.go on the array. The loops and the recursion of `is_descendant_of` take
-- fuel; the callers give as much as the array is long, plus one, and Crdt/Apply shows it is enough.
use tanzlaurel.Base.{
  ℕ, zero, suc, List, [], ◌∷◌, ◌++◌, Bool, true, false, not, ◌&&◌, ◌||◌, Option, none, some, ltb,
  leb, ◌==◌, if◌then◌else◌, length, get_elem?, set, take, drop, Outcome, ok, panic, stuck, ◌>>=◌,
  or_panic,
}
use tanzlaurel.Flourish.Uuid.{UuidText, string_lt}
use tanzlaurel.Flourish.Crdt.Types.{
  NodeId, node_id_eq, op_insert, op_delete, Operation, Node, Rga, update, tick,
}

-- A lookup in the set `seen`.
unfoldable pub contains : ℕ → List ℕ → Bool
contains k [] = false
contains k (x ∷ xs) = k == x || contains k xs

unfoldable pub same_after : Option NodeId → Option NodeId → Bool
same_after none none = true
same_after none (some b) = false
same_after (some a) none = false
same_after (some a) (some b) = node_id_eq a b

-- `r.nodes[idx]` panics out of range.
unfoldable pub is_descendant_of : ℕ → Rga → ℕ → NodeId → Outcome Bool
is_descendant_of zero r idx parent_id = stuck
is_descendant_of (suc fuel) r idx parent_id = elim (get_elem? r.nodes idx) [
  | none ↦ panic
  | some n ↦ elim n.after [
    | none ↦ ok false
    | some a ↦ elim (node_id_eq a parent_id) [
      | true ↦ ok true
      | false ↦ elim (r.index a) [
        | none ↦ ok false
        | some ancestor_idx ↦ is_descendant_of fuel r ancestor_idx parent_id
      ]
    ]
  ]
]

-- The loop of `skipSubtree`: on past the descendants of `parent_id`.
unfoldable pub skip_loop : ℕ → Rga → ℕ → NodeId → Outcome ℕ
skip_loop zero r idx parent_id = stuck
skip_loop (suc fuel) r idx parent_id = elim (ltb idx (length r.nodes)) [
  | false ↦ ok idx
  | true ↦
      is_descendant_of (suc (length r.nodes)) r idx parent_id
      >>= elim [ true ↦ skip_loop fuel r (suc idx) parent_id | false ↦ ok idx ]
]

unfoldable pub skip_subtree : Rga → ℕ → Outcome ℕ
skip_subtree r idx = do
  n ← or_panic (get_elem? r.nodes idx)
  skip_loop (suc (length r.nodes)) r (suc idx) n.id

-- `slices.Insert`, which panics when the place is past the end.
unfoldable pub slices_insert {ℓ} : {A : Type ℓ} → List A → ℕ → A → Outcome (List A)
slices_insert xs i x = if leb i (length xs) then ok (take i xs ++ (x ∷ drop i xs)) else panic

-- `for i := insertIdx; i < len(r.nodes); i++ { r.index[r.nodes[i].id] = i }`, over what is left.
unfoldable pub reindex : (NodeId → Option ℕ) → ℕ → List Node → NodeId → Option ℕ
reindex index i [] = index
reindex index i (n ∷ ns) =
    reindex (λ id. if node_id_eq id n.id then some i else index id) (suc i) ns

-- The node that an insert operation makes.
unfoldable pub node_of : Operation → Node
node_of op = record {
  id = op.node_id;
  after = op.after;
  value = op.value;
  deleted = false;
  authenticated = op.authenticated;
}

-- `r.index[*op.After] + 1`, where a missing key reads as 0.
unfoldable pub start_idx : Rga → Option NodeId → ℕ
start_idx r none = 0
start_idx r (some a) = elim (r.index a) [ none ↦ 1 | some i ↦ suc i ]

-- Is the node after which to insert already there?
unfoldable pub has_after : Rga → Option NodeId → Bool
has_after r none = true
has_after r (some a) = elim (r.index a) [ none ↦ false | some i ↦ true ]

unfoldable pub has_node : Rga → NodeId → Bool
has_node r id = elim (r.index id) [ none ↦ false | some i ↦ true ]

unfoldable pub apply_delete : Rga → Operation → Outcome Rga
apply_delete r op = elim (r.index op.node_id) [
  | none ↦ ok r
  | some idx ↦ do
    n ← or_panic (get_elem? r.nodes idx)
    ok (record r { nodes = set r.nodes idx (record n { deleted = true }) })
]

-- The mark of `seen` and the clock.
unfoldable pub note_seen : Rga → Operation → Rga
note_seen r op = record r {
  seen = op.request_id ∷ r.seen;
  clock = update r.clock op.node_id.timestamp;
}

module _ (uuid : UuidText) where
  unfoldable pub node_id_priority : NodeId → NodeId → Bool
  node_id_priority a b =
      if a.timestamp == b.timestamp
      then string_lt (uuid.to_string a.replica_id) (uuid.to_string b.replica_id)
      else ltb b.timestamp a.timestamp

  -- The loop of `applyInsert` that looks for the place.
  unfoldable pub insert_loop : ℕ → Rga → Operation → ℕ → Outcome ℕ
  insert_loop zero r op insert_idx = stuck
  insert_loop (suc fuel) r op insert_idx = elim (get_elem? r.nodes insert_idx) [
    | none ↦ ok insert_idx
    | some existing ↦ elim (same_after existing.after op.after) [
      | false ↦ ok insert_idx
      | true ↦ elim (node_id_priority op.node_id existing.id) [
        | true ↦ ok insert_idx
        | false ↦ skip_subtree r insert_idx >>= insert_loop fuel r op
      ]
    ]
  ]

  unfoldable pub apply_insert : Rga → Operation → Outcome Rga
  apply_insert r op = do
    insert_idx ← insert_loop (suc (length r.nodes)) r op (start_idx r op.after)
    nodes ← slices_insert r.nodes insert_idx (node_of op)
    ok (record r { nodes = nodes; index = reindex r.index insert_idx (drop insert_idx nodes) })

  -- One pass of `flushPending` over the buffer: the array, what remains, and `applied`.
  unfoldable pub flush_pass :
      List Operation → Rga → List Operation → Bool → Outcome (Rga × List Operation × Bool)
  flush_pass [] r remaining applied = ok (r, remaining, applied)
  flush_pass (op ∷ ops) r remaining applied = elim (op.op_type == op_insert) [
    | true ↦ elim (has_after r op.after) [
      | false ↦ flush_pass ops r (remaining ++ (op ∷ [])) applied
      | true ↦ apply_insert r op >>= λ r'. flush_pass ops r' remaining true
    ]
    | false ↦ elim (op.op_type == op_delete) [
      | false ↦ flush_pass ops r remaining applied
      | true ↦ elim (has_node r op.node_id) [
        | false ↦ flush_pass ops r (remaining ++ (op ∷ [])) applied
        | true ↦ apply_delete r op >>= λ r'. flush_pass ops r' remaining true
      ]
    ]
  ]

  -- `for { … if !applied { break } }`
  unfoldable pub flush_loop : ℕ → Rga → Outcome Rga
  flush_loop zero r = stuck
  flush_loop (suc fuel) r = flush_pass r.pending r [] false >>= λ res.
      let r' : Rga = record (res.0) { pending = res.1 } in
      elim res.2 [ true ↦ flush_loop fuel r' | false ↦ ok r' ]

  -- A pass that goes on applies an operation, so one pass more than there are operations is enough.
  unfoldable pub flush_pending : Rga → Outcome Rga
  flush_pending r = flush_loop (suc (length r.pending)) r

  -- The part of `Apply` behind the duplicate check.
  unfoldable pub dispatch : Rga → Operation → Outcome Rga
  dispatch r op = elim (op.op_type == op_insert) [
    | true ↦ elim (has_after r op.after) [
      | false ↦ ok (record r { pending = r.pending ++ (op ∷ []) })
      | true ↦ apply_insert r op >>= flush_pending
    ]
    | false ↦ elim (op.op_type == op_delete) [
      | false ↦ ok r
      | true ↦ elim (has_node r op.node_id) [
        | false ↦ ok (record r { pending = r.pending ++ (op ∷ []) })
        | true ↦ apply_delete r op
      ]
    ]
  ]

  unfoldable pub apply : Rga → Operation → Outcome (Rga × Bool)
  apply r op = elim (contains op.request_id r.seen) [
    | true ↦ ok (r, false)
    | false ↦ dispatch (note_seen r op) op >>= λ r'. ok (r', true)
  ]

  -- `Insert` and `Delete`: `request_id` is what `uuid.New` draws.
  unfoldable pub insert : ℕ → Rga → Option NodeId → ℕ → Outcome (Rga × Operation)
  insert request_id r after value =
      let (clock, id) = tick r.clock in
      let op : Operation = record {
        request_id = request_id;
        op_type = op_insert;
        node_id = id;
        after = after;
        value = value;
        authenticated = false;
      } in
      apply (record r { clock = clock }) op >>= λ res. ok (res.0, op)

  unfoldable pub delete : ℕ → Rga → NodeId → Outcome (Rga × Operation)
  delete request_id r node_id =
      let op : Operation = record {
        request_id = request_id;
        op_type = op_delete;
        node_id = node_id;
        after = none;
        value = 0;
        authenticated = false;
      } in
      apply r op >>= λ res. ok (res.0, op)

unfoldable pub is_node_authenticated : Rga → NodeId → Outcome Bool
is_node_authenticated r id = elim (r.index id) [
  | none ↦ ok true
  | some idx ↦ or_panic (get_elem? r.nodes idx) >>= λ n. ok n.authenticated
]

-- What `WriteRune` and `string(r)` write: a rune that is no code point becomes U+FFFD.
unfoldable pub rune : ℕ → ℕ
rune c = if ltb c 0xD800 || (leb 0xE000 c && leb c 0x10FFFF) then c else 0xFFFD

-- `TextFiltered`, over the nodes; `Text` is the case of no exclusion.
unfoldable pub nodes_text : (NodeId → Bool) → List Node → List ℕ
nodes_text exclude [] = []
nodes_text exclude (n ∷ ns) =
    let rest = nodes_text exclude ns in
    if exclude n.id then rest else if n.deleted then rest else rune n.value ∷ rest

unfoldable pub text_filtered : Rga → (NodeId → Bool) → List ℕ
text_filtered r exclude = nodes_text exclude r.nodes

unfoldable pub visible_text : List Node → List ℕ
visible_text [] = []
visible_text (n ∷ ns) = if not n.deleted then rune n.value ∷ visible_text ns else visible_text ns

unfoldable pub text : Rga → List ℕ
unfolding visible_text
text r = visible_text r.nodes

unfoldable pub node_count : Rga → ℕ
node_count r = length r.nodes
