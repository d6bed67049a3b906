-- ===== src/Flourish/Projector/Guard.antt =====
-- What a client that is not authenticated can delete.
use tanzlaurel.Base.{
  ℕ, ◌≡◌, ◌≢◌, refl, sym, ap, ◌∙◌, List, map, Bool, true, false, Option, some, inl, inr, ◌==◌,
  ==_iff, get_elem?, ok, arith, Bool-cases, Option-cases,
}
use mathlib.Core.Option.{some-injective}
use tanzlaurel.Base.Errors.{Result-cases}
use tanzlaurel.Flourish.Uuid.{UuidText}
use tanzlaurel.Flourish.Crdt.Types.{Operation, Node, Rga, op_delete, op_insert}
use tanzlaurel.Flourish.Crdt.Rga.{
  contains, dispatch, has_node, note_seen, text, is_node_authenticated, apply_delete,
}
use tanzlaurel.Flourish.Crdt.Rga
use tanzlaurel.Flourish.Crdt.Deletion.{apply_delete-bury, bury_node, bury_node-other, map-get_elem?}
use tanzlaurel.Flourish.Crdt.Apply.{IsWell, note_seen-IsWell}
use tanzlaurel.Flourish.Crdt.Snapshot.{PayloadMsg}
use tanzlaurel.Flourish.Projector.{
  EntryStoreApi, RgaStateApi, Projector, rga_of, put, is_refused, refresh, save_state, is_done,
  apply_op, with_text,
}

-- Every authenticated node of the first array stands unchanged in the second.
abbrev pub Keeps : Rga → Rga → Type 0
Keeps r r' =
    (i : ℕ) (n : Node)
    → get_elem? r.nodes i ≡ some n
    → n.authenticated ≡ true
    → get_elem? r'.nodes i ≡ some n

rga_of-with :
    {S T : Type 0} (q p : Projector S T) (entry_id : ℕ) (r : Rga)
    → q.rgas ≡ (put p entry_id r).rgas
    → rga_of q entry_id ≡ r
unfolding rga_of put
rga_of-with q p entry_id r e = rw (e, (==_iff entry_id entry_id).1 refl, rga_of) refl

put-other :
    {S T : Type 0} (p : Projector S T) (entry_id : ℕ) (r : Rga) (j : ℕ)
    → j ≢ entry_id
    → (put p entry_id r).rgas j ≡ p.rgas j
unfolding put
put-other p entry_id r j ne = ground arith

has_node-seen :
    (r : Rga) (op : Operation) (k : ℕ)
    → r.index op.node_id ≡ some k
    → has_node (note_seen r op) op.node_id ≡ true
unfolding has_node note_seen
has_node-seen r op k at = rw (at, has_node) refl

-- A deletion of a node that is there and is not authenticated.
delete-Keeps :
    (uuid : UuidText) (r : Rga) (op : Operation) (k : ℕ) (target : Node)
    → IsWell r
    → op.op_type ≡ op_delete
    → r.index op.node_id ≡ some k
    → get_elem? r.nodes k ≡ some target
    → target.authenticated ≡ false
    → (r' : Rga) × (b : Bool) × (Rga.apply uuid r op ≡ ok (r', b)) × Keeps r r'
unfolding Rga.apply dispatch note_seen
delete-Keeps uuid r op k target well del at there guest =
    elim (Bool-cases (contains op.request_id r.seen)) [
      | inl dup ↦ (r, false, rw (dup, Rga.apply), λ i n h a. h)
      | inr new ↦
          let known = has_node-seen r op k at in
          let (run, rep) =
            apply_delete-bury (note_seen r op) (note_seen-IsWell uuid r op well).forest
              (note_seen-IsWell uuid r op well).represents op known in
          (
            record (note_seen r op) { nodes = map (bury_node op.node_id) r.nodes },
            true,
            rw (new, no_insert, a_delete, known, run, Rga.apply, dispatch) refl,
            λ i n h a.
                map-get_elem? (bury_node op.node_id) r.nodes i h
                ∙ ap some (bury_node-other op.node_id n (other i n h a)),
          )
    ]
  where
    no_insert : (op.op_type == op_insert) ≡ false
    no_insert = rw del refl

    a_delete : (op.op_type == op_delete) ≡ true
    a_delete = rw del refl

    other :
        (i : ℕ) (n : Node)
        → get_elem? r.nodes i ≡ some n
        → n.authenticated ≡ true
        → op.node_id ≢ n.id
    other i n h a same =
        let found = well.represents.indexed.finds i n h in
        let here : i ≡ k = some-injective i k (sym found ∙ ap r.index (sym same) ∙ at) in
        let it : n ≡ target =
          some-injective n target (sym h ∙ ap (get_elem? r.nodes) here ∙ there) in
        cc

module _ (uuid : UuidText) {S T : Type 0} (entries : EntryStoreApi S) (states : RgaStateApi T) where
  refresh-rgas :
      (entry_id : ℕ) (r : Rga) (p : Projector S T)
      → (refresh uuid entries states entry_id r p).0.rgas ≡ p.rgas
  unfolding refresh save_state
  refresh-rgas entry_id r p = elim (Result-cases (entries.find_by_id p.entry_store entry_id)) [
    | inr (e, missing) ↦ rw (missing, refresh) refl
    | inl (entry, found) ↦
        elim (Option-cases
          (entries.save (with_text uuid entries states (text r) entry) p.entry_store).1) [
            | inl saved ↦ rw (found, saved, refresh) refl
            | inr (e, failed) ↦ rw (found, failed, refresh) refl
          ]
  ]

  module _ (unmarshal : List ℕ → Option PayloadMsg) (p : Projector S T) (entry_id : ℕ)
      (op : Operation) where
    abbrev Answer : Type 0
    Answer =
        (p' : Projector S T) × (b : Bool) × (apply_op uuid entries states unmarshal p entry_id op
          ≡ ok (p', b))
        × Keeps (rga_of p entry_id) (rga_of p' entry_id)
        × ((j : ℕ) → j ≢ entry_id → p'.rgas j ≡ p.rgas j)

    refused : is_refused (rga_of p entry_id) op ≡ ok true → Answer
    unfolding apply_op
    refused e = (
      put p entry_id (rga_of p entry_id),
      false,
      rw (e, apply_op) refl,
      (λ i n h a.
          ap (λ (q : Rga). get_elem? q.nodes i) (rga_of-with _ p entry_id (rga_of p entry_id) refl)
          ∙ h),
      put-other p entry_id (rga_of p entry_id),
    )

    accepted :
        is_refused (rga_of p entry_id) op ≡ ok false
        → (r' : Rga) (b : Bool) → Rga.apply uuid (rga_of p entry_id) op ≡ ok (r', b)
        → Keeps (rga_of p entry_id) r'
        → Answer
    unfolding apply_op
    accepted e r' b run keeps =
        let kept = refresh-rgas entry_id r' (put p entry_id r') in
        (
          (refresh uuid entries states entry_id r' (put p entry_id r')).0,
          is_done uuid entries states
              (refresh uuid entries states entry_id r' (put p entry_id r')).1,
          rw (e, run, apply_op) refl,
          (λ i n h a.
              ap (λ (q : Rga). get_elem? q.nodes i) (rga_of-with _ p entry_id r' kept)
              ∙ keeps i n h a),
          λ j ne. ap (λ (f : ℕ → Option Rga). f j) kept ∙ put-other p entry_id r' j ne,
        )

    -- A deletion by a client that is not authenticated, on an entry whose array is well formed,
    -- returns, and leaves every authenticated node of the entry as it was, and the arrays of the
    -- other entries too.
    pub apply_op-Keeps :
        IsWell (rga_of p entry_id)
        → op.op_type ≡ op_delete
        → op.authenticated ≡ false
        → (p' : Projector S T) × (b : Bool) × (apply_op uuid entries states unmarshal p entry_id op
            ≡ ok (p', b))
          × Keeps (rga_of p entry_id) (rga_of p' entry_id)
          × ((j : ℕ) → j ≢ entry_id → p'.rgas j ≡ p.rgas j)
    unfolding is_refused is_node_authenticated
    apply_op-Keeps well del guest = elim (Option-cases ((rga_of p entry_id).index op.node_id)) [
      | inl missing ↦ refused (rw (del, guest, missing, is_refused, is_node_authenticated) refl)
      | inr (k, at) ↦
          let (n, there, id) = well.represents.indexed.found op.node_id k at in
          elim (Bool-cases n.authenticated) [
            | inl safe ↦
                refused (rw (del, guest, at, there, safe, is_refused, is_node_authenticated) refl)
            | inr plain ↦
                let (r', b, run, keeps) =
                  delete-Keeps uuid (rga_of p entry_id) op k n well del at there plain in
                accepted (rw (del, guest, at, there, plain, is_refused, is_node_authenticated) refl)
                  r' b run keeps
          ]
    ]
