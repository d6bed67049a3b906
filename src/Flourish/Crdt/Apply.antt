-- ===== src/Flourish/Crdt/Apply.antt =====
-- `Apply` and `flushPending` return on every well-formed array, and keep it well formed.
use tanzlaurel.Base.{
  ℕ, zero, suc, ◌<◌, ◌≡◌, refl, sym, ap, ◌∙◌, List, [], ◌∷◌, ◌++◌, Bool, true, false, not, Option,
  none, some, inl, inr, length, ◌==◌, ==_iff, arith, Bool-cases, Outcome, ok,
}
use mathlib.Core.Path.{subst}
use mathlib.Core.List.{append-nil}
use tanzlaurel.Flourish.Uuid.{UuidText}
use tanzlaurel.Flourish.Crdt.Types.{NodeId, Operation, Rga, op_insert, op_delete, new_rga}
use tanzlaurel.Flourish.Crdt.Rga.{
  contains, has_after, has_node, flush_loop, flush_pending, dispatch, note_seen, apply,
}
use tanzlaurel.Flourish.Crdt.Forest.{Forest, leaf}
use tanzlaurel.Flourish.Crdt.Refinement.{Represents, apply_insert-place}
use tanzlaurel.Flourish.Crdt.Deletion.{apply_delete-bury}
use tanzlaurel.Flourish.Crdt.Buffer.{
  IsFresh, IsBlocked, waits, flush_pass-Passed, IsFresh-remove, IsFresh-shift, All-append,
}

-- A well-formed array: its nodes read a forest, the index is right, no buffered insertion uses an
-- id twice, and every buffered operation waits for a node that is not there.
pub record IsWell (r : Rga) : Type 0 where
  pub forest : Forest
  pub represents : Represents r forest
  pub fresh : IsFresh r.index r.pending
  pub blocked : IsBlocked r r.pending

pub new_rga-IsWell : (replica_id : ℕ) → IsWell (new_rga replica_id)
unfolding new_rga
new_rga-IsWell replica_id = record {
  forest = leaf;
  represents = record {
    reads = refl;
    rooted = tt;
    indexed = record { finds = λ i n h. cc; found = λ a i h. cc };
  };
  fresh = tt;
  blocked = tt;
}

-- The buffer and the rest of the state do not matter to what the nodes represent.
Represents-with :
    {r : Rga} {f : Forest} (q : Rga)
    → q.nodes ≡ r.nodes
    → q.index ≡ r.index
    → Represents r f
    → Represents q f
Represents-with {r} q en ei rep = record {
  reads = en ∙ rep.reads;
  rooted = rep.rooted;
  indexed = rw (en, ei) rep.indexed;
}

has_after-with : (q r : Rga) (o : Option NodeId) → q.index ≡ r.index → has_after q o ≡ has_after r o
unfolding has_after
has_after-with q r none e = refl
has_after-with q r (some a) e = rw e

waits-with : (q r : Rga) (op : Operation) → q.index ≡ r.index → waits q op ≡ waits r op
unfolding has_node
waits-with q r op e = rw (has_after-with q r op.after e, e)

IsBlocked-with :
    (q r : Rga) (ops : List Operation) → q.index ≡ r.index → IsBlocked r ops → IsBlocked q ops
IsBlocked-with q r [] e h = tt
IsBlocked-with q r (op ∷ ops) e h = (waits-with q r op e ∙ h.0, IsBlocked-with q r ops e h.1)

module _ (uuid : UuidText) where
  -- What `Apply` leaves behind.
  abbrev Settles : Outcome Rga → List ℕ → Type 0
  Settles result seen = (r : Rga) × (result ≡ ok r) × IsWell r × (r.seen ≡ seen)

  flush_loop-Settles :
      (fuel : ℕ) (r : Rga) (f : Forest)
      → Represents r f
      → IsFresh r.index r.pending
      → length r.pending < fuel
      → Settles (flush_loop uuid fuel r) r.seen
  unfolding flush_loop
  flush_loop-Settles zero r f rep fresh lt = elim lt [ ]
  flush_loop-Settles (suc fuel) r f rep fresh lt =
      let h = flush_pass-Passed uuid r.pending r f [] false rep fresh in
      let next : Rga = record (h.next) { pending = h.remaining } in
      elim (Bool-cases h.applied) [
        | inl again ↦
            let (r', run, well, seen) =
              flush_loop-Settles fuel next h.forest (Represents-with next refl refl h.represents)
                h.fresh (omega (arith, h.progress refl again)) in
            (r', rw (h.returns, again, flush_loop) run, well, seen ∙ h.seen)
        | inr over ↦
            let (_, same, blocked) = h.idle over in
            (
              next,
              rw (h.returns, over, flush_loop),
              record {
                forest = h.forest;
                represents = Represents-with next refl refl h.represents;
                fresh = h.fresh;
                blocked =
                    IsBlocked-with next r h.remaining (ap (λ (q : Rga). q.index) same) (blocked tt);
              },
              h.seen,
            )
      ]

  flush_pending-Settles :
      (r : Rga) (f : Forest)
      → Represents r f
      → IsFresh r.index r.pending
      → Settles (flush_pending uuid r) r.seen
  unfolding flush_pending
  flush_pending-Settles r f rep fresh =
      flush_loop-Settles (suc (length r.pending)) r f rep fresh (omega arith)

  dispatch-Settles :
      (r : Rga) (op : Operation)
      → IsWell r
      → IsFresh r.index (r.pending ++ (op ∷ []))
      → Settles (dispatch uuid r op) r.seen
  unfolding dispatch
  dispatch-Settles r op well fresh = elim (Bool-cases (op.op_type == op_insert)) [
    | inl ins ↦ elim (Bool-cases (has_after r op.after)) [
      | inr blocked ↦ (wait, rw (ins, blocked, dispatch), waiting (rw (ins, blocked)), refl)
      | inl ready ↦
          let is_insert : op.op_type ≡ op_insert = (==_iff op.op_type op_insert).0 ins in
          let (alone, apart, rest) = IsFresh-remove r.index r.pending [] op fresh in
          let (r', run, rep, pending, seen, _, stays) =
            apply_insert-place uuid r well.forest well.represents op ready (alone is_insert) in
          let (r'', flushed, well', seen') = flush_pending-Settles r' _ rep (
            subst (IsFresh r'.index) (append-nil r.pending ∙ sym pending)
              (IsFresh-shift r.index r'.index op (r.pending ++ []) is_insert stays apart rest)) in
          (r'', rw (ins, ready, run, dispatch) flushed, well', seen' ∙ seen)
    ]
    | inr other ↦ elim (Bool-cases (op.op_type == op_delete)) [
      | inr unknown ↦ (r, rw (other, unknown, dispatch), well, refl)
      | inl del ↦ elim (Bool-cases (has_node r op.node_id)) [
        | inr blocked ↦
            (wait, rw (other, del, blocked, dispatch), waiting (rw (other, del, blocked)), refl)
        | inl there ↦
            let (run, rep) = apply_delete-bury r well.forest well.represents op there in
            (
              _,
              rw (other, del, there, dispatch) run,
              record {
                forest = _;
                represents = rep;
                fresh = well.fresh;
                blocked = IsBlocked-with _ r r.pending refl well.blocked;
              },
              refl,
            )
      ]
    ]
  ]
    where
      wait : Rga
      wait = record r { pending = r.pending ++ (op ∷ []) }

      waiting : waits r op ≡ true → IsWell wait
      waiting w = record {
        forest = well.forest;
        represents = Represents-with wait refl refl well.represents;
        fresh = fresh;
        blocked =
            IsBlocked-with wait r (r.pending ++ (op ∷ [])) refl
              (All-append _ r.pending (op ∷ []) well.blocked (w, tt));
      }

  pub note_seen-IsWell : (r : Rga) (op : Operation) → IsWell r → IsWell (note_seen r op)
  unfolding note_seen
  note_seen-IsWell r op well = record {
    forest = well.forest;
    represents = Represents-with (note_seen r op) refl refl well.represents;
    fresh = well.fresh;
    blocked = IsBlocked-with (note_seen r op) r r.pending refl well.blocked;
  }

  -- `Apply` returns on a well-formed array, for an operation that, if it inserts, has a node id
  -- that neither the array nor an insertion in the buffer uses: it neither panics nor runs on. The
  -- array stays well formed, so nothing that could be applied is left in the buffer, and the
  -- operation is recorded as seen. The answer says whether it was new.
  pub apply-IsWell :
      (r : Rga) (op : Operation)
      → IsWell r
      → IsFresh r.index (r.pending ++ (op ∷ []))
      → (r' : Rga) × (apply uuid r op ≡ ok (r', not (contains op.request_id r.seen)))
        × IsWell r'
        × (contains op.request_id r'.seen ≡ true)
  unfolding apply
  apply-IsWell r op well fresh = elim (Bool-cases (contains op.request_id r.seen)) [
    | inl dup ↦ (r, rw (dup, apply), well, dup)
    | inr new ↦
        let (r', run, well', seen) =
          dispatch-Settles (note_seen r op) op (note_seen-IsWell r op well)
            (unfold note_seen in fresh) in
        (r', rw (new, run, apply), well', rw seen (unfold note_seen contains in ground (arith)))
  ]

  -- After a call of `Apply` on a well-formed array that returned, for an operation whose node id,
  -- if it inserts, was not in use, the same operation is ignored: the next call answers false and
  -- leaves the array as it is.
  pub apply_again :
      (r : Rga) (op : Operation) (r' : Rga) (b : Bool)
      → IsWell r
      → IsFresh r.index (r.pending ++ (op ∷ []))
      → apply uuid r op ≡ ok (r', b)
      → apply uuid r' op ≡ ok (r', false)
  unfolding apply
  apply_again r op r' b well fresh h =
      let (r'', run, _, seen) = apply-IsWell r op well fresh in
      let same : r'' ≡ r' = cc in
      rw (ap (λ (q : Rga). contains op.request_id q.seen) (sym same) ∙ seen, apply)
