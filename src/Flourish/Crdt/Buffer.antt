-- ===== src/Flourish/Crdt/Buffer.antt =====
-- The buffer of operations that came before what they need, and `flushPending`.
use tanzlaurel.Base.{
  ℕ, ◌+◌, ◌≤◌, ◌<◌, ◌≡◌, refl, sym, ◌∙◌, ◌≢◌, List, [], ◌∷◌, ◌++◌, Bool, true, false, not, Option,
  none, inl, inr, length, length-append, All, if◌then◌else◌, ◌==◌, ==_iff, arith, Bool-cases,
  Outcome, ok,
}
use mathlib.Core.Path.{subst}
use mathlib.Core.List.{append-nil, append_assoc}
use tanzlaurel.Flourish.Uuid.{UuidText}
use tanzlaurel.Flourish.Crdt.Types.{NodeId, Operation, Rga, op_insert, op_delete}
use tanzlaurel.Flourish.Crdt.Rga.{has_after, has_node, flush_pass}
use tanzlaurel.Flourish.Crdt.Forest.{Forest}
use tanzlaurel.Flourish.Crdt.Refinement.{Represents, apply_insert-place}
use tanzlaurel.Flourish.Crdt.Deletion.{apply_delete-bury}

-- No insertion of the list uses an id of the index, and no two of them share an id.
abbrev pub IsFresh : (NodeId → Option ℕ) → List Operation → Type 0
IsFresh index [] = Unit {0}
IsFresh index (op ∷ ops) =
    (op.op_type ≡ op_insert → index op.node_id ≡ none)
    × All (λ q. op.op_type ≡ op_insert → q.op_type ≡ op_insert → q.node_id ≢ op.node_id) ops
    × IsFresh index ops

-- Does the operation wait for a node that is not there?
abbrev pub waits : Rga → Operation → Bool
waits r op =
    if op.op_type == op_insert
    then not (has_after r op.after)
    else if op.op_type == op_delete
    then not (has_node r op.node_id)
    else false

abbrev pub IsBlocked : Rga → List Operation → Type 0
IsBlocked r = All (λ op. waits r op ≡ true)

pub All-append {ℓ κ} :
    {A : Type ℓ} (P : A → Type κ) (xs ys : List A) → All P xs → All P ys → All P (xs ++ ys)
All-append P [] ys hx hy = hy
All-append P (x ∷ xs) ys hx hy = (hx.0, All-append P xs ys hx.1 hy)

All-remove {ℓ κ} :
    {A : Type ℓ} (P : A → Type κ) (xs ys : List A) (y : A)
    → All P (xs ++ (y ∷ ys))
    → P y × All P (xs ++ ys)
All-remove P [] ys y h = h
All-remove P (x ∷ xs) ys y h = let (p, rest) = All-remove P xs ys y h.1 in (p, (h.0, rest))

-- An operation taken from the middle was fresh, and apart from the others.
pub IsFresh-remove :
    (index : NodeId → Option ℕ) (xs ys : List Operation) (op : Operation)
    → IsFresh index (xs ++ (op ∷ ys))
    → (op.op_type ≡ op_insert → index op.node_id ≡ none)
      × All
          (λ q. op.op_type ≡ op_insert → q.op_type ≡ op_insert → q.node_id ≢ op.node_id)
          (xs ++ ys)
      × IsFresh index (xs ++ ys)
IsFresh-remove index [] ys op h = (h.0, h.1, h.2)
IsFresh-remove index (x ∷ xs) ys op h =
    let (fresh, apart, rest) = IsFresh-remove index xs ys op h.2 in
    let (from_x, others) = All-remove _ xs ys op h.1 in
    (fresh, ((λ i j e. from_x j i (sym e)), apart), (h.0, others, rest))

pub IsFresh-shift :
    (index index' : NodeId → Option ℕ) (op : Operation) (xs : List Operation)
    → op.op_type ≡ op_insert
    → ((a : NodeId) → a ≢ op.node_id → index a ≡ none → index' a ≡ none)
    → All (λ q. op.op_type ≡ op_insert → q.op_type ≡ op_insert → q.node_id ≢ op.node_id) xs
    → IsFresh index xs
    → IsFresh index' xs
IsFresh-shift index index' op [] i stays apart h = tt
IsFresh-shift index index' op (x ∷ xs) i stays apart h = (
  (λ j. stays x.node_id (apart.0 i j) (h.0 j)),
  h.1,
  IsFresh-shift index index' op xs i stays apart.1 h.2,
)

-- What a pass over the buffer yields.
pub record Passed (start : Rga) (kept ops : List Operation) (before : Bool)
    (result : Outcome (Rga × List Operation × Bool)) : Type 0 where
  pub next : Rga
  pub forest : Forest
  pub remaining : List Operation
  pub applied : Bool
  pub returns : result ≡ ok (next, remaining, applied)
  pub represents : Represents next forest
  pub fresh : IsFresh next.index remaining
  pub seen : next.seen ≡ start.seen
  pub shrinks : length remaining ≤ length kept + length ops
  pub progress : before ≡ false → applied ≡ true → length remaining < length kept + length ops
  pub idle :
      applied ≡ false
      → (before ≡ false) × (next ≡ start) × (IsBlocked start kept → IsBlocked start remaining)

module _ (r : Rga) (op : Operation) (kept ops : List Operation) (before : Bool)
    (result : Outcome (Rga × List Operation × Bool)) where
  -- An operation that stays in the buffer.
  Passed-keep :
      waits r op ≡ true
      → Passed r (kept ++ (op ∷ [])) ops before result
      → Passed r kept (op ∷ ops) before result
  Passed-keep w h =
      let grown = length-append kept (op ∷ []) in
      record {
        next = h.next;
        forest = h.forest;
        remaining = h.remaining;
        applied = h.applied;
        returns = h.returns;
        represents = h.represents;
        fresh = h.fresh;
        seen = h.seen;
        shrinks = omega (arith, h.shrinks, grown);
        progress = λ p q. omega (arith, h.progress p q, grown);
        idle = λ p.
            let (b, same, blocked) = h.idle p in
            (b, same, λ k. blocked (All-append _ kept (op ∷ []) k (w, tt)));
      }

  -- One of an unknown kind is dropped.
  Passed-drop : Passed r kept ops before result → Passed r kept (op ∷ ops) before result
  Passed-drop h = record {
    next = h.next;
    forest = h.forest;
    remaining = h.remaining;
    applied = h.applied;
    returns = h.returns;
    represents = h.represents;
    fresh = h.fresh;
    seen = h.seen;
    shrinks = omega (arith, h.shrinks);
    progress = λ p q. omega (arith, h.progress p q);
    idle = h.idle;
  }

  -- One that is applied.
  Passed-apply :
      (r' : Rga)
      → r'.seen ≡ r.seen
      → Passed r' kept ops true result
      → Passed r kept (op ∷ ops) before result
  Passed-apply r' e h = record {
    next = h.next;
    forest = h.forest;
    remaining = h.remaining;
    applied = h.applied;
    returns = h.returns;
    represents = h.represents;
    fresh = h.fresh;
    seen = h.seen ∙ e;
    shrinks = omega (arith, h.shrinks);
    progress = λ p q. omega (arith, h.shrinks);
    idle = λ p. absurd (cc ((h.idle p).0));
  }

module _ (uuid : UuidText) where
  pub flush_pass-Passed :
      (ops : List Operation) (r : Rga) (f : Forest) (kept : List Operation) (before : Bool)
      → Represents r f
      → IsFresh r.index (kept ++ ops)
      → Passed r kept ops before (flush_pass uuid ops r kept before)
  unfolding flush_pass
  flush_pass-Passed [] r f kept before rep fresh = record {
    next = r;
    forest = f;
    remaining = kept;
    applied = before;
    returns = refl;
    represents = rep;
    fresh = subst (IsFresh r.index) (append-nil kept) fresh;
    seen = refl;
    shrinks = omega arith;
    progress = λ p q. absurd (cc);
    idle = λ p. (p, refl, λ h. h);
  }
  flush_pass-Passed (op ∷ ops) r f kept before rep fresh =
      elim (Bool-cases (op.op_type == op_insert)) [
        | inl ins ↦ elim (Bool-cases (has_after r op.after)) [
          | inl ready ↦
              let (r', run, rep', _, seen, _, stays) =
                apply_insert-place uuid r f rep op ready (out.0 (is_insert ins)) in
              rw (ins, ready, run, flush_pass)
                (Passed-apply r op kept ops before _ r' seen (
                  flush_pass-Passed ops r' _ kept true rep' (
                    IsFresh-shift r.index r'.index op (kept ++ ops) (is_insert ins) stays out.1
                      out.2)))
          | inr blocked ↦
              rw (ins, blocked, flush_pass)
                (Passed-keep r op kept ops before _ (rw (ins, blocked))
                  (flush_pass-Passed ops r f (kept ++ (op ∷ [])) before rep shifted))
        ]
        | inr other ↦ elim (Bool-cases (op.op_type == op_delete)) [
          | inr unknown ↦
              rw (other, unknown, flush_pass)
                (Passed-drop r op kept ops before _
                  (flush_pass-Passed ops r f kept before rep out.2))
          | inl del ↦ elim (Bool-cases (has_node r op.node_id)) [
            | inl there ↦
                let (run, rep') = apply_delete-bury r f rep op there in
                rw (other, del, there, run, flush_pass)
                  (Passed-apply r op kept ops before _ _ refl
                    (flush_pass-Passed ops _ _ kept true rep' out.2))
            | inr blocked ↦
                rw (other, del, blocked, flush_pass)
                  (Passed-keep r op kept ops before _ (rw (other, del, blocked))
                    (flush_pass-Passed ops r f (kept ++ (op ∷ [])) before rep shifted))
          ]
        ]
      ]
    where
      out :
          (op.op_type ≡ op_insert → r.index op.node_id ≡ none)
          × All
              (λ q. op.op_type ≡ op_insert → q.op_type ≡ op_insert → q.node_id ≢ op.node_id)
              (kept ++ ops)
          × IsFresh r.index (kept ++ ops)
      out = IsFresh-remove r.index kept ops op fresh

      is_insert : (op.op_type == op_insert) ≡ true → op.op_type ≡ op_insert
      is_insert = (==_iff op.op_type op_insert).0

      shifted : IsFresh r.index ((kept ++ (op ∷ [])) ++ ops)
      shifted = subst (IsFresh r.index) (sym (append_assoc kept (op ∷ []) ops)) fresh
