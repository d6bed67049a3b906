-- ===== src/Flourish/Crdt/Delivery.antt =====
-- Once every operation has come, none is left in the buffer.
use tanzlaurel.Base.{
  ℕ, zero, suc, ◌<◌, ◌≡◌, refl, sym, ap, ◌∙◌, List, [], ◌∷◌, true, some, inl, inr, Option-cases,
  Bool-cases, ==_iff, ◌==◌, ok, arith,
}
use tanzlaurel.Base.Members.{In, All-In}
use tanzlaurel.Flourish.Uuid.{UuidText}
use tanzlaurel.Flourish.Crdt.Types.{NodeId, Operation, Rga, op_insert, op_delete, new_rga}
use tanzlaurel.Flourish.Crdt.Rga.{has_after, has_node}
use tanzlaurel.Flourish.Crdt.Buffer.{waits}
use tanzlaurel.Flourish.Crdt.Accounts.{Holds, holds-index}
use tanzlaurel.Flourish.Crdt.History.{IsHistory}
use tanzlaurel.Flourish.Crdt.Convergence.{
  apply_all, apply_all_new, AreCoherent, not_waiting, holds-has_node,
}

-- What an operation refers to is among the operations; a parent has the smaller Lamport timestamp,
-- as its author had seen it when the clock ticked.
pub record AreClosed (xs : List Operation) : Type 0 where
  pub parents :
      (x : Operation)
      → In x xs
      → x.op_type ≡ op_insert
      → (a : NodeId) → x.after ≡ some a
      → (z : Operation) × In z xs
        × (z.op_type ≡ op_insert)
        × (z.node_id ≡ a)
        × (a.timestamp < x.node_id.timestamp)
  pub targets :
      (x : Operation)
      → In x xs
      → x.op_type ≡ op_delete
      → (z : Operation) × In z xs × (z.op_type ≡ op_insert) × (z.node_id ≡ x.node_id)

module _ (uuid : UuidText) (xs : List Operation) (closed : AreClosed xs) (r : Rga)
    (h : IsHistory uuid (λ x. In x xs) r) where
  blocked : (x : Operation) → In x r.pending → waits r x ≡ true
  blocked = All-In _ r.pending h.blocked

  -- By induction on the timestamp: the parents of an insertion came before it.
  arrived :
      (n : ℕ) (x : Operation)
      → In x xs
      → x.op_type ≡ op_insert
      → x.node_id.timestamp < n
      → ¬ In x r.pending
  unfolding has_after
  arrived zero x g t lt m = elim lt [ ]
  arrived (suc n) x g t lt m =
      let stuck = (not_waiting r x (blocked x m)).0 t in
      elim (Option-cases x.after) [
        | inl root ↦ absurd (cc (sym (ap (has_after r) root) ∙ stuck))
        | inr (a, after) ↦
            let (z, mz, tz, id, older) = closed.parents x g t a after in
            elim (h.accounts.holds_insert z mz tz) [
              | inl w ↦ arrived n z mz tz (rw id (omega (arith, lt, older))) w
              | inr (k, mk, idk) ↦
                  let (i, at) = holds-index r h.accounts.represents.indexed k mk in
                  let there : has_after r (some a) ≡ true =
                    ap (has_after r) (ap some (sym id ∙ sym idk)) ∙ rw (at, has_after) refl in
                  absurd (cc (sym (ap (has_after r) after) ∙ stuck))
            ]
      ]

  inserted_all : (x : Operation) → In x xs → x.op_type ≡ op_insert → has_node r x.node_id ≡ true
  inserted_all x g t = elim (h.accounts.holds_insert x g t) [
    | inl w ↦ absurd (arrived (suc x.node_id.timestamp) x g t (omega arith) w)
    | inr (k, mk, id) ↦
        ap (has_node r) (sym id) ∙ holds-has_node r h.accounts.represents.indexed k mk
  ]

  none_waits : (x : Operation) → ¬ In x r.pending
  none_waits x m =
      let g = h.accounts.known x m in
      let w = blocked x m in
      elim (Bool-cases (x.op_type == op_insert)) [
        | inl t ↦
            arrived (suc x.node_id.timestamp) x g ((==_iff x.op_type op_insert).0 t) (omega arith) m
        | inr i ↦ elim (Bool-cases (x.op_type == op_delete)) [
          | inr d ↦ absurd (ground arith)
          | inl t ↦
              let kind = (==_iff x.op_type op_delete).0 t in
              let (z, mz, tz, id) = closed.targets x g kind in
              let absent = (not_waiting r x w).1 kind in
              let present = inserted_all z mz tz in absurd (cc (ap (has_node r) id))
        ]
      ]

  deleted_all :
      (x : Operation)
      → In x xs
      → x.op_type ≡ op_delete
      → Holds r (λ n. (n.id ≡ x.node_id) × (n.deleted ≡ true))
  deleted_all x g t = elim (h.accounts.holds_delete x g t) [
    | inl w ↦ absurd (none_waits x w)
    | inr there ↦ there
  ]

empty : {A : Type 0} → (ys : List A) → ((y : A) → ¬ In y ys) → ys ≡ []
empty [] h = refl
empty (y ∷ ys) h = absurd (h y (inl refl))

-- A new array is given operations that the replicas made, in any order and with any repetitions. If
-- with each operation comes the insertion of the node that it refers to, and a parent has a smaller
-- timestamp than the node inserted after it, then every call of `Apply` returns, and in the end the
-- buffer is empty, every inserted node is there, and every deleted node is there as a tombstone.
pub apply_all-delivers :
    (uuid : UuidText) (replica_id : ℕ) (xs : List Operation)
    → AreCoherent xs
    → AreClosed xs
    → (r : Rga) × (apply_all uuid (new_rga replica_id) xs ≡ ok r)
      × (r.pending ≡ [])
      × ((x : Operation) → In x xs → x.op_type ≡ op_insert → has_node r x.node_id ≡ true)
      × ((x : Operation)
          → In x xs
          → x.op_type ≡ op_delete
          → Holds r (λ n. (n.id ≡ x.node_id) × (n.deleted ≡ true)))
apply_all-delivers uuid replica_id xs coherent closed =
    let (r, run, h) = apply_all_new uuid (λ x. In x xs) coherent replica_id xs (λ x m. m) in
    (
      r,
      run,
      empty r.pending (none_waits uuid xs closed r h),
      inserted_all uuid xs closed r h,
      deleted_all uuid xs closed r h,
    )
