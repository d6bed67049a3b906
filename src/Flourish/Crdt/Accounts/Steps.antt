-- ===== src/Flourish/Crdt/Accounts/Steps.antt =====
-- Every step of the array keeps the account of its operations.
use tanzlaurel.Base.{
  ◌≡◌, ◌≢◌, refl, sym, ap, ◌∙◌, subst, List, ◌∷◌, ◌++◌, map, true, false, none, inl, inr, ◌⊎◌, ◌==◌,
  All, Option-cases, ok, ok-injective, arith,
}
use tanzlaurel.Base.Members.{In, In-middle, In-around, In-there, In-map, map-In}
use tanzlaurel.Flourish.Uuid.{UuidText}
use tanzlaurel.Flourish.Crdt.Types.{NodeId, Operation, Node, Rga, op_insert, op_delete}
use tanzlaurel.Flourish.Crdt.Rga.{has_after, has_node, apply_insert, apply_delete, node_of}
use tanzlaurel.Flourish.Crdt.Forest.{place}
use tanzlaurel.Flourish.Crdt.Refinement.{Represents, apply_insert-place}
use tanzlaurel.Flourish.Crdt.Deletion.{bury, bury_node, bury_node-id, apply_delete-bury}
use tanzlaurel.Flourish.Crdt.Buffer.{IsFresh, IsFresh-remove, IsFresh-shift}
use tanzlaurel.Flourish.Crdt.Priority.{IsId}
use tanzlaurel.Flourish.Crdt.Ordered.{place-IsOrdered, bury-IsOrdered}
use tanzlaurel.Flourish.Crdt.Reach.{
  Reaches, stop, inserted, deleted, dropped, relabelled, apply_insert-between,
}
use tanzlaurel.Flourish.Crdt.Accounts.{Accounts, index-holds, holds-index}
use tanzlaurel.Flourish.Crdt.Accounts.Burying.{
  bury_node-IsMade, bury_node-deleted, bury_node-stays, bury_node-marks,
}

module _ (uuid : UuidText) (given : Operation → Type 0) (r : Rga) where
  pub Accounts-relabelled :
      (waiting : List Operation) (q : Rga)
      → q.nodes ≡ r.nodes
      → q.index ≡ r.index
      → Accounts uuid given r waiting
      → Accounts uuid given q waiting
  Accounts-relabelled waiting q en ei h = record {
    forest = h.forest;
    represents = record {
      reads = en ∙ h.represents.reads;
      rooted = h.represents.rooted;
      indexed = rw (en, ei) h.represents.indexed;
    };
    ordered = h.ordered;
    fresh = rw ei h.fresh;
    ids = λ n m. h.ids n (rw en at m);
    made = λ n m. h.made n (rw en at m);
    buried = λ n m. h.buried n (rw en at m);
    known = h.known;
    holds_insert = rw en h.holds_insert;
    holds_delete = rw en h.holds_delete;
  }

module _ (uuid : UuidText) (given : Operation → Type 0) (r : Rga) (op : Operation)
    (kept ops : List Operation) where
  -- The waiting list without the operation.
  without :
      {P : Operation → Type 0}
      → ((o : Operation) → In o (kept ++ (op ∷ ops)) → P o)
      → (o : Operation) → In o (kept ++ ops)
      → P o
  without h o m = h o (In-around o op kept ops m)

  Accounts-dropped :
      (op.op_type == op_insert) ≡ false
      → (op.op_type == op_delete) ≡ false
      → Accounts uuid given r (kept ++ (op ∷ ops))
      → Accounts uuid given r (kept ++ ops)
  Accounts-dropped not_insert not_delete h = record {
    forest = h.forest;
    represents = h.represents;
    ordered = h.ordered;
    fresh = (IsFresh-remove r.index kept ops op h.fresh).2;
    ids = h.ids;
    made = h.made;
    buried = h.buried;
    known = without h.known;
    holds_insert = λ o g t. elim (h.holds_insert o g t) [
      | inr there ↦ inr there
      | inl w ↦ elim (In-middle o op kept ops w) [
        | inl e ↦ absurd (no_insert o e t)
        | inr m ↦ inl m
      ]
    ];
    holds_delete = λ o g t. elim (h.holds_delete o g t) [
      | inr there ↦ inr there
      | inl w ↦ elim (In-middle o op kept ops w) [
        | inl e ↦ absurd (no_delete o e t)
        | inr m ↦ inl m
      ]
    ];
  }
    where
      no_insert : (o : Operation) → o ≡ op → ¬ (o.op_type ≡ op_insert)
      no_insert o e t =
          let t' : op.op_type ≡ op_insert = sym (ap (λ (x : Operation). x.op_type) e) ∙ t in
          ground arith

      no_delete : (o : Operation) → o ≡ op → ¬ (o.op_type ≡ op_delete)
      no_delete o e t =
          let t' : op.op_type ≡ op_delete = sym (ap (λ (x : Operation). x.op_type) e) ∙ t in
          ground arith

  module _ (r' : Rga) (h : Accounts uuid given r (kept ++ (op ∷ ops))) where
    op_alone :
        (op.op_type ≡ op_insert → r.index op.node_id ≡ none)
        × All
            (λ q. op.op_type ≡ op_insert → q.op_type ≡ op_insert → q.node_id ≢ op.node_id)
            (kept ++ ops)
        × IsFresh r.index (kept ++ ops)
    op_alone = IsFresh-remove r.index kept ops op h.fresh

    Accounts-inserted :
        op.op_type ≡ op_insert
        → IsId op.node_id
        → has_after r op.after ≡ true
        → apply_insert uuid r op ≡ ok r'
        → Accounts uuid given r' (kept ++ ops)
    unfolding node_of
    Accounts-inserted kind is_id ready run =
        let (before, after, old, new, _, _) = apply_insert-between uuid r op r' run in
        let free = op_alone.0 kind in
        let (r1, run1, rep1, _, _, _, stays1) =
          apply_insert-place uuid r h.forest h.represents op ready free in
        let same : r1 ≡ r' = ok-injective (sym run1 ∙ run) in
        let rep' : Represents r' (place uuid (node_of op) op.after h.forest) =
          subst (λ (q : Rga). Represents q (place uuid (node_of op) op.after h.forest)) same rep1 in
        let stays : (a : NodeId) → a ≢ op.node_id → r.index a ≡ none → r'.index a ≡ none =
          subst (λ (q : Rga). (a : NodeId) → a ≢ op.node_id → r.index a ≡ none → q.index a ≡ none)
            same stays1 in
        let split : (y : Node) → In y r'.nodes → (y ≡ node_of op) ⊎ In y r.nodes =
          λ y m. rw (← old) at (In-middle y (node_of op) before after (rw new at m)) in
        let keep : (y : Node) → In y r.nodes → In y r'.nodes =
          λ y m. rw new (In-around y (node_of op) before after (rw old at m)) in
        let self : In (node_of op) r'.nodes = rw new (In-there (node_of op) before after) in
        record {
          forest = place uuid (node_of op) op.after h.forest;
          represents = rep';
          ordered =
              place-IsOrdered uuid (node_of op) op.after h.forest is_id
                (λ y m.
                  let m' : In y r.nodes = rw h.represents.reads m in
                  (h.ids y m', λ e. let (i, at) = holds-index r h.represents.indexed y m' in cc))
                h.ordered;
          fresh = IsFresh-shift r.index r'.index op (kept ++ ops) kind stays op_alone.1 op_alone.2;
          ids = λ y m. elim (split y m) [ inl e ↦ rw e is_id | inr m' ↦ h.ids y m' ];
          made = λ y m. elim (split y m) [
            | inl e ↦ (
              op,
              h.known op (In-there op kept ops),
              rw e (record {
                kind = kind;
                id = refl;
                after = refl;
                value = refl;
                authenticated = refl;
              }),
            )
            | inr m' ↦ h.made y m'
          ];
          buried = λ y m gone. elim (split y m) [
            | inl e ↦ absurd (cc (sym (ap (λ (n : Node). n.deleted) e) ∙ gone))
            | inr m' ↦ h.buried y m' gone
          ];
          known = without h.known;
          holds_insert = λ o g t. elim (h.holds_insert o g t) [
            | inr (n, m, e) ↦ inr (n, keep n m, e)
            | inl w ↦ elim (In-middle o op kept ops w) [
              | inl e ↦ inr (node_of op, self, sym (ap (λ (x : Operation). x.node_id) e))
              | inr m ↦ inl m
            ]
          ];
          holds_delete = λ o g t. elim (h.holds_delete o g t) [
            | inr (n, m, e) ↦ inr (n, keep n m, e)
            | inl w ↦ elim (In-middle o op kept ops w) [
              | inl e ↦ absurd (clash o e t)
              | inr m ↦ inl m
            ]
          ];
        }
      where
        clash : (o : Operation) → o ≡ op → ¬ (o.op_type ≡ op_delete)
        clash o e t =
            let t' : o.op_type ≡ op_insert = ap (λ (x : Operation). x.op_type) e ∙ kind in
            omega arith

    Accounts-deleted :
        op.op_type ≡ op_delete
        → has_node r op.node_id ≡ true
        → apply_delete r op ≡ ok r'
        → Accounts uuid given r' (kept ++ ops)
    unfolding has_node
    Accounts-deleted kind there run =
        let a = op.node_id in
        let (run1, rep1) = apply_delete-bury r h.forest h.represents op there in
        let same : record r { nodes = map (bury_node a) r.nodes } ≡ r' =
          ok-injective (sym run1 ∙ run) in
        subst (λ (q : Rga). Accounts uuid given q (kept ++ ops)) same
          (record {
            forest = bury a h.forest;
            represents = rep1;
            ordered = bury-IsOrdered uuid a h.forest h.ordered;
            fresh = op_alone.2;
            ids = λ y m.
                let (n, m', e) = map-In (bury_node a) y r.nodes m in
                rw (e, bury_node-id a n) (h.ids n m');
            made = λ y m.
                let (n, m', e) = map-In (bury_node a) y r.nodes m in
                let (o, g, made) = h.made n m' in (o, g, rw e (bury_node-IsMade a o n made));
            buried = λ y m gone.
                let (n, m', e) = map-In (bury_node a) y r.nodes m in
                elim (bury_node-deleted a n (sym (ap (λ (z : Node). z.deleted) e) ∙ gone)) [
                  | inl here ↦
                      (op, h.known op (In-there op kept ops), rw (e, bury_node-id a n) (kind, here))
                  | inr old ↦
                      let (o, g, by) = h.buried n m' old in (o, g, rw (e, bury_node-id a n) by)
                ];
            known = without h.known;
            holds_insert = λ o g t. elim (h.holds_insert o g t) [
              | inr (n, m, e) ↦
                  inr (bury_node a n, In-map (bury_node a) n r.nodes m, bury_node-id a n ∙ e)
              | inl w ↦ elim (In-middle o op kept ops w) [
                | inl e ↦ absurd (clash o e t)
                | inr m ↦ inl m
              ]
            ];
            holds_delete = λ o g t. elim (h.holds_delete o g t) [
              | inr (n, m, (e, gone)) ↦ inr (
                bury_node a n,
                In-map (bury_node a) n r.nodes m,
                (bury_node-id a n ∙ e, bury_node-stays a n gone),
              )
              | inl w ↦ elim (In-middle o op kept ops w) [
                | inr m ↦ inl m
                | inl e ↦ elim (Option-cases (r.index a)) [
                  | inl none' ↦ absurd (ground arith)
                  | inr (i, at) ↦
                      let (n, m, id) = index-holds r h.represents.indexed a i at in
                      inr (
                        bury_node a n,
                        In-map (bury_node a) n r.nodes m,
                        (
                          bury_node-id a n ∙ id ∙ sym (ap (λ (x : Operation). x.node_id) e),
                          bury_node-marks a n (sym id),
                        ),
                      )
                ]
              ]
            ];
          })
      where
        clash : (o : Operation) → o ≡ op → ¬ (o.op_type ≡ op_insert)
        clash o e t =
            let t' : o.op_type ≡ op_delete = ap (λ (x : Operation). x.op_type) e ∙ kind in
            omega arith

-- Every step keeps the account.
pub Reaches-Accounts :
    (uuid : UuidText) (given : Operation → Type 0)
    → ((op : Operation) → given op → op.op_type ≡ op_insert → IsId op.node_id)
    → {q : Rga} {left : List Operation} {r : Rga} {waiting : List Operation}
    → Reaches uuid q left r waiting
    → Accounts uuid given r waiting
    → Accounts uuid given q left
Reaches-Accounts uuid given ids stop h = h
Reaches-Accounts uuid given ids (inserted r r' op waiting kept ops w t ready run rest) h =
    let h' : Accounts uuid given r (kept ++ (op ∷ ops)) = rw w at h in
    Reaches-Accounts uuid given ids rest (
      Accounts-inserted uuid given r op kept ops r' h' t
        (ids op (h'.known op (In-there op kept ops)) t) ready run)
Reaches-Accounts uuid given ids (deleted r r' op waiting kept ops w t there run rest) h =
    Reaches-Accounts uuid given ids rest
      (Accounts-deleted uuid given r op kept ops r' (rw w at h) t there run)
Reaches-Accounts uuid given ids (dropped r op waiting kept ops w i d rest) h =
    Reaches-Accounts uuid given ids rest (Accounts-dropped uuid given r op kept ops i d (rw w at h))
Reaches-Accounts uuid given ids (relabelled r r' waiting n i s rest) h =
    Reaches-Accounts uuid given ids rest (Accounts-relabelled uuid given r waiting r' n i h)
