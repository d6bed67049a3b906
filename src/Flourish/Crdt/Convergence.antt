-- ===== src/Flourish/Crdt/Convergence.antt =====
-- Replicas that were given the same operations hold the same array, whatever the order.
use tanzlaurel.Base.{
  ℕ, ◌≡◌, refl, sym, ap, ◌∙◌, subst, List, [], ◌∷◌, true, false, none, get_elem?, inl, inr, ◌⊎◌,
  Bool-cases, Outcome, ok, ◌>>=◌, arith,
}
use mathlib.Core.Option.{some-injective}
use tanzlaurel.Base.Members.{In, In-get, All-In, Distinct, Distinct-of_places}
use tanzlaurel.Flourish.Uuid.{UuidText}
use tanzlaurel.Flourish.Crdt.Types.{Node, Operation, Rga, op_insert, op_delete, new_rga}
use tanzlaurel.Flourish.Crdt.Rga.{has_after, has_node, apply, text, visible_text}
use tanzlaurel.Flourish.Crdt.Forest.{flatten}
use tanzlaurel.Flourish.Crdt.Positions.{IsIndex}
use tanzlaurel.Flourish.Crdt.Buffer.{waits}
use tanzlaurel.Flourish.Crdt.Unique.{below_root, IsCanonical, canonical_unique}
use tanzlaurel.Flourish.Crdt.Accounts.{holds-index}
use tanzlaurel.Flourish.Crdt.History.{
  IsCoherent, IsHistory, IsHistory-same, Joined, apply-IsHistory, new_rga-IsHistory,
}

-- `Apply` for one operation after another.
unfoldable pub apply_all : UuidText → Rga → List Operation → Outcome Rga
apply_all uuid r [] = ok r
apply_all uuid r (op ∷ ops) = apply uuid r op >>= λ res. apply_all uuid (res.0) ops

module _ (uuid : UuidText) (all : Operation → Type 0) (coherent : IsCoherent all) where
  apply_all-IsHistory :
      (ops : List Operation) (given : Operation → Type 0) (r : Rga)
      → ((x : Operation) → given x → all x)
      → ((x : Operation) → In x ops → all x)
      → IsHistory uuid given r
      → (r' : Rga) × (apply_all uuid r ops ≡ ok r') × IsHistory uuid (λ x. given x ⊎ In x ops) r'
  unfolding apply_all
  apply_all-IsHistory [] given r within new h = (
    r,
    refl,
    IsHistory-same uuid given r (λ x. given x ⊎ ⊥) (λ x g. inl g)
        (λ x g. elim g [ inl old ↦ old | inr none' ↦ absurd none' ]) h,
  )
  apply_all-IsHistory (op ∷ ops) given r within new h =
      let (r1, b, run, h1) =
        apply-IsHistory uuid given r op all coherent within (new op (inl refl)) h in
      let (r2, runs, h2) =
        apply_all-IsHistory ops (Joined uuid given r op) r1
          (λ x g. elim g [ inl old ↦ within x old | inr e ↦ subst all (sym e) (new op (inl refl)) ])
          (λ x m. new x (inr m)) h1 in
      (
        r2,
        rw (run, apply_all) runs,
        IsHistory-same uuid _ r2 (λ x. given x ⊎ In x (op ∷ ops))
            (λ x g. elim g [
              | inl j ↦ elim j [ inl old ↦ inl old | inr e ↦ inr (inl e) ]
              | inr m ↦ inr (inr m)
            ])
            (λ x g. elim g [
              | inl old ↦ inl (inl old)
              | inr m ↦ elim m [ inl e ↦ inl (inr e) | inr k ↦ inr k ]
            ])
            h2,
      )

  pub apply_all_new :
      (replica_id : ℕ) (ops : List Operation)
      → ((x : Operation) → In x ops → all x)
      → (r : Rga) × (apply_all uuid (new_rga replica_id) ops ≡ ok r)
        × IsHistory uuid (λ x. In x ops) r
  apply_all_new replica_id ops new =
      let (r, run, h) =
        apply_all-IsHistory ops (λ x. ⊥) (new_rga replica_id) (λ x none'. absurd none') new
          (new_rga-IsHistory uuid replica_id) in
      (
        r,
        run,
        IsHistory-same uuid _ r (λ x. In x ops)
            (λ x g. elim g [ inl none' ↦ absurd none' | inr m ↦ m ]) (λ x m. inr m) h,
      )

-- An operation that could be applied does not wait.
pub not_waiting :
    (r : Rga) (x : Operation)
    → waits r x ≡ true
    → ((x.op_type ≡ op_insert → has_after r x.after ≡ false)
        × (x.op_type ≡ op_delete → has_node r x.node_id ≡ false))
not_waiting r x w = (λ t. ground arith, λ t. ground arith)

pub holds-has_node :
    (r : Rga) → IsIndex r.nodes r.index → (n : Node) → In n r.nodes → has_node r n.id ≡ true
unfolding has_node
holds-has_node r ix n m = let (i, at) = holds-index r ix n m in rw (at, has_node) refl

-- Two nodes of an array with the same id are the same.
one_node :
    (r : Rga)
    → IsIndex r.nodes r.index
    → (n m : Node) → In n r.nodes
    → In m r.nodes
    → n.id ≡ m.id
    → n ≡ m
one_node r ix n m hn hm e =
    let (i, at) = In-get n r.nodes hn in
    let (j, at') = In-get m r.nodes hm in
    let there = ix.finds i n at in
    let there' = ix.finds j m at' in
    let same : i ≡ j = some-injective i j (cc (ap r.index e)) in
    some-injective n m (sym at ∙ ap (get_elem? r.nodes) same ∙ at')

same_fields :
    (y n : Node)
    → y.id ≡ n.id
    → y.after ≡ n.after
    → y.value ≡ n.value
    → y.deleted ≡ n.deleted
    → y.authenticated ≡ n.authenticated
    → y ≡ n
same_fields y n e f g h k = cc

-- Two arrays that were given the same operations.
module _ (uuid : UuidText) (all : Operation → Type 0) (coherent : IsCoherent all)
    (given : Operation → Type 0) (within : (x : Operation) → given x → all x) where
  module _ (r q : Rga) (hr : IsHistory uuid given r) (hq : IsHistory uuid given q) where
    still_deleted :
        (y n : Node)
        → In y r.nodes
        → In n q.nodes
        → y.id ≡ n.id
        → y.deleted ≡ true
        → n.deleted ≡ true
    still_deleted y n my mn e gone =
        let ix = hq.accounts.represents.indexed in
        let (d, g, by) = hr.accounts.buried y my gone in
        elim (hq.accounts.holds_delete d g (by.0)) [
          | inl w ↦
              let absent = (not_waiting q d (All-In _ q.pending hq.blocked d w)).1 by.0 in
              let present = holds-has_node q ix n mn in absurd (cc (ap (has_node q) (by.1 ∙ e)))
          | inr (k, mk, (id, dead)) ↦
              let same : k ≡ n = one_node q ix k n mk mn (id ∙ by.1 ∙ e) in
              subst (λ (z : Node). z.deleted ≡ true) same dead
        ]

    same_flag :
        (y n : Node)
        → In y r.nodes
        → In n q.nodes
        → y.id ≡ n.id
        → (n.deleted ≡ true → y.deleted ≡ true)
        → y.deleted ≡ n.deleted
    same_flag y n my mn e back = elim (Bool-cases y.deleted) [
      | inl gone ↦ gone ∙ sym (still_deleted y n my mn e gone)
      | inr stays ↦ elim (Bool-cases n.deleted) [
        | inl dead ↦ absurd (cc (back dead))
        | inr alive ↦ stays ∙ sym alive
      ]
    ]

  module _ (r q : Rga) (hr : IsHistory uuid given r) (hq : IsHistory uuid given q) where
    -- Both made the node from the same insertion.
    same_node : (y n : Node) → In y r.nodes → In n q.nodes → y.id ≡ n.id → y ≡ n
    same_node y n my mn e =
        let (o, g, by) = hr.accounts.made y my in
        let (o', g', by') = hq.accounts.made n mn in
        let same : o ≡ o' =
          coherent.insertions o o' (within o g) (within o' g') by.kind by'.kind
            (sym by.id ∙ e ∙ by'.id) in
        let flag = same_flag r q hr hq y n my mn e (still_deleted q r hq hr n y mn my (sym e)) in
        same_fields y n e (by.after ∙ ap (λ (x : Operation). x.after) same ∙ sym by'.after)
          (by.value ∙ ap (λ (x : Operation). x.value) same ∙ sym by'.value) flag
          (by.authenticated ∙ ap (λ (x : Operation). x.authenticated) same ∙ sym by'.authenticated)

    -- A node whose parent the other array holds is in the other array.
    transfer : (y : Node) → In y r.nodes → has_after q y.after ≡ true → In y q.nodes
    transfer y my ready =
        let (o, g, by) = hr.accounts.made y my in
        elim (hq.accounts.holds_insert o g by.kind) [
          | inl w ↦
              let stuck : has_after q o.after ≡ false =
                (not_waiting q o (All-In _ q.pending hq.blocked o w)).0 by.kind in
              absurd (cc (sym (ap (has_after q) by.after) ∙ ready))
          | inr (n, mn, id) ↦
              subst (λ (z : Node). In z q.nodes) (sym (same_node y n my mn (by.id ∙ sym id))) mn
        ]

    among : (y : Node) → In y (flatten hr.accounts.forest) → In y (flatten hq.accounts.forest)
    unfolding has_after
    among =
        let fr = hr.accounts.forest in
        let fq = hq.accounts.forest in
        let here : (y : Node) → In y (flatten fr) → In y r.nodes =
          λ y m. rw hr.accounts.represents.reads m in
        let there : (y : Node) → In y q.nodes → In y (flatten fq) =
          λ y m. rw (← hq.accounts.represents.reads) m in
        let back : (y : Node) → In y (flatten fq) → In y q.nodes =
          λ y m. rw hq.accounts.represents.reads m in
        below_root (λ y. In y (flatten fq)) none fr hr.accounts.represents.rooted
          (λ y m e. there y (transfer y (here y m) (rw e refl)))
          (λ y n m mn e.
            let (i, at) = holds-index q hq.accounts.represents.indexed n (back n mn) in
            there y (transfer y (here y m) (rw (e, at, has_after) refl)))

  canonical : (r : Rga) (hr : IsHistory uuid given r) → IsCanonical uuid none hr.accounts.forest
  canonical r hr =
      let a = hr.accounts in
      let ix = a.represents.indexed in
      record {
        rooted = a.represents.rooted;
        outside = λ m i e. cc;
        ordered = a.ordered;
        distinct = subst (Distinct (λ (n : Node). n.id)) a.represents.reads (
            Distinct-of_places (λ (n : Node). n.id) r.nodes
              (λ i j x y at at' e.
                let there = ix.finds i x at in
                let there' = ix.finds j y at' in some-injective i j (cc (ap r.index e))));
      }

  pub IsHistory-nodes :
      (r q : Rga) → IsHistory uuid given r → IsHistory uuid given q → r.nodes ≡ q.nodes
  IsHistory-nodes r q hr hq =
      let same =
        canonical_unique uuid none hr.accounts.forest hq.accounts.forest (canonical r hr)
          (canonical q hq) (among r q hr hq, among q r hq hr) in
      hr.accounts.represents.reads ∙ ap flatten same ∙ sym hq.accounts.represents.reads

-- A list of operations has the same members as another one: the order and the repetitions may differ.
abbrev pub SameOperations : List Operation → List Operation → Type 0
SameOperations xs ys = ((x : Operation) → In x xs → In x ys) × ((x : Operation) → In x ys → In x xs)

abbrev pub AreCoherent : List Operation → Type 0
AreCoherent xs = IsCoherent (λ x. In x xs)

-- Two new arrays, of any replicas, are given the same operations, each in an order of its own and with
-- any repetitions. A request id names one operation, the node id of an insertion one insertion, and
-- the replica ids of inserted nodes have 128 bits. Then every call of `Apply` returns, and the arrays
-- have the same nodes in the same order, with the same values and tombstones, and so the same text.
pub apply_all-converges :
    (uuid : UuidText) (a b : ℕ) (xs ys : List Operation)
    → AreCoherent xs
    → SameOperations xs ys
    → (r : Rga) × (q : Rga) × (apply_all uuid (new_rga a) xs ≡ ok r)
      × (apply_all uuid (new_rga b) ys ≡ ok q)
      × (r.nodes ≡ q.nodes)
      × (text r ≡ text q)
unfolding text
apply_all-converges uuid a b xs ys coherent same =
    let (r, run, hr) = apply_all_new uuid (λ x. In x xs) coherent a xs (λ x m. m) in
    let (q, run', hq) = apply_all_new uuid (λ x. In x xs) coherent b ys same.1 in
    let hq' = IsHistory-same uuid (λ x. In x ys) q (λ x. In x xs) same.1 same.0 hq in
    let nodes = IsHistory-nodes uuid (λ x. In x xs) coherent (λ x. In x xs) (λ x m. m) r q hr hq' in
    (r, q, run, run', nodes, ap visible_text nodes)
