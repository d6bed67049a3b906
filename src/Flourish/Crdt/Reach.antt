-- ===== src/Flourish/Crdt/Reach.antt =====
-- The changes of the array as steps: each takes one operation out of those that wait. `flushPending`
-- and `Apply` only make such steps.
use tanzlaurel.Base.{
  ℕ, zero, suc, ◌≡◌, refl, sym, ap, ◌∙◌, subst, List, [], ◌∷◌, ◌++◌, Bool, true, false, inl, inr,
  length, take, drop, leb, ◌==◌, ==_iff, Bool-cases, Option-cases, ok, panic, ◌>>=◌, >>=-eq-ok,
  ok-injective, or_panic, get_elem?, set,
}
use mathlib.Core.List.{append-nil, append_assoc}
use tanzlaurel.Flourish.Uuid.{UuidText}
use tanzlaurel.Flourish.Crdt.Types.{Operation, Node, Rga, op_insert, op_delete}
use tanzlaurel.Flourish.Crdt.Rga.{
  has_after, has_node, apply_insert, apply_delete, slices_insert, node_of, insert_loop, start_idx,
  flush_pass, flush_loop, flush_pending, dispatch,
}

take-drop {ℓ} : {A : Type ℓ} (i : ℕ) (xs : List A) → take i xs ++ drop i xs ≡ xs
take-drop zero xs = refl
take-drop (suc i) [] = refl
take-drop (suc i) (x ∷ xs) = ap (◌∷◌ x) (take-drop i xs)

slices_insert-ok {ℓ} :
    {A : Type ℓ} (xs : List A) (i : ℕ) (x : A) (ys : List A)
    → slices_insert xs i x ≡ ok ys
    → take i xs ++ (x ∷ drop i xs) ≡ ys
unfolding slices_insert
slices_insert-ok xs i x ys h = elim (Bool-cases (leb i (length xs))) [
  | inl fits ↦
      let run : slices_insert xs i x ≡ ok (take i xs ++ (x ∷ drop i xs)) =
        rw (fits, slices_insert) refl in
      ok-injective (sym run ∙ h)
  | inr over ↦ let run : slices_insert xs i x ≡ panic = rw (over, slices_insert) refl in cc
]

-- An insertion puts the new node somewhere between the others.
pub apply_insert-between :
    (uuid : UuidText) (r : Rga) (op : Operation) (r' : Rga)
    → apply_insert uuid r op ≡ ok r'
    → (before after : List Node) × (r.nodes ≡ before ++ after)
      × (r'.nodes ≡ before ++ (node_of op ∷ after))
      × (r'.seen ≡ r.seen)
      × (r'.pending ≡ r.pending)
unfolding apply_insert
apply_insert-between uuid r op r' run =
    let (i, found, rest) =
      >>=-eq-ok (insert_loop uuid (suc (length r.nodes)) r op (start_idx r op.after)) _ run in
    let (nodes, put, last) = >>=-eq-ok (slices_insert r.nodes i (node_of op)) _ rest in
    let same = ok-injective last in
    (
      take i r.nodes,
      drop i r.nodes,
      sym (take-drop i r.nodes),
      sym (ap (λ (q : Rga). q.nodes) same)
          ∙ sym (slices_insert-ok r.nodes i (node_of op) nodes put),
      sym (ap (λ (q : Rga). q.seen) same),
      sym (ap (λ (q : Rga). q.pending) same),
    )

apply_delete-seen :
    (r : Rga) (op : Operation) (r' : Rga)
    → apply_delete r op ≡ ok r'
    → (r'.seen ≡ r.seen) × (r'.pending ≡ r.pending)
unfolding apply_delete
apply_delete-seen r op r' run = elim (Option-cases (r.index op.node_id)) [
  | inl none' ↦
      let same : r ≡ r' = ok-injective (sym (rw (none', apply_delete) refl) ∙ run) in
      (sym (ap (λ (q : Rga). q.seen) same), sym (ap (λ (q : Rga). q.pending) same))
  | inr (idx, at) ↦
      let opened : (or_panic (get_elem? r.nodes idx) >>= λ n.
      ok (record r { nodes = set r.nodes idx (record n { deleted = true }) }))
          ≡ ok r' =
        sym (rw (at, apply_delete) refl) ∙ run in
      let (n, got, last) = >>=-eq-ok (or_panic (get_elem? r.nodes idx)) _ opened in
      let same = ok-injective last in
      (sym (ap (λ (q : Rga). q.seen) same), sym (ap (λ (q : Rga). q.pending) same))
]

module _ (uuid : UuidText) where
  -- `Reaches r waiting q left`: from the array `r` and the operations that wait, steps lead to the
  -- array `q` with the operations that are left. Only the nodes, the index and the requests count.
  pub data Reaches (q : Rga) (left : List Operation) : Rga → List Operation → Type 0 where
    stop : Reaches q left q left
    inserted :
        (r r' : Rga) (op : Operation) (waiting kept ops : List Operation)
        → waiting ≡ kept ++ (op ∷ ops)
        → op.op_type ≡ op_insert
        → has_after r op.after ≡ true
        → apply_insert uuid r op ≡ ok r'
        → Reaches q left r' (kept ++ ops)
        → Reaches q left r waiting
    deleted :
        (r r' : Rga) (op : Operation) (waiting kept ops : List Operation)
        → waiting ≡ kept ++ (op ∷ ops)
        → op.op_type ≡ op_delete
        → has_node r op.node_id ≡ true
        → apply_delete r op ≡ ok r'
        → Reaches q left r' (kept ++ ops)
        → Reaches q left r waiting
    dropped :
        (r : Rga) (op : Operation) (waiting kept ops : List Operation)
        → waiting ≡ kept ++ (op ∷ ops)
        → (op.op_type == op_insert) ≡ false
        → (op.op_type == op_delete) ≡ false
        → Reaches q left r (kept ++ ops)
        → Reaches q left r waiting
    relabelled :
        (r r' : Rga) (waiting : List Operation)
        → r'.nodes ≡ r.nodes
        → r'.index ≡ r.index
        → r'.seen ≡ r.seen
        → Reaches q left r' waiting
        → Reaches q left r waiting

  pub Reaches-seen :
      {q : Rga} {left : List Operation} {r : Rga} {waiting : List Operation}
      → Reaches q left r waiting
      → q.seen ≡ r.seen
  Reaches-seen stop = refl
  Reaches-seen (inserted r r' op waiting kept ops w t h run rest) =
      let (_, _, _, _, seen, _) = apply_insert-between uuid r op r' run in Reaches-seen rest ∙ seen
  Reaches-seen (deleted r r' op waiting kept ops w t h run rest) =
      Reaches-seen rest ∙ (apply_delete-seen r op r' run).0
  Reaches-seen (dropped r op waiting kept ops w i d rest) = Reaches-seen rest
  Reaches-seen (relabelled r r' waiting n i s rest) = Reaches-seen rest ∙ s

  flush_pass-Reaches :
      (ops : List Operation) (r : Rga) (kept : List Operation) (before : Bool) (r' : Rga)
      (remaining : List Operation) (applied : Bool)
      → flush_pass uuid ops r kept before ≡ ok (r', remaining, applied)
      → Reaches r' remaining r (kept ++ ops)
  unfolding flush_pass
  flush_pass-Reaches [] r kept before r' remaining applied run =
      let start : Rga × List Operation × Bool = (r, kept, before) in
      let same : start ≡ (r', remaining, applied) = ok-injective run in
      rw (append-nil kept)
        (subst (λ (z : Rga × List Operation × Bool). Reaches z.0 z.1 r kept) same stop)
  flush_pass-Reaches (op ∷ ops) r kept before r' remaining applied run =
      elim (Bool-cases (op.op_type == op_insert)) [
        | inl ins ↦ elim (Bool-cases (has_after r op.after)) [
          | inl ready ↦
              let (r1, here, rest) =
                >>=-eq-ok (apply_insert uuid r op) (λ r1. flush_pass uuid ops r1 kept true)
                  (sym (rw (ins, ready, flush_pass) refl) ∙ run) in
              inserted r r1 op (kept ++ (op ∷ ops)) kept ops refl
                ((==_iff op.op_type op_insert).0 ins) ready here
                (flush_pass-Reaches ops r1 kept true r' remaining applied rest)
          | inr blocked ↦ keep before (
              flush_pass-Reaches ops r (kept ++ (op ∷ [])) before r' remaining applied
                (sym (rw (ins, blocked, flush_pass) refl) ∙ run))
        ]
        | inr other ↦ elim (Bool-cases (op.op_type == op_delete)) [
          | inr unknown ↦ dropped r op (kept ++ (op ∷ ops)) kept ops refl other unknown (
              flush_pass-Reaches ops r kept before r' remaining applied
                (sym (rw (other, unknown, flush_pass) refl) ∙ run))
          | inl del ↦ elim (Bool-cases (has_node r op.node_id)) [
            | inl there ↦
                let (r1, here, rest) =
                  >>=-eq-ok (apply_delete r op) (λ r1. flush_pass uuid ops r1 kept true)
                    (sym (rw (other, del, there, flush_pass) refl) ∙ run) in
                deleted r r1 op (kept ++ (op ∷ ops)) kept ops refl
                  ((==_iff op.op_type op_delete).0 del) there here
                  (flush_pass-Reaches ops r1 kept true r' remaining applied rest)
            | inr blocked ↦ keep before (
                flush_pass-Reaches ops r (kept ++ (op ∷ [])) before r' remaining applied
                  (sym (rw (other, del, blocked, flush_pass) refl) ∙ run))
          ]
        ]
      ]
    where
      keep :
          Bool
          → Reaches r' remaining r ((kept ++ (op ∷ [])) ++ ops)
          → Reaches r' remaining r (kept ++ (op ∷ ops))
      keep b h = subst (Reaches r' remaining r) (append_assoc kept (op ∷ []) ops) h

  Reaches-trans :
      {q : Rga} {left : List Operation} {m : Rga} {middle : List Operation} {r : Rga}
      {waiting : List Operation}
      → Reaches q left m middle
      → Reaches m middle r waiting
      → Reaches q left r waiting
  Reaches-trans second stop = second
  Reaches-trans second (inserted r r' op waiting kept ops w t h run rest) =
      inserted r r' op waiting kept ops w t h run (Reaches-trans second rest)
  Reaches-trans second (deleted r r' op waiting kept ops w t h run rest) =
      deleted r r' op waiting kept ops w t h run (Reaches-trans second rest)
  Reaches-trans second (dropped r op waiting kept ops w i d rest) =
      dropped r op waiting kept ops w i d (Reaches-trans second rest)
  Reaches-trans second (relabelled r r' waiting n i s rest) =
      relabelled r r' waiting n i s (Reaches-trans second rest)

  flush_loop-Reaches :
      (fuel : ℕ) (r r' : Rga) → flush_loop uuid fuel r ≡ ok r' → Reaches r' r'.pending r r.pending
  unfolding flush_loop
  flush_loop-Reaches zero r r' run = cc
  flush_loop-Reaches (suc fuel) r r' run =
      let (res, pass, rest) = >>=-eq-ok (flush_pass uuid r.pending r [] false) _ run in
      let next : Rga = record (res.0) { pending = res.1 } in
      let first : Reaches (res.0) res.1 r r.pending =
        flush_pass-Reaches r.pending r [] false res.0 res.1 res.2 pass in
      elim (Bool-cases res.2) [
        | inl again ↦
            let looped : flush_loop uuid fuel next ≡ ok r' = rw again at rest in
            Reaches-trans
              (relabelled res.0 next res.1 refl refl refl (flush_loop-Reaches fuel next r' looped))
              first
        | inr over ↦
            let ended : next ≡ r' = ok-injective (rw over at rest) in
            Reaches-trans
              (relabelled res.0 next res.1 refl refl refl
                (subst (λ (z : Rga). Reaches z z.pending next res.1) ended stop))
              first
      ]

  pub dispatch-Reaches :
      (r : Rga) (op : Operation) (r' : Rga)
      → dispatch uuid r op ≡ ok r'
      → Reaches r' r'.pending r (r.pending ++ (op ∷ []))
  unfolding dispatch flush_pending
  dispatch-Reaches r op r' run = elim (Bool-cases (op.op_type == op_insert)) [
    | inl ins ↦ elim (Bool-cases (has_after r op.after)) [
      | inl ready ↦
          let (r1, here, rest) =
            >>=-eq-ok (apply_insert uuid r op) (flush_pending uuid)
              (sym (rw (ins, ready, dispatch) refl) ∙ run) in
          let (_, _, _, _, _, pending) = apply_insert-between uuid r op r1 here in
          inserted r r1 op (r.pending ++ (op ∷ [])) r.pending [] refl
            ((==_iff op.op_type op_insert).0 ins) ready here
            (subst (Reaches r' r'.pending r1) (pending ∙ sym (append-nil r.pending))
              (flush_loop-Reaches _ r1 r' rest))
      | inr blocked ↦ kept (sym (rw (ins, blocked, dispatch) refl) ∙ run)
    ]
    | inr other ↦ elim (Bool-cases (op.op_type == op_delete)) [
      | inr unknown ↦
          let same : r ≡ r' = ok-injective (sym (rw (other, unknown, dispatch) refl) ∙ run) in
          dropped r op (r.pending ++ (op ∷ [])) r.pending [] refl other unknown (
            rw (append-nil r.pending)
              (subst (λ (z : Rga). Reaches z z.pending r r.pending) same stop))
      | inl del ↦ elim (Bool-cases (has_node r op.node_id)) [
        | inl there ↦
            let here : apply_delete r op ≡ ok r' =
              sym (rw (other, del, there, dispatch) refl) ∙ run in
            deleted r r' op (r.pending ++ (op ∷ [])) r.pending [] refl
              ((==_iff op.op_type op_delete).0 del) there here
              (subst (Reaches r' r'.pending r')
                ((apply_delete-seen r op r' here).1 ∙ sym (append-nil r.pending)) stop)
        | inr blocked ↦ kept (sym (rw (other, del, blocked, dispatch) refl) ∙ run)
      ]
    ]
  ]
    where
      kept :
          ok (record r { pending = r.pending ++ (op ∷ []) }) ≡ ok r'
          → Reaches r' r'.pending r (r.pending ++ (op ∷ []))
      kept e =
          let q : Rga = record r { pending = r.pending ++ (op ∷ []) } in
          relabelled r q (r.pending ++ (op ∷ [])) refl refl refl (
            subst (λ (z : Rga). Reaches z z.pending q (r.pending ++ (op ∷ []))) (ok-injective e)
              stop)
