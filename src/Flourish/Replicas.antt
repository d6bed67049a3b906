-- ===== src/Flourish/Replicas.antt =====
-- Two replicas that get the same operations in different orders.
use tanzlaurel.Base.{
  zero, suc, Outcome, panic, stuck, ◌∙◌, ℕ, ◌≡◌, ◌<◌, refl, sym, ap, List, [], ◌∷◌, some, inl, inr,
  ok, arith, true,
}
use mathlib.Core.Option.{some-injective}
use tanzlaurel.Base.Members.{In, All-In, Distinct-of_Apart, Distinct-names}
use tanzlaurel.Flourish.Crdt.Types.{NodeId, Operation, Rga, op_insert, op_delete, new_rga}
use tanzlaurel.Flourish.Crdt.Rga.{text, has_node, is_descendant_of}
use tanzlaurel.Flourish.Crdt.Priority.{IsId}
use tanzlaurel.Flourish.Crdt.Accounts.{Holds}
use tanzlaurel.Flourish.Crdt.Convergence.{
  apply_all, AreCoherent, SameOperations, apply_all-converges,
}
use tanzlaurel.Flourish.Crdt.Delivery.{AreClosed, apply_all-delivers}
use tanzlaurel.Flourish.Examples.{one_digit, id_of, type_a, type_b, type_c, delete_c, program}

abbrev sent : List Operation
sent = type_a ∷ type_c ∷ type_b ∷ delete_c ∷ []

-- Reversed, with one operation twice.
abbrev received : List Operation
received = delete_c ∷ type_b ∷ type_c ∷ type_b ∷ type_a ∷ []

sent-AreCoherent : AreCoherent sent
sent-AreCoherent = record {
  requests =
      Distinct-names (λ (x : Operation). x.request_id) sent
        (Distinct-of_Apart (λ (x : Operation). x.request_id) sent
          (
            ((λ e. cc), ((λ e. cc), ((λ e. cc), tt))),
            (((λ e. cc), ((λ e. cc), tt)), (((λ e. cc), tt), (tt, tt))),
          ));
  insertions = λ x y mx my kx ky e.
      Distinct-names key sent
        (Distinct-of_Apart key sent (
          ((λ e. cc), ((λ e. cc), ((λ e. cc), tt))),
          (((λ e. cc), ((λ e. cc), tt)), (((λ e. cc), tt), (tt, tt))),
        ))
        x y mx my (ap (λ n. (x.op_type, n)) e ∙ ap (λ t. (t, y.node_id)) (kx ∙ sym ky));
  ids = λ x m t.
      All-In (λ (z : Operation). IsId z.node_id) sent
        (omega arith, (omega arith, (omega arith, (omega arith, tt)))) x m;
}
  where
    key : Operation → ℕ × NodeId
    key x = (x.op_type, x.node_id)

sent-received : SameOperations sent received
sent-received = (
  All-In (λ x. In x received) sent
      (inr (inr (inr (inr (inl refl)))), (inr (inr (inl refl)), (inr (inl refl), (inl refl, tt)))),
  All-In (λ x. In x sent) received
      (
        inr (inr (inr (inl refl))),
        (inr (inr (inl refl)), (inr (inl refl), (inr (inr (inl refl)), (inl refl, tt)))),
      ),
)

sent-AreClosed : AreClosed sent
sent-AreClosed = record {
  parents =
      All-In
        (λ x.
          x.op_type ≡ op_insert
          → (a : NodeId) → x.after ≡ some a
          → (z : Operation) × In z sent
            × (z.op_type ≡ op_insert)
            × (z.node_id ≡ a)
            × (a.timestamp < x.node_id.timestamp))
        sent
        (
          (λ t a e. cc),
          (
            under_a type_c (omega arith) refl,
            (under_a type_b (omega arith) refl, ((λ t a e. cc), tt)),
          ),
        );
  targets =
      All-In
        (λ x.
          x.op_type ≡ op_delete
          → (z : Operation) × In z sent × (z.op_type ≡ op_insert) × (z.node_id ≡ x.node_id))
        sent
        ((λ t. cc), ((λ t. cc), ((λ t. cc), ((λ t. (type_c, inr (inl refl), refl, refl)), tt))));
}
  where
    under_a :
        (x : Operation)
        → 1 < x.node_id.timestamp
        → x.after ≡ some (id_of 1 1)
        → x.op_type ≡ op_insert
        → (a : NodeId) → x.after ≡ some a
        → (z : Operation) × In z sent
          × (z.op_type ≡ op_insert)
          × (z.node_id ≡ a)
          × (a.timestamp < x.node_id.timestamp)
    under_a x later after t a e =
        let same : id_of 1 1 ≡ a = some-injective (id_of 1 1) a (sym after ∙ e) in
        (type_a, inl refl, refl, same, rw (← same) later)

apply_all-converges_example :
    (r : Rga) × (q : Rga) × (apply_all one_digit (new_rga 1) sent ≡ ok r)
    × (apply_all one_digit (new_rga 2) received ≡ ok q)
    × (r.nodes ≡ q.nodes)
    × (text r ≡ text q)
apply_all-converges_example =
    apply_all-converges one_digit 1 2 sent received sent-AreCoherent sent-received

apply_all-delivers_example :
    (r : Rga) × (apply_all one_digit (new_rga 1) sent ≡ ok r)
    × (r.pending ≡ [])
    × ((x : Operation) → In x sent → x.op_type ≡ op_insert → has_node r x.node_id ≡ true)
    × ((x : Operation)
        → In x sent
        → x.op_type ≡ op_delete
        → Holds r (λ n. (n.id ≡ x.node_id) × (n.deleted ≡ true)))
apply_all-delivers_example = apply_all-delivers one_digit 1 sent sent-AreCoherent sent-AreClosed

-- A second insertion under an id that is in use, as its own parent.
abbrev first : Operation
first = record type_c { request_id = 5 }

abbrev own_parent : Operation
own_parent = record type_c { request_id = 6; after = some (id_of 1 2) }

-- One more at the start of the text, older than what is there.
abbrev older : Operation
older = record type_a { request_id = 7; node_id = id_of 2 0 }

abbrev or_empty : Outcome Rga → Rga
or_empty (ok r) = r
or_empty panic = new_rga 0
or_empty stuck = new_rga 0

abbrev knotted : Rga
knotted = or_empty (apply_all one_digit (new_rga 0) (type_a ∷ first ∷ own_parent ∷ []))

-- The recursion of `isDescendantOf` does not end there, with any fuel.
never_ends : (fuel : ℕ) → is_descendant_of fuel knotted 2 (id_of 1 1) ≡ stuck
unfolding program
never_ends zero = refl
never_ends (suc fuel) = never_ends fuel

apply_runs_on : apply_all one_digit knotted (older ∷ []) ≡ stuck
unfolding program
apply_runs_on = refl
