-- ===== src/Flourish/Examples.antt =====
-- Runs of the blog server on small inputs: three characters typed by two replicas.
use tanzlaurel.Base.{
  ℕ, ◌≡◌, ◌≢◌, refl, sym, ap, List, [], ◌∷◌, ◌++◌, map, Bool, true, false, Option, none, some,
  Outcome, ok, panic, stuck, ◌>>=◌, arith, subst,
}
use tanzlaurel.Base.Errors
use tanzlaurel.Flourish.Uuid.{UuidText, string_lt}
use tanzlaurel.Flourish.Crdt.Types.{NodeId, Operation, Rga, new_rga, new_lamport_clock, update}
use tanzlaurel.Flourish.Crdt.Rga.{
  contains, same_after, is_descendant_of, skip_loop, skip_subtree, slices_insert, reindex, node_of,
  start_idx, has_after, has_node, apply_delete, node_id_priority, insert_loop, apply_insert,
  flush_pass, flush_loop, flush_pending, dispatch, note_seen, apply, text, rune, visible_text,
  is_node_authenticated,
}
use tanzlaurel.Flourish.Crdt.Buffer.{IsFresh}
use tanzlaurel.Flourish.Crdt.Forest.{place}
use tanzlaurel.Flourish.Crdt.Refinement.{Represents, apply_insert-place}
use tanzlaurel.Flourish.Crdt.Deletion.{bury_node, bury, apply_delete-bury}
use tanzlaurel.Flourish.Crdt.Apply.{IsWell, new_rga-IsWell, apply-IsWell, apply_again}
use tanzlaurel.Flourish.Crdt.Convergence.{apply_all}
use tanzlaurel.Flourish.Crdt.Snapshot.{export, import_rga}
use tanzlaurel.Flourish.Crdt.Restoring.{import-export}

-- A text form that satisfies the law: one digit.
abbrev pub one_digit : UuidText
one_digit = record {
  to_string = λ u. u ∷ [];
  parse = parse;
  rest_of = λ s. 0;
  parse-to_string = λ u h. refl;
}
  where
    parse : List ℕ → Option ℕ
    parse [] = none
    parse (x ∷ xs) = some x

abbrev ins : ℕ → ℕ → ℕ → Option NodeId → ℕ → Operation
ins request_id replica ts after value = record {
  request_id = request_id;
  op_type = 1;
  node_id = record { replica_id = replica; timestamp = ts };
  after = after;
  value = value;
  authenticated = true;
}

abbrev pub id_of : ℕ → ℕ → NodeId
id_of replica ts = record { replica_id = replica; timestamp = ts }

unfoldable pub program : Unit {0}
unfolding contains same_after is_descendant_of skip_loop skip_subtree slices_insert reindex node_of
    start_idx has_after has_node apply_delete node_id_priority insert_loop apply_insert flush_pass
    flush_loop flush_pending dispatch note_seen apply text rune visible_text new_rga
    new_lamport_clock string_lt update is_node_authenticated apply_all
program = tt

abbrev pub type_a : Operation
type_a = ins 1 1 1 none b'a'

abbrev pub type_c : Operation
type_c = ins 2 1 2 (some (id_of 1 1)) b'c'

abbrev pub type_b : Operation
type_b = ins 3 1 3 (some (id_of 1 1)) b'b'

abbrev pub delete_c : Operation
delete_c = record {
  request_id = 4;
  op_type = 2;
  node_id = id_of 1 2;
  after = none;
  value = 0;
  authenticated = false;
}

in_order :
    (apply_all one_digit (new_rga 0) (type_a ∷ type_c ∷ type_b ∷ []) >>= λ r. ok (text r))
    ≡ ok (b'a' ∷ b'b' ∷ b'c' ∷ [])
unfolding program
in_order = refl

out_of_order :
    (apply_all one_digit (new_rga 0) (type_b ∷ type_c ∷ type_a ∷ []) >>= λ r. ok (text r))
    ≡ ok (b'a' ∷ b'b' ∷ b'c' ∷ [])
unfolding program
out_of_order = refl

deleted :
    (apply_all one_digit (new_rga 0) (delete_c ∷ type_c ∷ type_a ∷ []) >>= λ r. ok (text r))
    ≡ ok (b'a' ∷ [])
unfolding program
deleted = refl

-- The array after the first two operations, and that it is well formed.
abbrev or_new : Outcome (Rga × Bool) → Rga
or_new (ok res) = res.0
or_new panic = new_rga 0
or_new stuck = new_rga 0

abbrev pub step : Rga → Operation → Rga
step r op = or_new (apply one_digit r op)

abbrev rga_a : Rga
rga_a = step (new_rga 0) type_a

abbrev pub rga_ac : Rga
rga_ac = step rga_a type_c

step-IsWell :
    (r : Rga) (op : Operation)
    → IsWell r
    → IsFresh r.index (r.pending ++ (op ∷ []))
    → IsWell (step r op)
step-IsWell r op well fresh =
    let (r', run, well', seen) = apply-IsWell one_digit r op well fresh in
    subst IsWell (sym (ap or_new run)) well'

rga_a-IsWell : IsWell rga_a
unfolding program
rga_a-IsWell = step-IsWell (new_rga 0) type_a (new_rga-IsWell 0) ((λ e. refl), tt, tt)

pub rga_ac-IsWell : IsWell rga_ac
unfolding program
rga_ac-IsWell = step-IsWell rga_a type_c rga_a-IsWell ((λ e. refl), tt, tt)

apply_insert-place_example :
    (r' : Rga) × (apply_insert one_digit rga_ac type_b ≡ ok r')
    × Represents r' (place one_digit (node_of type_b) (some (id_of 1 1)) rga_ac-IsWell.forest)
    × (r'.pending ≡ rga_ac.pending)
    × (r'.seen ≡ rga_ac.seen)
    × (r'.clock ≡ rga_ac.clock)
    × ((a : NodeId) → a ≢ id_of 1 3 → rga_ac.index a ≡ none → r'.index a ≡ none)
unfolding program
apply_insert-place_example =
    apply_insert-place one_digit rga_ac rga_ac-IsWell.forest rga_ac-IsWell.represents type_b refl
      refl

apply-IsWell_example :
    (r' : Rga) × (apply one_digit rga_ac type_b ≡ ok (r', true))
    × IsWell r'
    × (contains 3 r'.seen ≡ true)
unfolding program
apply-IsWell_example = apply-IsWell one_digit rga_ac type_b rga_ac-IsWell ((λ e. refl), tt, tt)

apply_delete-bury_example :
    (apply_delete rga_ac delete_c
      ≡ ok (record rga_ac { nodes = map (bury_node (id_of 1 2)) rga_ac.nodes }))
    × Represents
        (record rga_ac { nodes = map (bury_node (id_of 1 2)) rga_ac.nodes })
        (bury (id_of 1 2) rga_ac-IsWell.forest)
unfolding program
apply_delete-bury_example =
    apply_delete-bury rga_ac rga_ac-IsWell.forest rga_ac-IsWell.represents delete_c refl

apply_again_example : apply one_digit (step rga_ac type_b) type_b ≡ ok (step rga_ac type_b, false)
unfolding program
apply_again_example =
    apply_again one_digit rga_ac type_b (step rga_ac type_b) true rga_ac-IsWell
      ((λ e. refl), tt, tt) refl

import-export_example : import_rga one_digit (export one_digit rga_ac) ≡ Errors.ok rga_ac
unfolding program
import-export_example = import-export one_digit rga_ac rga_ac-IsWell (record {
  replica = omega arith;
  seen = (omega arith, (omega arith, tt));
  values = (refl, (refl, tt));
})
