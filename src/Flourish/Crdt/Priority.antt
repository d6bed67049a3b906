-- ===== src/Flourish/Crdt/Priority.antt =====
-- `nodeIDPriority` is a strict total order on identifiers of 16 bytes.
use tanzlaurel.Base.{
  ℕ, ◌^◌, ◌<◌, ◌≡◌, ◌≢◌, refl, sym, ap, ◌∙◌, List, [], ◌∷◌, true, false, arith, Bool-cases, inl,
  inr,
}
use mathlib.Core.Option.{some-injective}
use tanzlaurel.Flourish.Uuid.{UuidText, string_lt}
use tanzlaurel.Flourish.Crdt.Types.{NodeId}
use tanzlaurel.Flourish.Crdt.Rga.{node_id_priority}

string_lt_asym : (xs ys : List ℕ) → string_lt xs ys ≡ true → string_lt ys xs ≡ false
unfolding string_lt
string_lt_asym [] [] h = refl
string_lt_asym [] (y ∷ ys) h = refl
string_lt_asym (x ∷ xs) [] h = cc
string_lt_asym (x ∷ xs) (y ∷ ys) h = ground (arith, string_lt_asym xs ys)

string_lt_trans :
    (xs ys zs : List ℕ) → string_lt xs ys ≡ true → string_lt ys zs ≡ true → string_lt xs zs ≡ true
unfolding string_lt
string_lt_trans [] [] zs h k = cc
string_lt_trans [] (y ∷ ys) [] h k = cc
string_lt_trans [] (y ∷ ys) (z ∷ zs) h k = refl
string_lt_trans (x ∷ xs) [] zs h k = cc
string_lt_trans (x ∷ xs) (y ∷ ys) [] h k = cc
string_lt_trans (x ∷ xs) (y ∷ ys) (z ∷ zs) h k = ground (arith, string_lt_trans xs ys zs)

cons-eq : {x y : ℕ} {xs ys : List ℕ} → x ≡ y → xs ≡ ys → x ∷ xs ≡ y ∷ ys
cons-eq e f = cc

string_lt_total : (xs ys : List ℕ) → string_lt xs ys ≡ false → string_lt ys xs ≡ false → xs ≡ ys
unfolding string_lt
string_lt_total [] [] h k = refl
string_lt_total [] (y ∷ ys) h k = cc
string_lt_total (x ∷ xs) [] h k = cc
string_lt_total (x ∷ xs) (y ∷ ys) h k =
    let same : x ≡ y = ground arith in
    cons-eq same (string_lt_total xs ys (ground arith) (ground arith))

abbrev pub IsId : NodeId → Type 0
IsId a = a.replica_id < 2 ^ 128

module _ (uuid : UuidText) where
  to_string-injective :
      (u v : ℕ) → u < 2 ^ 128 → v < 2 ^ 128 → uuid.to_string u ≡ uuid.to_string v → u ≡ v
  to_string-injective u v hu hv e =
      some-injective u v
        (sym (uuid.parse-to_string u hu) ∙ ap uuid.parse e ∙ uuid.parse-to_string v hv)

  pub priority_asym :
      (a b : NodeId) → node_id_priority uuid a b ≡ true → node_id_priority uuid b a ≡ false
  unfolding node_id_priority
  priority_asym a b h =
      ground (arith, string_lt_asym (uuid.to_string a.replica_id) (uuid.to_string b.replica_id))

  pub priority_trans :
      (a b c : NodeId)
      → node_id_priority uuid a b ≡ true
      → node_id_priority uuid b c ≡ true
      → node_id_priority uuid a c ≡ true
  unfolding node_id_priority
  priority_trans a b c h k = ground (
    arith,
    string_lt_trans (uuid.to_string a.replica_id) (uuid.to_string b.replica_id)
        (uuid.to_string c.replica_id),
  )

  pub priority_total :
      (a b : NodeId)
      → IsId a
      → IsId b
      → a ≢ b
      → node_id_priority uuid a b ≡ false
      → node_id_priority uuid b a ≡ true
  unfolding node_id_priority
  priority_total a b ha hb ne h =
      elim (Bool-cases (string_lt (uuid.to_string b.replica_id) (uuid.to_string a.replica_id))) [
        | inl less ↦ ground arith
        | inr more ↦
            let text : b.timestamp ≡ a.timestamp
                → uuid.to_string a.replica_id ≡ uuid.to_string b.replica_id =
              λ e.
                string_lt_total (uuid.to_string a.replica_id) (uuid.to_string b.replica_id)
                  (ground arith) more in
            let apart : b.timestamp ≢ a.timestamp = λ e.
              ne (same (to_string-injective a.replica_id b.replica_id ha hb (text e)) (sym e)) in
            ground arith
      ]
    where
      same : {a b : NodeId} → a.replica_id ≡ b.replica_id → a.timestamp ≡ b.timestamp → a ≡ b
      same e f = cc
