-- ===== src/Flourish/Crdt/History.antt =====
-- What an array remembers of the operations that `Apply` was given, whatever their order.
use tanzlaurel.Base.{
  ℕ, ◌≡◌, ◌≢◌, refl, sym, ap, ◌∙◌, subst, List, [], ◌∷◌, ◌++◌, Bool, true, false, Option, none, inl,
  inr, ◌⊎◌, ◌==◌, ==_iff, Bool-cases, Option-cases, ok, ◌>>=◌, >>=-eq-ok, ok-injective, arith,
}
use tanzlaurel.Base.Members.{In, In-left, In-right, In-cases}
use tanzlaurel.Flourish.Uuid.{UuidText}
use tanzlaurel.Flourish.Crdt.Types.{NodeId, Operation, Rga, op_insert, new_rga}
use tanzlaurel.Flourish.Crdt.Rga.{contains, note_seen, dispatch, apply}
use tanzlaurel.Flourish.Crdt.Forest.{leaf}
use tanzlaurel.Flourish.Crdt.Buffer.{IsFresh, IsBlocked, All-append}
use tanzlaurel.Flourish.Crdt.Apply.{IsWell, apply-IsWell}
use tanzlaurel.Flourish.Crdt.Priority.{IsId}
use tanzlaurel.Flourish.Crdt.Reach.{dispatch-Reaches, Reaches-seen}
use tanzlaurel.Flourish.Crdt.Accounts.{Accounts, index-holds}
use tanzlaurel.Flourish.Crdt.Accounts.Steps.{Accounts-relabelled, Reaches-Accounts}

-- A set of operations that the replicas made: a request id names one operation, the node id of an
-- insertion names one insertion, and a replica id has 128 bits.
pub record IsCoherent (all : Operation → Type 0) : Type 0 where
  pub requests : (x y : Operation) → all x → all y → x.request_id ≡ y.request_id → x ≡ y
  pub insertions :
      (x y : Operation)
      → all x
      → all y
      → x.op_type ≡ op_insert
      → y.op_type ≡ op_insert
      → x.node_id ≡ y.node_id
      → x ≡ y
  pub ids : (x : Operation) → all x → x.op_type ≡ op_insert → IsId x.node_id

-- The array was given the operations `given`, and no other.
pub record IsHistory (uuid : UuidText) (given : Operation → Type 0) (r : Rga) : Type 0 where
  pub accounts : Accounts uuid given r r.pending
  pub blocked : IsBlocked r r.pending
  pub noted : (x : Operation) → given x → contains x.request_id r.seen ≡ true
  pub recorded : (k : ℕ) → contains k r.seen ≡ true → (x : Operation) × given x × (x.request_id ≡ k)

IsFresh-snoc :
    (index : NodeId → Option ℕ) (xs : List Operation) (op : Operation)
    → IsFresh index xs
    → (op.op_type ≡ op_insert → index op.node_id ≡ none)
    → ((x : Operation)
        → In x xs
        → x.op_type ≡ op_insert
        → op.op_type ≡ op_insert
        → op.node_id ≢ x.node_id)
    → IsFresh index (xs ++ (op ∷ []))
IsFresh-snoc index [] op h free apart = (free, tt, tt)
IsFresh-snoc index (x ∷ xs) op h free apart = (
  h.0,
  All-append _ xs (op ∷ []) h.1 (apart x (inl refl), tt),
  IsFresh-snoc index xs op h.2 free (λ y m. apart y (inr m)),
)

module _ (uuid : UuidText) where
  pub new_rga-IsHistory : (replica_id : ℕ) → IsHistory uuid (λ x. ⊥) (new_rga replica_id)
  unfolding new_rga contains
  new_rga-IsHistory replica_id = record {
    accounts = record {
      forest = leaf;
      represents = record {
        reads = refl;
        rooted = tt;
        indexed = record { finds = λ i n at. cc; found = λ a i at. cc };
      };
      ordered = tt;
      fresh = tt;
      ids = λ n m. absurd m;
      made = λ n m. absurd m;
      buried = λ n m. absurd m;
      known = λ o m. absurd m;
      holds_insert = λ o g. absurd g;
      holds_delete = λ o g. absurd g;
    };
    blocked = tt;
    noted = λ x g. absurd g;
    recorded = λ k seen. absurd (cc seen);
  }

module _ (uuid : UuidText) (given : Operation → Type 0) (r : Rga) where
  IsHistory-IsWell : IsHistory uuid given r → IsWell r
  IsHistory-IsWell h = record {
    forest = h.accounts.forest;
    represents = h.accounts.represents;
    fresh = h.accounts.fresh;
    blocked = h.blocked;
  }

  -- Another description of the same operations.
  pub IsHistory-same :
      (other : Operation → Type 0)
      → ((x : Operation) → given x → other x)
      → ((x : Operation) → other x → given x)
      → IsHistory uuid given r
      → IsHistory uuid other r
  IsHistory-same other there back h =
      let a = h.accounts in
      record {
        accounts = record {
          forest = a.forest;
          represents = a.represents;
          ordered = a.ordered;
          fresh = a.fresh;
          ids = a.ids;
          made = λ n m. let (o, g, by) = a.made n m in (o, there o g, by);
          buried = λ n m gone. let (o, g, by) = a.buried n m gone in (o, there o g, by);
          known = λ o m. there o (a.known o m);
          holds_insert = λ o g. a.holds_insert o (back o g);
          holds_delete = λ o g. a.holds_delete o (back o g);
        };
        blocked = h.blocked;
        noted = λ x g. h.noted x (back x g);
        recorded = λ k seen. let (x, g, e) = h.recorded k seen in (x, there x g, e);
      }

  module _ (op : Operation) where
    abbrev pub Joined : Operation → Type 0
    Joined x = given x ⊎ (x ≡ op)

    -- The operation waits behind the others.
    Accounts-Joined :
        (q : Rga) (waiting : List Operation)
        → IsFresh q.index (waiting ++ (op ∷ []))
        → Accounts uuid given q waiting
        → Accounts uuid Joined q (waiting ++ (op ∷ []))
    Accounts-Joined q waiting fresh a = record {
      forest = a.forest;
      represents = a.represents;
      ordered = a.ordered;
      fresh = fresh;
      ids = a.ids;
      made = λ n m. let (o, g, by) = a.made n m in (o, inl g, by);
      buried = λ n m gone. let (o, g, by) = a.buried n m gone in (o, inl g, by);
      known = λ o m. elim (In-cases o waiting (op ∷ []) m) [
        | inl w ↦ inl (a.known o w)
        | inr last ↦ elim last [ inl e ↦ inr e | inr none' ↦ absurd none' ]
      ];
      holds_insert = λ o g t. elim g [
        | inr e ↦ inl (In-right o waiting (op ∷ []) (inl e))
        | inl old ↦ elim (a.holds_insert o old t) [
          | inl w ↦ inl (In-left o waiting (op ∷ []) w)
          | inr there ↦ inr there
        ]
      ];
      holds_delete = λ o g t. elim g [
        | inr e ↦ inl (In-right o waiting (op ∷ []) (inl e))
        | inl old ↦ elim (a.holds_delete o old t) [
          | inl w ↦ inl (In-left o waiting (op ∷ []) w)
          | inr there ↦ inr there
        ]
      ];
    }

    module _ (all : Operation → Type 0) (coherent : IsCoherent all)
        (within : (x : Operation) → given x → all x) (op_in : all op)
        (h : IsHistory uuid given r) where
      -- An insertion with the id of a given one is that one, so it was seen.
      not_given :
          contains op.request_id r.seen ≡ false
          → op.op_type ≡ op_insert
          → (x : Operation) → given x
          → x.op_type ≡ op_insert
          → op.node_id ≢ x.node_id
      not_given new kind x g t e =
          let same : op ≡ x = coherent.insertions op x op_in (within x g) kind t e in
          let seen : contains op.request_id r.seen ≡ true =
            subst (λ (z : Operation). contains z.request_id r.seen ≡ true) (sym same)
              (h.noted x g) in
          cc

      is_fresh : contains op.request_id r.seen ≡ false → IsFresh r.index (r.pending ++ (op ∷ []))
      is_fresh new =
          IsFresh-snoc r.index r.pending op h.accounts.fresh
            (λ kind. elim (Option-cases (r.index op.node_id)) [
              | inl e ↦ e
              | inr (i, at) ↦
                  let (n, m, id) = index-holds r h.accounts.represents.indexed op.node_id i at in
                  let (x, g, by) = h.accounts.made n m in
                  absurd (not_given new kind x g by.kind (sym id ∙ by.id))
            ])
            (λ x m t kind. not_given new kind x (h.accounts.known x m) t)

      pub apply-IsHistory :
          (r' : Rga) × (b : Bool) × (apply uuid r op ≡ ok (r', b)) × IsHistory uuid Joined r'
      unfolding apply note_seen contains
      apply-IsHistory = elim (Bool-cases (contains op.request_id r.seen)) [
        | inl dup ↦
            let (x, g, e) = h.recorded op.request_id dup in
            let same : x ≡ op = coherent.requests x op (within x g) op_in e in
            (
              r,
              false,
              rw (dup, apply),
              IsHistory-same Joined (λ y m. inl m)
                  (λ y m. elim m [ inl old ↦ old | inr here ↦ subst given (same ∙ sym here) g ]) h,
            )
        | inr new ↦
            let fresh = is_fresh new in
            let (r', run0', well, _) = apply-IsWell uuid r op (IsHistory-IsWell h) fresh in
            let run0 : apply uuid r op ≡ ok (r', true) = rw new at run0' in
            let opened : (dispatch uuid (note_seen r op) op >>= λ z. ok (z, true)) ≡ ok (r', true) =
              sym (rw (new, apply) refl) ∙ run0 in
            let (z, run', last) = >>=-eq-ok (dispatch uuid (note_seen r op) op) _ opened in
            let same : z ≡ r' = ap (λ (p : Rga × Bool). p.0) (ok-injective last) in
            let steps =
              dispatch-Reaches uuid (note_seen r op) op r'
                (subst (λ (q : Rga). dispatch uuid (note_seen r op) op ≡ ok q) same run') in
            let seen : r'.seen ≡ op.request_id ∷ r.seen = Reaches-seen uuid steps in
            (
              r',
              true,
              run0,
              record {
                accounts = Reaches-Accounts uuid Joined ids steps (
                    Accounts-Joined (note_seen r op) r.pending fresh (
                      Accounts-relabelled uuid given r r.pending (note_seen r op) refl refl
                        h.accounts));
                blocked = well.blocked;
                noted = rw seen noted;
                recorded = rw seen recorded;
              },
            )
      ]
        where
          ids : (x : Operation) → Joined x → x.op_type ≡ op_insert → IsId x.node_id
          ids x (inl g) t = coherent.ids x (within x g) t
          ids x (inr e) t = coherent.ids x (subst all (sym e) op_in) t

          noted : (x : Operation) → Joined x → contains x.request_id (op.request_id ∷ r.seen) ≡ true
          noted x (inl g) = let old = h.noted x g in ground arith
          noted x (inr e) = rw e (ground arith)

          recorded :
              (k : ℕ)
              → contains k (op.request_id ∷ r.seen) ≡ true
              → (x : Operation) × Joined x × (x.request_id ≡ k)
          recorded k seen = elim (Bool-cases (k == op.request_id)) [
            | inl e ↦ (op, inr refl, sym ((==_iff k op.request_id).0 e))
            | inr ne ↦ let (x, g, e) = h.recorded k (rw (ne, contains) at seen) in (x, inl g, e)
          ]
