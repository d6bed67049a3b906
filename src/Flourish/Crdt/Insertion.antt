-- ===== src/Flourish/Crdt/Insertion.antt =====
-- The search of `applyInsert` finds the place that the forest gives the new node.
use tanzlaurel.Base.{
  ℕ, zero, suc, ◌+◌, ◌≤◌, ◌<◌, ◌≡◌, refl, ap, ◌∙◌, List, [], ◌∷◌, ◌++◌, true, false, Option, none,
  some, inl, inr, length, get_elem?, take, drop, arith, Bool-cases, Option-cases, Outcome, ok,
  le→leb, ◌↔◌,
}
use native.Mathlib.Nat.{le_refl, zero-add, suc-add, add-zero}
use mathlib.Core.Path.{subst}
use mathlib.Core.Option.{some-injective}
use tanzlaurel.Flourish.Uuid.{UuidText}
use tanzlaurel.Flourish.Crdt.Types.{NodeId, node_id_eq_iff, Node, Operation, Rga}
use tanzlaurel.Flourish.Crdt.Rga.{
  node_id_priority, same_after, skip_subtree, slices_insert, insert_loop, node_of,
}
use tanzlaurel.Flourish.Crdt.Positions.{IsIndex, IsCausal, rank, rank-some, skip_loop_lem}
use tanzlaurel.Flourish.Crdt.Forest.{
  Forest, leaf, tree, flatten, size, size-flatten, IsLaid, graft, rank-bounds,
}

pub same_after_iff : (a b : Option NodeId) → (same_after a b ≡ true) ↔ (a ≡ b)
unfolding same_after
same_after_iff none none = ((λ _. refl), (λ _. refl))
same_after_iff none (some b) = ((λ h. cc), (λ h. cc))
same_after_iff (some a) none = ((λ h. cc), (λ h. cc))
same_after_iff (some a) (some b) = (
  (λ h. ap some ((node_id_eq_iff a b).0 h)),
  (λ h. (node_id_eq_iff a b).1 (some-injective a b h)),
)

-- `insert_at xs i x` has `x` at position `i`.
unfoldable pub insert_at {ℓ} : {A : Type ℓ} → List A → ℕ → A → List A
insert_at xs zero x = x ∷ xs
insert_at [] (suc i) x = x ∷ []
insert_at (y ∷ ys) (suc i) x = y ∷ insert_at ys i x

insert_at-take {ℓ} :
    {A : Type ℓ} (xs : List A) (i : ℕ) (x : A)
    → i ≤ length xs
    → take i xs ++ (x ∷ drop i xs) ≡ insert_at xs i x
unfolding insert_at
insert_at-take xs zero x h = refl
insert_at-take [] (suc i) x h = absurd (omega arith)
insert_at-take (y ∷ ys) (suc i) x h = ap (◌∷◌ y) (insert_at-take ys i x (omega arith))

pub slices_insert-insert_at {ℓ} :
    {A : Type ℓ} (xs : List A) (i : ℕ) (x : A)
    → i ≤ length xs
    → slices_insert xs i x ≡ ok (insert_at xs i x)
unfolding slices_insert
slices_insert-insert_at xs i x h = rw (le→leb i (length xs) h) (ap ok (insert_at-take xs i x h))

pub insert_at-append_left {ℓ} :
    {A : Type ℓ} (xs ys : List A) (i : ℕ) (x : A)
    → i ≤ length xs
    → insert_at (xs ++ ys) i x ≡ insert_at xs i x ++ ys
unfolding insert_at
insert_at-append_left xs ys zero x h = refl
insert_at-append_left [] ys (suc i) x h = absurd (omega arith)
insert_at-append_left (z ∷ zs) ys (suc i) x h =
    ap (◌∷◌ z) (insert_at-append_left zs ys i x (omega arith))

pub insert_at-append_right {ℓ} :
    {A : Type ℓ} (xs ys : List A) (i : ℕ) (x : A)
    → insert_at (xs ++ ys) (length xs + i) x ≡ xs ++ insert_at ys i x
unfolding insert_at
insert_at-append_right [] ys i x = rw zero-add
insert_at-append_right (z ∷ zs) ys i x = rw suc-add (ap (◌∷◌ z) (insert_at-append_right zs ys i x))

-- What the search yields: a place `j` places into the forest, such that the new node there gives `g`.
abbrev pub Finds : Outcome ℕ → ℕ → Node → Forest → Forest → Type 0
Finds result o x f g =
    (j : ℕ) × (result ≡ ok (o + j)) × (j ≤ size f) × (insert_at (flatten f) j x ≡ flatten g)

-- What stands behind the forest hangs under something further up.
abbrev pub Ends : (NodeId → Option ℕ) → List Node → ℕ → ℕ → Type 0
Ends index nodes e up = (n : Node) → get_elem? nodes e ≡ some n → rank index n.after < up

module _ (uuid : UuidText) (r : Rga) (ix : IsIndex r.nodes r.index)
    (causal : IsCausal r.nodes r.index) where
  skip_subtree_lem :
      (o : ℕ) (n : Node) (c : Forest)
      → get_elem? r.nodes o ≡ some n
      → IsLaid r.nodes (suc o) (some n.id) c
      → suc (o + size c) ≤ length r.nodes
      → Ends r.index r.nodes (suc (o + size c)) (suc o)
      → skip_subtree r o ≡ ok (suc (o + size c))
  unfolding skip_subtree
  skip_subtree_lem o n c at laid fits ends =
      let root = rank-some r.index n.id o (ix.finds o n at) in
      rw at (
        skip_loop_lem r ix causal o n.id (ix.finds o n at) (suc (o + size c)) fits
          (λ i m oi ie h.
            let (lo, hi) =
              rank-bounds r.nodes r.index ix (suc o) (some n.id) c laid (rw root (le_refl _)) i m oi
                (omega arith) h in
            omega (arith, root))
          (λ m h. omega (arith, ends m h)) (suc (length r.nodes)) (suc o) (omega arith)
          (omega arith) (omega arith))

  -- What stands behind a node's subtree: its next sibling, or what stands behind the forest.
  pub behind :
      (o e : ℕ) (p : Option NodeId) (s : Forest)
      → IsLaid r.nodes e p s
      → rank r.index p ≤ o
      → Ends r.index r.nodes (e + size s) (rank r.index p)
      → Ends r.index r.nodes e (suc o)
  unfolding size
  behind o e p leaf laid le ends n h =
      let lt : rank r.index n.after < rank r.index p = ends n (rw add-zero h) in omega arith
  behind o e p (tree m c s) laid le ends n h =
      let same : n.after ≡ p = ground (arith, laid.0, laid.1) in rw same (omega arith)

  -- Among the siblings of a forest.
  pub search_siblings :
      (op : Operation) (f : Forest) (fuel o : ℕ)
      → IsLaid r.nodes o op.after f
      → rank r.index op.after ≤ o
      → o + size f ≤ length r.nodes
      → Ends r.index r.nodes (o + size f) (rank r.index op.after)
      → size f < fuel
      → Finds (insert_loop uuid fuel r op o) o (node_of op) f (graft uuid (node_of op) f)
  unfolding insert_loop graft insert_at size node_of
  search_siblings op leaf zero o laid le fits ends more = absurd (omega arith)
  search_siblings op leaf (suc fuel) o laid le fits ends more =
      elim (Option-cases (get_elem? r.nodes o)) [
        | inl e ↦ (0, rw (e, insert_loop) (ap ok (omega arith)), omega arith, refl)
        | inr (n, e) ↦ (0, rw (e, other n e, insert_loop) (ap ok (omega arith)), omega arith, refl)
      ]
    where
      other : (n : Node) → get_elem? r.nodes o ≡ some n → same_after n.after op.after ≡ false
      other n e = elim (Bool-cases (same_after n.after op.after)) [
        | inr q ↦ q
        | inl q ↦
            let lt : rank r.index n.after < rank r.index op.after = ends n (rw add-zero e) in
            absurd (omega (arith, ap (rank r.index) ((same_after_iff n.after op.after).0 q)))
      ]
  search_siblings op (tree n c s) zero o laid le fits ends more = absurd (omega arith)
  search_siblings op (tree n c s) (suc fuel) o laid le fits ends more =
      elim (Bool-cases (node_id_priority uuid op.node_id n.id)) [
        | inl q ↦ (0, rw (laid.0, sibling, q, insert_loop) (ap ok (omega arith)), omega arith, rw q)
        | inr q ↦
            let (j, run, jle, eq) =
              search_siblings op s fuel next laid.3 (omega arith) (omega arith) after_s
                (omega arith) in
            (
              suc (size c + j),
              rw (laid.0, sibling, q, insert_loop) (rw skipped (run ∙ ap ok (omega arith))),
              omega arith,
              rw q (
                  ap (◌∷◌ n)
                    (rw (← size-flatten c, insert_at-append_right) (ap (◌++◌ (flatten c)) eq))),
            )
      ]
    where
      next : ℕ
      next = suc (o + size c)

      sibling : same_after n.after op.after ≡ true
      sibling = (same_after_iff n.after op.after).1 laid.1

      after_s : Ends r.index r.nodes (next + size s) (rank r.index op.after)
      after_s m h = ends m (subst (λ (e : ℕ). get_elem? r.nodes e ≡ some m) (omega arith) h)

      skipped : skip_subtree r o ≡ ok (suc (o + size c))
      skipped =
          skip_subtree_lem o n c laid.0 laid.2 (omega arith)
            (behind o next op.after s laid.3 le after_s)
