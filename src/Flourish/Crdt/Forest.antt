-- ===== src/Flourish/Crdt/Forest.antt =====
-- The document as the array means it: a forest of nodes, each under the node that it was inserted
-- after, and the reading of that forest from left to right, a node before what is under it.
use tanzlaurel.Base.{
  ℕ, suc, ◌+◌, ◌≤◌, ◌<◌, ◌≡◌, refl, ap, ◌∙◌, List, [], ◌∷◌, ◌++◌, Option, none, some, inl, inr,
  dec_lt, if◌then◌else◌, length, get_elem?, length-append, arith, Bool-cases,
}
use native.Mathlib.Nat.{le_refl}
use mathlib.Core.Path.{subst}
use tanzlaurel.Flourish.Uuid.{UuidText}
use tanzlaurel.Flourish.Crdt.Types.{NodeId, node_id_eq, node_id_eq_iff, Node}
use tanzlaurel.Flourish.Crdt.Rga.{node_id_priority}
use tanzlaurel.Flourish.Crdt.Positions.{IsIndex, rank, rank-some}

-- `tree n children siblings`: a node, what is under it, and its later siblings.
pub data Forest : Type 0 where
  leaf : Forest
  tree : Node → Forest → Forest → Forest

abbrev pub flatten : Forest → List Node
flatten leaf = []
flatten (tree n children siblings) = n ∷ flatten children ++ flatten siblings

unfoldable pub size : Forest → ℕ
size leaf = 0
size (tree n children siblings) = suc (size children + size siblings)

pub size-flatten : (f : Forest) → length (flatten f) ≡ size f
unfolding size
size-flatten leaf = refl
size-flatten (tree n c s) =
    omega (arith, size-flatten c, size-flatten s, length-append (flatten c) (flatten s))

-- Every node hangs under the node that its `after` names; the top level has `after` equal to `p`.
abbrev pub IsRooted : Option NodeId → Forest → Type 0
IsRooted p leaf = Unit {0}
IsRooted p (tree n children siblings) =
    (n.after ≡ p) × IsRooted (some n.id) children × IsRooted p siblings

module _ (uuid : UuidText) where
  -- Among siblings: before the first one of lower priority.
  unfoldable pub graft : Node → Forest → Forest
  graft x leaf = tree x leaf leaf
  graft x (tree n children siblings) =
      if node_id_priority uuid x.id n.id
      then tree x leaf (tree n children siblings)
      else tree n children (graft x siblings)

  -- Under the node with the id `a`.
  unfoldable pub plant : NodeId → Node → Forest → Forest
  plant a x leaf = leaf
  plant a x (tree n children siblings) =
      if node_id_eq a n.id
      then tree n (graft x children) siblings
      else tree n (plant a x children) (plant a x siblings)

  -- What an insertion means.
  unfoldable pub place : Node → Option NodeId → Forest → Forest
  place x none f = graft x f
  place x (some a) f = plant a x f

  pub graft-IsRooted :
      (p : Option NodeId) (x : Node) (f : Forest)
      → x.after ≡ p
      → IsRooted p f
      → IsRooted p (graft x f)
  unfolding graft
  graft-IsRooted p x leaf e h = (e, tt, tt)
  graft-IsRooted p x (tree n c s) e h = elim (Bool-cases (node_id_priority uuid x.id n.id)) [
    | inl q ↦ rw q (e, tt, h)
    | inr q ↦ rw q (h.0, h.1, graft-IsRooted p x s e h.2)
  ]

  pub plant-IsRooted :
      (p : Option NodeId) (a : NodeId) (x : Node) (f : Forest)
      → x.after ≡ some a
      → IsRooted p f
      → IsRooted p (plant a x f)
  unfolding plant
  plant-IsRooted p a x leaf e h = tt
  plant-IsRooted p a x (tree n c s) e h = elim (Bool-cases (node_id_eq a n.id)) [
    | inl q ↦
        rw q
          (h.0, graft-IsRooted (some n.id) x c (e ∙ ap some ((node_id_eq_iff a n.id).0 q)) h.1, h.2)
    | inr q ↦ rw q (h.0, plant-IsRooted (some n.id) a x c e h.1, plant-IsRooted p a x s e h.2)
  ]

  pub place-IsRooted : (x : Node) (f : Forest) → IsRooted none f → IsRooted none (place x x.after f)
  unfolding place
  place-IsRooted x f h = go x.after refl
    where
      go : (o : Option NodeId) → x.after ≡ o → IsRooted none (place x o f)
      go none e = graft-IsRooted none x f e h
      go (some a) e = plant-IsRooted none a x f e h

-- The forest stands in the list from position `o` on.
abbrev pub IsLaid : List Node → ℕ → Option NodeId → Forest → Type 0
IsLaid nodes o p leaf = Unit {0}
IsLaid nodes o p (tree n children siblings) =
    (get_elem? nodes o ≡ some n)
    × (n.after ≡ p)
    × IsLaid nodes (suc o) (some n.id) children
    × IsLaid nodes (suc (o + size children)) p siblings

-- `xs` stands in the list from position `o` on.
abbrev IsAt : List Node → ℕ → List Node → Type 0
IsAt nodes o [] = Unit {0}
IsAt nodes o (x ∷ xs) = (get_elem? nodes o ≡ some x) × IsAt nodes (suc o) xs

IsAt-append :
    (nodes xs ys : List Node) (o : ℕ)
    → IsAt nodes o (xs ++ ys)
    → IsAt nodes o xs × IsAt nodes (o + length xs) ys
IsAt-append nodes [] ys o h = (tt, subst (λ (k : ℕ). IsAt nodes k ys) (omega arith) h)
IsAt-append nodes (x ∷ xs) ys o h =
    let (l, r) = IsAt-append nodes xs ys (suc o) h.1 in
    ((h.0, l), subst (λ (k : ℕ). IsAt nodes k ys) (omega arith) r)

IsLaid-of_IsAt :
    (nodes : List Node) (o : ℕ) (p : Option NodeId) (f : Forest)
    → IsRooted p f
    → IsAt nodes o (flatten f)
    → IsLaid nodes o p f
IsLaid-of_IsAt nodes o p leaf h at = tt
IsLaid-of_IsAt nodes o p (tree n c s) h at =
    let (l, r) = IsAt-append nodes (flatten c) (flatten s) (suc o) at.1 in
    (
      at.0,
      h.0,
      IsLaid-of_IsAt nodes (suc o) (some n.id) c h.1 l,
      IsLaid-of_IsAt nodes (suc (o + size c)) p s h.2
          (subst (λ (k : ℕ). IsAt nodes k (flatten s)) (omega (arith, size-flatten c)) r),
    )

IsAt-cons :
    (y : Node) (nodes xs : List Node) (o : ℕ) → IsAt nodes o xs → IsAt (y ∷ nodes) (suc o) xs
IsAt-cons y nodes [] o h = tt
IsAt-cons y nodes (x ∷ xs) o h = (h.0, IsAt-cons y nodes xs (suc o) h.1)

IsAt-refl : (xs : List Node) → IsAt xs 0 xs
IsAt-refl [] = tt
IsAt-refl (x ∷ xs) = (refl, IsAt-cons x xs xs 0 (IsAt-refl xs))

-- A rooted forest is laid in its own reading.
pub flatten-IsLaid : (f : Forest) → IsRooted none f → IsLaid (flatten f) 0 none f
flatten-IsLaid f h = IsLaid-of_IsAt (flatten f) 0 none f h (IsAt-refl (flatten f))

-- Inside a laid forest the parents stand between the forest's own parent and the node.
pub rank-bounds :
    (nodes : List Node) (index : NodeId → Option ℕ) (ix : IsIndex nodes index) (o : ℕ)
    (p : Option NodeId) (f : Forest)
    → IsLaid nodes o p f
    → rank index p ≤ o
    → (i : ℕ) (n : Node) → o ≤ i
    → i < o + size f
    → get_elem? nodes i ≡ some n
    → (rank index p ≤ rank index n.after) × (rank index n.after ≤ i)
unfolding size
rank-bounds nodes index ix o p leaf h le i n oi ie at = absurd (omega arith)
rank-bounds nodes index ix o p (tree m c s) h le i n oi ie at = elim (dec_lt o i) [
  | no first ↦
      let same : i ≡ o = omega arith in
      let e : n.after ≡ p = ground (arith, h.0, h.1) in rw e (le_refl _, omega arith)
  | yes later ↦ elim (dec_lt i (suc (o + size c))) [
    | yes inside ↦
        let root = rank-some index m.id o (ix.finds o m h.0) in
        let (lo, hi) =
          rank-bounds nodes index ix (suc o) (some m.id) c h.2 (rw root (le_refl _)) i n
            (omega arith) (omega arith) at in
        (omega (arith, root), hi)
    | no outside ↦
        rank-bounds nodes index ix (suc (o + size c)) p s h.3 (omega arith) i n (omega arith)
          (omega arith) at
  ]
]
