-- ===== src/Flourish/Crdt/Unique.antt =====
-- A forest whose siblings are in the order of their priority is determined by its nodes.
use tanzlaurel.Base.{◌≡◌, ◌≢◌, refl, sym, ap, ◌∙◌, ◌++◌, true, Option, some, inl, inr, ◌⊎◌, subst}
use mathlib.Core.Option.{some-injective}
use tanzlaurel.Base.Members.{In, In-left, In-right, In-cases, Distinct, Distinct-append}
use tanzlaurel.Flourish.Uuid.{UuidText}
use tanzlaurel.Flourish.Crdt.Types.{NodeId, Node}
use tanzlaurel.Flourish.Crdt.Rga.{node_id_priority}
use tanzlaurel.Flourish.Crdt.Forest.{Forest, leaf, tree, flatten, IsRooted}
use tanzlaurel.Flourish.Crdt.Priority.{priority_asym}
use tanzlaurel.Flourish.Crdt.Ordered.{IsUnder, IsOrdered}

-- The parent of a node is the root or another node of the forest.
parent_cases :
    (p : Option NodeId) (f : Forest)
    → IsRooted p f
    → (y : Node) → In y (flatten f)
    → (y.after ≡ p) ⊎ ((m : Node) × In m (flatten f) × (y.after ≡ some m.id))
parent_cases p leaf r y h = absurd h
parent_cases p (tree n c s) r y (inl e) = inl (rw e r.0)
parent_cases p (tree n c s) r y (inr h) = elim (In-cases y (flatten c) (flatten s) h) [
  | inl l ↦ elim (parent_cases (some n.id) c r.1 y l) [
    | inl e ↦ inr (n, inl refl, e)
    | inr (m, i, e) ↦ inr (m, inr (In-left m (flatten c) (flatten s) i), e)
  ]
  | inr l ↦ elim (parent_cases p s r.2 y l) [
    | inl e ↦ inl e
    | inr (m, i, e) ↦ inr (m, inr (In-right m (flatten c) (flatten s) i), e)
  ]
]

-- Induction along the parents.
pub below_root :
    (P : Node → Type 0) (p : Option NodeId) (f : Forest)
    → IsRooted p f
    → ((y : Node) → In y (flatten f) → y.after ≡ p → P y)
    → ((y m : Node) → In y (flatten f) → P m → y.after ≡ some m.id → P y)
    → (y : Node) → In y (flatten f)
    → P y
below_root P p leaf r top step y h = absurd h
below_root P p (tree n c s) r top step y (inl e) = top y (inl e) (rw e r.0)
below_root P p (tree n c s) r top step y (inr h) = elim (In-cases y (flatten c) (flatten s) h) [
  | inl l ↦
      below_root P (some n.id) c r.1
        (λ z i e. step z n (inr (In-left z (flatten c) (flatten s) i)) (top n (inl refl) r.0) e)
        (λ z m i q e. step z m (inr (In-left z (flatten c) (flatten s) i)) q e) y l
  | inr l ↦
      below_root P p s r.2 (λ z i e. top z (inr (In-right z (flatten c) (flatten s) i)) e)
        (λ z m i q e. step z m (inr (In-right z (flatten c) (flatten s) i)) q e) y l
]

-- The root is no node of the forest.
abbrev IsOutside : Option NodeId → Forest → Type 0
IsOutside p f = (m : Node) → In m (flatten f) → p ≢ some m.id

abbrev pub SameNodes : Forest → Forest → Type 0
SameNodes f g =
    ((y : Node) → In y (flatten f) → In y (flatten g))
    × ((y : Node) → In y (flatten g) → In y (flatten f))

abbrev pub HasDistinct : Forest → Type 0
HasDistinct f = Distinct (λ (n : Node). n.id) (flatten f)

-- Two forests that begin with the same node, the first one's nodes being among the second's.
module _ (p : Option NodeId) (n : Node) (c s d t : Forest) (rf : IsRooted p (tree n c s))
    (rg : IsRooted p (tree n d t)) (og : IsOutside p (tree n d t)) (df : HasDistinct (tree n c s))
    (dg : HasDistinct (tree n d t))
    (among : (y : Node) → In y (flatten (tree n c s)) → In y (flatten (tree n d t))) where
  not_root : (y : Node) → In y (flatten c ++ flatten s) → y ≢ n
  not_root y h e = df.0 y h (ap (λ (m : Node). m.id) e)

  parts : (y : Node) → In y (flatten c ++ flatten s) → In y (flatten d) ⊎ In y (flatten t)
  parts y h = elim (among y (inr h)) [
    | inl e ↦ absurd (not_root y h e)
    | inr k ↦ In-cases y (flatten d) (flatten t) k
  ]

  -- A node under one that is not in `t`, nor the root, is not in `t`.
  no_sibling :
      (y m : Node)
      → y.after ≡ some m.id
      → In m (flatten (tree n d t))
      → ((z : Node) → In z (flatten t) → m.id ≢ z.id)
      → ¬ In y (flatten t)
  no_sibling y m e i apart h = elim (parent_cases p t rg.2 y h) [
    | inl q ↦ og m i (sym q ∙ e)
    | inr (z, k, q) ↦ apart z k (some-injective m.id z.id (sym e ∙ q))
  ]

  children_transfer : (y : Node) → In y (flatten c) → In y (flatten d)
  children_transfer =
      let (_, _, across) = Distinct-append (λ (m : Node). m.id) (flatten d) (flatten t) dg.1 in
      let settle : (y m : Node)
          → In y (flatten c)
          → y.after ≡ some m.id
          → In m (flatten (tree n d t))
          → ((z : Node) → In z (flatten t) → m.id ≢ z.id)
          → In y (flatten d) =
        λ y m h e i apart. elim (parts y (In-left y (flatten c) (flatten s) h)) [
          | inl k ↦ k
          | inr k ↦ absurd (no_sibling y m e i apart k)
        ] in
      below_root (λ y. In y (flatten d)) (some n.id) c rf.1
        (λ y h e.
          settle y n h e (inl refl)
            (λ z k q. dg.0 z (In-right z (flatten d) (flatten t) k) (sym q)))
        (λ y m h i e.
          settle y m h e (inr (In-left m (flatten d) (flatten t) i)) (λ z k. across m z i k))

  siblings_transfer :
      ((y : Node) → In y (flatten d) → In y (flatten c))
      → (y : Node) → In y (flatten s)
      → In y (flatten t)
  siblings_transfer back y h =
      let (_, _, across) = Distinct-append (λ (m : Node). m.id) (flatten c) (flatten s) df.1 in
      elim (parts y (In-right y (flatten c) (flatten s) h)) [
        | inl k ↦ absurd (across y y (back y k) h refl)
        | inr k ↦ k
      ]

module _ (uuid : UuidText) where
  -- A node right under the root is at the top level.
  top_under :
      (p : Option NodeId) (f : Forest)
      → IsRooted p f
      → IsOutside p f
      → (a : NodeId) → IsUnder uuid a f
      → (y : Node) → In y (flatten f)
      → y.after ≡ p
      → node_id_priority uuid a y.id ≡ true
  top_under p leaf r out a u y h q = absurd h
  top_under p (tree n c s) r out a u y (inl e) q = rw e u.0
  top_under p (tree n c s) r out a u y (inr h) q = elim (In-cases y (flatten c) (flatten s) h) [
    | inl l ↦ elim (parent_cases (some n.id) c r.1 y l) [
      | inl e ↦ absurd (out n (inl refl) (sym q ∙ e))
      | inr (m, i, e) ↦ absurd (out m (inr (In-left m (flatten c) (flatten s) i)) (sym q ∙ e))
    ]
    | inr l ↦
        top_under p s r.2 (λ m i. out m (inr (In-right m (flatten c) (flatten s) i))) a u.1 y l q
  ]

  head_or_under :
      (p : Option NodeId) (n : Node) (c s : Forest)
      → IsRooted p (tree n c s)
      → IsOutside p (tree n c s)
      → IsUnder uuid n.id s
      → (y : Node) → In y (flatten (tree n c s))
      → y.after ≡ p
      → (y ≡ n) ⊎ (node_id_priority uuid n.id y.id ≡ true)
  head_or_under p n c s r out u y (inl e) q = inl e
  head_or_under p n c s r out u y (inr h) q = elim (In-cases y (flatten c) (flatten s) h) [
    | inl l ↦ elim (parent_cases (some n.id) c r.1 y l) [
      | inl e ↦ absurd (out n (inl refl) (sym q ∙ e))
      | inr (m, i, e) ↦ absurd (out m (inr (In-left m (flatten c) (flatten s) i)) (sym q ∙ e))
    ]
    | inr l ↦
        inr (
          top_under p s r.2 (λ m i. out m (inr (In-right m (flatten c) (flatten s) i))) n.id u y l
            q)
  ]

  -- What is asked of each of the two forests.
  pub record IsCanonical (p : Option NodeId) (f : Forest) : Type 0 where
    pub rooted : IsRooted p f
    pub outside : IsOutside p f
    pub ordered : IsOrdered uuid f
    pub distinct : HasDistinct f

  IsCanonical-children :
      (p : Option NodeId) (n : Node) (c s : Forest)
      → IsCanonical p (tree n c s)
      → IsCanonical (some n.id) c
  IsCanonical-children p n c s h = record {
    rooted = h.rooted.1;
    outside = λ m i e.
        h.distinct.0 m (In-left m (flatten c) (flatten s) i) (sym (some-injective n.id m.id e));
    ordered = h.ordered.1;
    distinct = (Distinct-append (λ (m : Node). m.id) (flatten c) (flatten s) h.distinct.1).0;
  }

  IsCanonical-siblings :
      (p : Option NodeId) (n : Node) (c s : Forest) → IsCanonical p (tree n c s) → IsCanonical p s
  IsCanonical-siblings p n c s h = record {
    rooted = h.rooted.2;
    outside = λ m i. h.outside m (inr (In-right m (flatten c) (flatten s) i));
    ordered = h.ordered.2;
    distinct = (Distinct-append (λ (m : Node). m.id) (flatten c) (flatten s) h.distinct.1).1;
  }

  pub canonical_unique :
      (p : Option NodeId) (f g : Forest) → IsCanonical p f → IsCanonical p g → SameNodes f g → f ≡ g
  canonical_unique p leaf leaf hf hg same = refl
  canonical_unique p leaf (tree m d t) hf hg same = absurd (same.1 m (inl refl))
  canonical_unique p (tree n c s) leaf hf hg same = absurd (same.0 n (inl refl))
  canonical_unique p (tree n c s) (tree m d t) hf hg same =
      let heads : n ≡ m =
        elim (head_or_under p m d t hg.rooted hg.outside hg.ordered.0 n (same.0 n (inl refl))
          hf.rooted.0) [
            | inl e ↦ e
            | inr below ↦
                elim (head_or_under p n c s hf.rooted hf.outside hf.ordered.0 m
                  (same.1 m (inl refl)) hg.rooted.0) [
                    | inl e ↦ sym e
                    | inr above ↦ absurd (cc (priority_asym uuid m.id n.id below))
                  ]
          ] in
      let hg' : IsCanonical p (tree n d t) =
        subst (λ (z : Node). IsCanonical p (tree z d t)) (sym heads) hg in
      let same' : SameNodes (tree n c s) (tree n d t) =
        subst (λ (z : Node). SameNodes (tree n c s) (tree z d t)) (sym heads) same in
      let down =
        children_transfer p n c s d t hf.rooted hg'.rooted hg'.outside hf.distinct hg'.distinct
          same'.0 in
      let up =
        children_transfer p n d t c s hg'.rooted hf.rooted hf.outside hg'.distinct hf.distinct
          same'.1 in
      let right =
        siblings_transfer p n c s d t hf.rooted hg'.rooted hg'.outside hf.distinct hg'.distinct
          same'.0 up in
      let left =
        siblings_transfer p n d t c s hg'.rooted hf.rooted hf.outside hg'.distinct hf.distinct
          same'.1 down in
      let children : c ≡ d =
        canonical_unique (some n.id) c d (IsCanonical-children p n c s hf)
          (IsCanonical-children p n d t hg') (down, up) in
      let siblings : s ≡ t =
        canonical_unique p s t (IsCanonical-siblings p n c s hf) (IsCanonical-siblings p n d t hg')
          (right, left) in
      cc
