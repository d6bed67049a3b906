-- ===== src/Base/Members.antt =====
-- Membership in a list with the place as evidence, and lists of items with different keys.
use Prim.Native.Nat.{ℕ, zero, suc}
use mathlib.Core.Path.{◌≡◌, refl, sym, ap, ◌∙◌}
use mathlib.Core.Logic.{◌≢◌, ◌⊎◌, inl, inr}
use mathlib.Core.List.{List, [], ◌∷◌, ◌++◌, map}
use mathlib.Core.Option.{some, some-injective}
use native.Mathlib.Omega.{arith}
use tanzlaurel.Base.Lists.{get_elem?, All}

module _ {A : Type 0} where
  abbrev pub In : A → List A → Type 0
  In a [] = ⊥
  In a (x ∷ xs) = (a ≡ x) ⊎ In a xs

  pub In-left : (a : A) (xs ys : List A) → In a xs → In a (xs ++ ys)
  In-left a [] ys h = absurd h
  In-left a (x ∷ xs) ys (inl e) = inl e
  In-left a (x ∷ xs) ys (inr h) = inr (In-left a xs ys h)

  pub In-right : (a : A) (xs ys : List A) → In a ys → In a (xs ++ ys)
  In-right a [] ys h = h
  In-right a (x ∷ xs) ys h = inr (In-right a xs ys h)

  pub In-cases : (a : A) (xs ys : List A) → In a (xs ++ ys) → In a xs ⊎ In a ys
  In-cases a [] ys h = inr h
  In-cases a (x ∷ xs) ys (inl e) = inl (inl e)
  In-cases a (x ∷ xs) ys (inr h) = elim (In-cases a xs ys h) [ inl l ↦ inl (inr l) | inr r ↦ inr r ]

  pub get-In : (xs : List A) (i : ℕ) (a : A) → get_elem? xs i ≡ some a → In a xs
  get-In [] i a h = cc
  get-In (x ∷ xs) zero a h = inl (sym (some-injective x a h))
  get-In (x ∷ xs) (suc i) a h = inr (get-In xs i a h)

  pub In-get : (a : A) (xs : List A) → In a xs → (i : ℕ) × (get_elem? xs i ≡ some a)
  In-get a [] h = absurd h
  In-get a (x ∷ xs) (inl e) = (0, ap some (sym e))
  In-get a (x ∷ xs) (inr h) = let (i, at) = In-get a xs h in (suc i, at)

  pub All-In {κ} : (P : A → Type κ) (xs : List A) → All P xs → (a : A) → In a xs → P a
  All-In P [] h a m = absurd m
  All-In P (x ∷ xs) h a (inl e) = rw e h.0
  All-In P (x ∷ xs) h a (inr m) = All-In P xs h.1 a m

  pub In-All {κ} : (P : A → Type κ) (xs : List A) → ((a : A) → In a xs → P a) → All P xs
  In-All P [] h = tt
  In-All P (x ∷ xs) h = (h x (inl refl), In-All P xs (λ a m. h a (inr m)))

  -- A member taken out of the middle.
  pub In-middle : (a x : A) (xs ys : List A) → In a (xs ++ (x ∷ ys)) → (a ≡ x) ⊎ In a (xs ++ ys)
  In-middle a x [] ys h = h
  In-middle a x (y ∷ xs) ys (inl e) = inr (inl e)
  In-middle a x (y ∷ xs) ys (inr h) = elim (In-middle a x xs ys h) [
    | inl e ↦ inl e
    | inr m ↦ inr (inr m)
  ]

  pub In-around : (a x : A) (xs ys : List A) → In a (xs ++ ys) → In a (xs ++ (x ∷ ys))
  In-around a x [] ys h = inr h
  In-around a x (y ∷ xs) ys (inl e) = inl e
  In-around a x (y ∷ xs) ys (inr h) = inr (In-around a x xs ys h)

  pub In-there : (x : A) (xs ys : List A) → In x (xs ++ (x ∷ ys))
  In-there x [] ys = inl refl
  In-there x (y ∷ xs) ys = inr (In-there x xs ys)

module _ {A B : Type 0} where
  pub In-map : (f : A → B) (a : A) (xs : List A) → In a xs → In (f a) (map f xs)
  In-map f a [] h = absurd h
  In-map f a (x ∷ xs) (inl e) = inl (ap f e)
  In-map f a (x ∷ xs) (inr h) = inr (In-map f a xs h)

  pub map-In : (f : A → B) (b : B) (xs : List A) → In b (map f xs) → (a : A) × In a xs × (b ≡ f a)
  map-In f b [] h = absurd h
  map-In f b (x ∷ xs) (inl e) = (x, inl refl, e)
  map-In f b (x ∷ xs) (inr h) = let (a, m, e) = map-In f b xs h in (a, inr m, e)

  module _ (key : A → B) where
    -- No two items have the same key.
    abbrev pub Distinct : List A → Type 0
    Distinct [] = Unit {0}
    Distinct (x ∷ xs) = ((y : A) → In y xs → key y ≢ key x) × Distinct xs

    pub Distinct-append :
        (xs ys : List A)
        → Distinct (xs ++ ys)
        → Distinct xs × Distinct ys × ((x y : A) → In x xs → In y ys → key x ≢ key y)
    Distinct-append [] ys h = (tt, h, λ x y m. absurd m)
    Distinct-append (z ∷ xs) ys (apart, h) =
        let (left, right, across) = Distinct-append xs ys h in
        (((λ y m. apart y (In-left y xs ys m)), left), right, between across)
      where
        between :
            ((x y : A) → In x xs → In y ys → key x ≢ key y)
            → (x y : A) → In x (z ∷ xs)
            → In y ys
            → key x ≢ key y
        between across x y (inl e) n q = apart y (In-right y xs ys n) (sym q ∙ ap key e)
        between across x y (inr m) n q = across x y m n q

    -- Items with the same key at one place only.
    pub Distinct-of_places :
        (xs : List A)
        → ((i j : ℕ) (x y : A)
            → get_elem? xs i ≡ some x
            → get_elem? xs j ≡ some y
            → key x ≡ key y
            → i ≡ j)
        → Distinct xs
    Distinct-of_places [] h = tt
    Distinct-of_places (x ∷ xs) h = (
      (λ y m e.
          let (j, at) = In-get y xs m in
          let clash : suc j ≡ 0 = h (suc j) 0 y x at refl e in absurd (omega (arith, clash))),
      Distinct-of_places xs (λ i j y z p q e. suc_inj (h (suc i) (suc j) y z p q e)),
    )
      where
        suc_inj : {i j : ℕ} → suc i ≡ suc j → i ≡ j
        suc_inj e = omega (arith, e)

    -- The keys of the others as a list of facts.
    abbrev pub Apart : List A → Type 0
    Apart [] = Unit {0}
    Apart (x ∷ xs) = All (λ y. key y ≢ key x) xs × Apart xs

    pub Distinct-of_Apart : (xs : List A) → Apart xs → Distinct xs
    Distinct-of_Apart [] h = tt
    Distinct-of_Apart (x ∷ xs) h = (All-In (λ y. key y ≢ key x) xs h.0, Distinct-of_Apart xs h.1)

    -- A key names one item.
    pub Distinct-names :
        (xs : List A) → Distinct xs → (x y : A) → In x xs → In y xs → key x ≡ key y → x ≡ y
    Distinct-names [] h x y mx my e = absurd mx
    Distinct-names (z ∷ xs) h x y (inl p) (inl q) e = p ∙ sym q
    Distinct-names (z ∷ xs) h x y (inl p) (inr m) e = absurd (h.0 y m (sym e ∙ ap key p))
    Distinct-names (z ∷ xs) h x y (inr m) (inl q) e = absurd (h.0 x m (e ∙ ap key q))
    Distinct-names (z ∷ xs) h x y (inr m) (inr n) e = Distinct-names xs h.1 x y m n e
