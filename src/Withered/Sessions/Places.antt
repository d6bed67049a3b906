-- ===== src/Withered/Sessions/Places.antt =====
-- The places of a channel among the subscribers of withered/server/domain/simple_pubsub.go.
use tanzlaurel.Base.{
  ℕ, ◌<◌, ◌≡◌, ◌≢◌, refl, sym, List, [], ◌∷◌, ◌++◌, true, ◌==◌, ==_iff, Bool-cases, inl, inr, arith,
}
use tanzlaurel.Base.Members.{In, In-cases}
use tanzlaurel.Flourish.Crdt.Rga.{contains}
use tanzlaurel.Withered.Sessions.Topics.{without}

pub without-In : (ch x : ℕ) (subs : List ℕ) → In x (without ch subs) → In x subs
unfolding without
without-In ch x [] m = m
without-In ch x (sub ∷ subs) m = elim (Bool-cases (sub == ch)) [
  | inl here ↦ inr (rw here at m)
  | inr other ↦ elim (In-cases x (sub ∷ []) (without ch subs) (rw other at m)) [
    | inl first ↦ elim first [ inl e ↦ inl e | inr none' ↦ absurd none' ]
    | inr rest ↦ inr (without-In ch x subs rest)
  ]
]

-- A channel is at one place of one topic.
abbrev pub Single : List ℕ → Type 0
Single [] = Unit {0}
Single (x ∷ xs) = ((y : ℕ) → In y xs → y ≢ x) × Single xs

pub contains-In : (k : ℕ) (xs : List ℕ) → contains k xs ≡ true → In k xs
unfolding contains
contains-In k [] h = absurd (cc h)
contains-In k (x ∷ xs) h = elim (Bool-cases (k == x)) [
  | inl here ↦ inl ((==_iff k x).0 here)
  | inr other ↦ inr (contains-In k xs (rw other at h))
]

pub without-gone : (ch : ℕ) (subs : List ℕ) → Single subs → ¬ In ch (without ch subs)
unfolding without
without-gone ch [] s m = m
without-gone ch (sub ∷ subs) s m = elim (Bool-cases (sub == ch)) [
  | inl here ↦ let same = (==_iff sub ch).0 here in s.0 ch (rw here at m) (sym same)
  | inr other ↦ elim (In-cases ch (sub ∷ []) (without ch subs) (rw other at m)) [
    | inl first ↦ elim first [
      | inl e ↦ absurd (cc ((==_iff sub ch).1 (sym e)))
      | inr none' ↦ absurd none'
    ]
    | inr rest ↦ without-gone ch subs s.1 rest
  ]
]

pub without-Single : (ch : ℕ) (subs : List ℕ) → Single subs → Single (without ch subs)
unfolding without
without-Single ch [] s = tt
without-Single ch (sub ∷ subs) s = elim (Bool-cases (sub == ch)) [
  | inl here ↦ rw here s.1
  | inr other ↦ rw other ((λ y m. s.0 y (without-In ch y subs m)), without-Single ch subs s.1)
]

pub Single-snoc :
    (ch : ℕ) (subs : List ℕ)
    → ((y : ℕ) → In y subs → y < ch)
    → Single subs
    → Single (subs ++ (ch ∷ []))
Single-snoc ch [] below s = ((λ y m. absurd m), tt)
Single-snoc ch (x ∷ xs) below s = (
  (λ y m. elim (In-cases y xs (ch ∷ []) m) [
    | inl old ↦ s.0 y old
    | inr last ↦ elim last [
      | inl e ↦ (let lt = below x (inl refl) in λ q. absurd (omega (arith, lt, e, q)))
      | inr none' ↦ absurd none'
    ]
  ]),
  Single-snoc ch xs (λ y m. below y (inr m)) s.1,
)
