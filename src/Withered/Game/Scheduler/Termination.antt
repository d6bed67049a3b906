-- ===== src/Withered/Game/Scheduler/Termination.antt =====
-- `topologicalSort` comes to an end: a system enters its queue once at most.
use tanzlaurel.Base.{
  map, ℕ, zero, suc, ◌+◌, ◌≤◌, ◌<◌, ◌≡◌, refl, sym, ◌∙◌, List, [], ◌∷◌, ◌++◌, Bool, true, false,
  none, some, ◌==◌, ==_iff, if◌then◌else◌, length, length-append, All, Returns, Returns-bind,
  Returns-weaken, Bool-cases, Option-cases, inl, inr, arith,
}
use tanzlaurel.Base.Int.{ℤ, pos, negsuc, pred, is_zero, is_positive}
use tanzlaurel.Base.Errors.{Result, Result-cases}
use tanzlaurel.Base.Errors
use tanzlaurel.Base.Members.{In, In-cases, In-map, In-All}
use mathlib.Core.Option.{some-injective}
use tanzlaurel.Flourish.Store.Events.{update}
use tanzlaurel.Withered.Game.Scheduler.{
  System, succ, Edges, find_system, add_dependencies, collect, sources, release, sort_loop,
  topological_sort,
}

All-snoc : (P : ℕ → Type 0) (xs : List ℕ) (y : ℕ) → All P xs → P y → All P (xs ++ (y ∷ []))
All-snoc P [] y h p = (p, tt)
All-snoc P (x ∷ xs) y h p = (h.0, All-snoc P xs y h.1 p)

-- How many of the ids wait for others?
waiting : (ℕ → ℤ) → List ℕ → ℕ
waiting degree [] = 0
waiting degree (id ∷ ids) =
    let rest = waiting degree ids in if is_positive (degree id) then suc rest else rest

count_le :
    (a b : Bool) (m n : ℕ)
    → (a ≡ true → b ≡ true)
    → m ≤ n
    → (if a then suc m else m) ≤ (if b then suc n else n)
count_le true true m n h le = omega arith
count_le false true m n h le = omega arith
count_le false false m n h le = le
count_le true false m n h le = absurd (cc (h refl))

count_lt :
    (a b : Bool) (m n : ℕ)
    → (a ≡ true → b ≡ true)
    → m < n
    → (if a then suc m else m) < (if b then suc n else n)
count_lt true true m n h lt = omega arith
count_lt false true m n h lt = omega arith
count_lt false false m n h lt = lt
count_lt true false m n h lt = absurd (cc (h refl))

is_positive-pred : (z : ℤ) → is_positive (pred z) ≡ true → is_positive z ≡ true
is_positive-pred (pos zero) h = cc
is_positive-pred (pos (suc n)) h = refl
is_positive-pred (negsuc n) h = cc

pub is_zero-pred :
    (z : ℤ) → is_zero (pred z) ≡ true → (is_positive z ≡ true) × (is_positive (pred z) ≡ false)
is_zero-pred (pos zero) h = absurd (cc h)
is_zero-pred (pos (suc zero)) h = (refl, refl)
is_zero-pred (pos (suc (suc n))) h = absurd (cc h)
is_zero-pred (negsuc n) h = absurd (cc h)

pub is_zero-is_positive : (z : ℤ) → is_zero z ≡ true → is_positive z ≡ false
is_zero-is_positive (pos zero) h = refl
is_zero-is_positive (pos (suc n)) h = absurd (cc h)
is_zero-is_positive (negsuc n) h = refl

pub step_down :
    (degree : ℕ → ℤ) (id x : ℕ)
    → is_positive (update degree id (pred (degree id)) x) ≡ true
    → is_positive (degree x) ≡ true
step_down degree id x h = elim (Bool-cases (x == id)) [
  | inl here ↦
      let same : x ≡ id = (==_iff x id).0 here in
      rw same (is_positive-pred (degree id) (rw here at h))
  | inr other ↦ rw other at h
]

-- One step down: the count never grows, and shrinks when an id of the list reaches 0.
waiting-pred :
    (degree : ℕ → ℤ) (id : ℕ) (ids : List ℕ)
    → waiting (update degree id (pred (degree id))) ids ≤ waiting degree ids
unfolding waiting
waiting-pred degree id [] = omega arith
waiting-pred degree id (x ∷ xs) =
    count_le _ _ _ _ (step_down degree id x) (waiting-pred degree id xs)

waiting-zero :
    (degree : ℕ → ℤ) (id : ℕ) (ids : List ℕ)
    → In id ids
    → is_zero (pred (degree id)) ≡ true
    → waiting (update degree id (pred (degree id))) ids < waiting degree ids
unfolding waiting
waiting-zero degree id [] m z = absurd m
waiting-zero degree id (x ∷ xs) (inr m) z =
    count_lt _ _ _ _ (step_down degree id x) (waiting-zero degree id xs m z)
waiting-zero degree id (x ∷ xs) (inl e) z =
    let (before, after) = is_zero-pred (degree id) z in
    let le = waiting-pred degree id xs in
    rw (← e, (==_iff id id).1 refl, before, after) (omega (arith, le))

-- What `release` adds to the queue no longer waits.
release-waiting :
    (ids deps : List ℕ) (degree : ℕ → ℤ) (queue : List ℕ)
    → All (λ d. In d ids) deps
    → All (λ d. In d ids) queue
    → (length (release deps degree queue).1 + waiting (release deps degree queue).0 ids
        ≤ length queue + waiting degree ids)
      × All (λ d. In d ids) (release deps degree queue).1
unfolding release
release-waiting ids [] degree queue h q = (omega arith, q)
release-waiting ids (d ∷ deps) degree queue h q = elim (Bool-cases (is_zero (pred (degree d)))) [
  | inr more ↦
      let (le, all) = release-waiting ids deps (update degree d (pred (degree d))) queue h.1 q in
      let down = waiting-pred degree d ids in rw (more, release) (omega (arith, le, down), all)
  | inl free ↦
      let (le, all) =
        release-waiting ids deps (update degree d (pred (degree d))) (queue ++ (d ∷ [])) h.1
          (All-snoc (λ x. In x ids) queue d q h.0) in
      let down = waiting-zero degree d ids h.0 free in
      let grown = length-append queue (d ∷ []) in
      rw (free, release) (omega (arith, le, down, grown), all)
]

one_answer :
    {Failure A : Type 0} (a b : A) (answer : Result Failure A)
    → answer ≡ Errors.ok a
    → answer ≡ Errors.ok b
    → a ≡ b
one_answer a b answer h k = cc

module _ {W : Type 0} where
  abbrev pub ids_of : List (System W) → List ℕ
  ids_of systems = map (λ (sys : System W). sys.id) systems

  pub find_system-In :
      (id : ℕ) (systems : List (System W)) (sys : System W)
      → find_system id systems ≡ some sys
      → In sys systems
  unfolding find_system
  find_system-In id [] sys h = absurd (cc h)
  find_system-In id (x ∷ xs) sys h = elim (Option-cases (find_system id xs)) [
    | inr (other, e) ↦ inr (find_system-In id xs sys (e ∙ sym (rw (e, find_system) refl) ∙ h))
    | inl e ↦ elim (Bool-cases (x.id == id)) [
      | inl here ↦ inl (sym (some-injective x sys (sym (rw (e, here, find_system) refl) ∙ h)))
      | inr other ↦
          let none' : find_system id (x ∷ xs) ≡ none = rw (e, other, find_system) refl in
          absurd (cc none')
    ]
  ]

  found :
      (id : ℕ) (systems : List (System W))
      → In id (ids_of systems)
      → (sys : System W) × (find_system id systems ≡ some sys)
  unfolding find_system
  found id [] m = absurd m
  found id (sys ∷ systems) m = elim (Option-cases (find_system id systems)) [
    | inr (other, e) ↦ (other, rw (e, find_system) refl)
    | inl e ↦ elim m [
      | inl here ↦ (sys, rw (e, find_system, ← here, (==_iff id id).1 refl) refl)
      | inr there ↦ let (other, e') = found id systems there in absurd (cc e)
    ]
  ]

  -- The systems that are sorted, and how many there can be.
  abbrev Sorts : List (System W) → ℕ → List (System W) → Type 0
  Sorts systems bound result =
      (length result ≤ bound) × ((sys : System W) → In sys result → In sys systems)

  abbrev Closed : List (System W) → (ℕ → List ℕ) → Type 0
  Closed systems dependents = (id : ℕ) → All (λ d. In d (ids_of systems)) (dependents id)

  sort_loop-Sorts :
      (fuel : ℕ) (systems : List (System W)) (dependents : ℕ → List ℕ) (queue : List ℕ)
      (degree : ℕ → ℤ) (sorted : List (System W))
      → Closed systems dependents
      → All (λ d. In d (ids_of systems)) queue
      → length queue + waiting degree (ids_of systems) ≤ fuel
      → ((sys : System W) → In sys sorted → In sys systems)
      → Returns
          (Sorts systems (length sorted + fuel))
          (sort_loop fuel systems dependents queue degree sorted)
  unfolding sort_loop
  sort_loop-Sorts fuel systems dependents [] degree sorted closed q le from = (omega arith, from)
  sort_loop-Sorts zero systems dependents (id ∷ queue) degree sorted closed q le from =
      absurd (omega (arith, le))
  sort_loop-Sorts (suc fuel) systems dependents (id ∷ queue) degree sorted closed q le from =
      let (sys, e) = found id systems q.0 in
      let (down, all) =
        release-waiting (ids_of systems) (dependents id) degree queue (closed id) q.1 in
      let grown = length-append sorted (sys ∷ []) in
      rw (e, sort_loop)
        (Returns-weaken (Sorts systems (length (sorted ++ (sys ∷ [])) + fuel))
          (Sorts systems (length sorted + suc fuel))
          (sort_loop fuel systems dependents (release (dependents id) degree queue).1
            (release (dependents id) degree queue).0 (sorted ++ (sys ∷ [])))
          (sort_loop-Sorts fuel systems dependents (release (dependents id) degree queue).1
            (release (dependents id) degree queue).0 (sorted ++ (sys ∷ [])) closed all
            (omega (arith, le, down))
            (λ x m. elim (In-cases x sorted (sys ∷ []) m) [
              | inl old ↦ from x old
              | inr last ↦ elim last [
                | inl here ↦ rw here (find_system-In id systems sys e)
                | inr none' ↦ absurd none'
              ]
            ]))
          (λ result h. (omega (arith, h.0, grown), h.1)))

  add_dependencies-Closed :
      (phase : ℕ) (systems : List (System W)) (id : ℕ) (deps : List ℕ) (e e' : Edges)
      → In id (ids_of systems)
      → Closed systems e.dependents
      → add_dependencies phase systems id deps e ≡ Errors.ok e'
      → Closed systems e'.dependents
  unfolding add_dependencies
  add_dependencies-Closed phase systems id [] e e' m closed run =
      let same : e ≡ e' = cc in rw (← same) closed
  add_dependencies-Closed phase systems id (dep_id ∷ deps) e e' m closed run =
      let next : Edges = record {
        dependents = update e.dependents dep_id (e.dependents dep_id ++ (id ∷ []));
        in_degree = update e.in_degree id (succ (e.in_degree id));
      } in
      elim (Option-cases (find_system dep_id systems)) [
        | inl missing ↦ absurd (cc (rw (missing, add_dependencies) at run))
        | inr (dep, there) ↦ elim (Bool-cases (dep.phase == phase)) [
          | inr cross ↦ absurd (cc (rw (there, cross, add_dependencies) at run))
          | inl same ↦
              let step : add_dependencies phase systems id (dep_id ∷ deps) e
                  ≡ add_dependencies phase systems id deps next =
                rw (there, same, add_dependencies) refl in
              add_dependencies-Closed phase systems id deps next e' m
                (λ k. elim (Bool-cases (k == dep_id)) [
                  | inl here ↦ rw here (
                      All-snoc (λ d. In d (ids_of systems)) (e.dependents dep_id) id (closed dep_id)
                        m)
                  | inr other ↦ rw other (closed k)
                ])
                (sym step ∙ run)
        ]
      ]

  collect-Closed :
      (phase : ℕ) (systems rest : List (System W)) (e e' : Edges)
      → ((sys : System W) → In sys rest → In sys systems)
      → Closed systems e.dependents
      → collect phase systems rest e ≡ Errors.ok e'
      → Closed systems e'.dependents
  unfolding collect
  collect-Closed phase systems [] e e' from closed run =
      let same : e ≡ e' = cc in rw (← same) closed
  collect-Closed phase systems (sys ∷ rest) e e' from closed run =
      elim (Result-cases (add_dependencies phase systems sys.id sys.after e)) [
        | inr (failure, failed) ↦ absurd (cc (rw (failed, collect) at run))
        | inl (e1, added) ↦
            let step : collect phase systems (sys ∷ rest) e ≡ collect phase systems rest e1 =
              rw (added, collect) refl in
            collect-Closed phase systems rest e1 e' (λ x m. from x (inr m))
              (add_dependencies-Closed phase systems sys.id sys.after e e1
                (In-map (λ (x : System W). x.id) sys systems (from sys (inl refl))) closed added)
              (sym step ∙ run)
      ]

  -- A system either starts in the queue or waits, not both.
  sources-waiting :
      (degree : ℕ → ℤ) (systems : List (System W))
      → length (sources degree systems) + waiting degree (ids_of systems) ≤ length systems
  unfolding sources waiting
  sources-waiting degree [] = omega arith
  sources-waiting degree (sys ∷ systems) =
      let le = sources-waiting degree systems in
      elim (Bool-cases (is_zero (degree sys.id))) [
        | inl free ↦ rw (free, is_zero-is_positive (degree sys.id) free) (omega (arith, le))
        | inr waits ↦ elim (Bool-cases (is_positive (degree sys.id))) [
          | inl more ↦ rw (waits, more) (omega (arith, le))
          | inr less ↦ rw (waits, less) (omega (arith, le))
        ]
      ]

  sources-In :
      (degree : ℕ → ℤ) (systems : List (System W))
      → All (λ d. In d (ids_of systems)) (sources degree systems)
  unfolding sources
  sources-In degree systems =
      In-All (λ d. In d (ids_of systems)) (sources degree systems) (among degree systems)
    where
      among :
          (degree : ℕ → ℤ) (systems : List (System W)) (d : ℕ)
          → In d (sources degree systems)
          → In d (ids_of systems)
      among degree [] d m = m
      among degree (sys ∷ systems) d m = elim (Bool-cases (is_zero (degree sys.id))) [
        | inr waits ↦ inr (among degree systems d (rw waits at m))
        | inl free ↦ elim (In-cases d (sys.id ∷ []) (sources degree systems) (rw free at m)) [
          | inl first ↦ elim first [ inl here ↦ inl here | inr none' ↦ absurd none' ]
          | inr rest ↦ inr (among degree systems d rest)
        ]
      ]

-- The sort of the systems of a phase comes to an end for any dependencies, cyclic or missing ones
-- included: it neither panics nor runs on. Where it gives an order, that has as many systems as were
-- given, and each of them is one of those.
pub topological_sort-Sorts :
    {W : Type 0} (phase : ℕ) (systems : List (System W))
    → Returns
        (λ answer.
          (sorted : List (System W))
          → answer ≡ Errors.ok sorted
          → (length sorted ≡ length systems) × ((sys : System W) → In sys sorted → In sys systems))
        (topological_sort phase systems)
unfolding topological_sort
topological_sort-Sorts phase systems =
    let start : Edges = record { dependents = λ id. []; in_degree = λ id. pos 0 } in
    elim (Result-cases (collect phase systems systems start)) [
      | inr (failure, failed) ↦ rw (failed, topological_sort) (λ sorted h. absurd (cc h))
      | inl (e, collected) ↦
          let closed =
            collect-Closed phase systems systems start e (λ x m. m) (λ id. tt) collected in
          rw (collected, topological_sort)
            (Returns-bind (Sorts systems (0 + length systems))
              (λ answer.
                (sorted : List (System _))
                → answer ≡ Errors.ok sorted
                → (length sorted ≡ length systems)
                  × ((sys : System _) → In sys sorted → In sys systems))
              (sort_loop (length systems) systems e.dependents (sources e.in_degree systems)
                e.in_degree [])
              _
              (sort_loop-Sorts (length systems) systems e.dependents (sources e.in_degree systems)
                e.in_degree [] closed (sources-In e.in_degree systems)
                (sources-waiting e.in_degree systems) (λ x m. absurd m))
              (λ result h sorted same. elim (Bool-cases (length result == length systems)) [
                | inr short ↦ absurd (cc (rw short at same))
                | inl full ↦
                    let e1 : result ≡ sorted =
                      one_answer result sorted (Errors.ok result) refl (rw full at same) in
                    rw (← e1) ((==_iff (length result) (length systems)).0 full, h.1)
              ]))
    ]
