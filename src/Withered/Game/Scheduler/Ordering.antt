-- ===== src/Withered/Game/Scheduler/Ordering.antt =====
-- The order that `topologicalSort` gives, for withered/server/application/schedular.go.
use tanzlaurel.Base.{
  ℕ, zero, suc, ◌+◌, ◌≡◌, refl, sym, ap, ◌∙◌, subst, List, [], ◌∷◌, ◌++◌, Bool, true, false, none,
  some, ◌==◌, ==_iff, if◌then◌else◌, length, All, Outcome, ok, panic, stuck, ◌>>=◌, Returns,
  Bool-cases, Option-cases, inl, inr, arith,
}
use mathlib.Core.List.{append-nil, append_assoc, map-append}
use mathlib.Core.Option.{some-injective}
use tanzlaurel.Base.Int.{ℤ, pos, pred, is_zero, is_positive}
use tanzlaurel.Base.Errors.{Result, Result-cases}
use tanzlaurel.Base.Errors
use tanzlaurel.Base.Members.{In}
use tanzlaurel.Flourish.Crdt.Rga.{contains}
use tanzlaurel.Flourish.Store.Events.{update}
use tanzlaurel.Flourish.Socket.Once.{IsOnce, contains-snoc, IsOnce-snoc}
use tanzlaurel.Withered.Game.Scheduler.{
  System, Edges, cyclic_dependency, find_system, collect, sources, release, sort_loop,
  topological_sort,
}
use tanzlaurel.Withered.Game.Scheduler.Termination.{
  step_down, is_zero-pred, is_zero-is_positive, find_system-In, ids_of, topological_sort-Sorts,
}
use tanzlaurel.Withered.Game.Scheduler.Dependencies.{count, needs, new_edges-Built, collect-Built}

-- How many entries of the second list are not in the first.
missing : List ℕ → List ℕ → ℕ
missing done [] = 0
missing done (d ∷ ds) = let rest = missing done ds in if contains d done then rest else suc rest

missing-nil : (ds : List ℕ) → missing [] ds ≡ length ds
unfolding missing contains
missing-nil [] = refl
missing-nil (d ∷ ds) = ap suc (missing-nil ds)

missing-snoc :
    (done ds : List ℕ) (c : ℕ)
    → contains c done ≡ false
    → missing done ds ≡ missing (done ++ (c ∷ [])) ds + count c ds
unfolding missing count
missing-snoc done [] c new = omega arith
missing-snoc done (d ∷ ds) c new =
    let h = missing-snoc done ds c new in
    elim (Bool-cases (d == c)) [
      | inl here ↦
          let same = (==_iff d c).0 here in
          rw (contains-snoc d c done, here, same, new) (omega (arith, h))
      | inr other ↦ elim (Bool-cases (contains d done)) [
        | inl old ↦ rw (contains-snoc d c done, other, old) h
        | inr more ↦ rw (contains-snoc d c done, other, more) (omega (arith, h))
      ]
    ]

missing-zero : (done ds : List ℕ) → missing done ds ≡ 0 → All (λ d. contains d done ≡ true) ds
unfolding missing
missing-zero done [] h = tt
missing-zero done (d ∷ ds) h = elim (Bool-cases (contains d done)) [
  | inl old ↦ (old, missing-zero done ds (rw old at h))
  | inr more ↦ let e : suc (missing done ds) ≡ 0 = rw more at h in absurd (omega (arith, e))
]

-- The loop over the dependents takes one step down for each.
release-degrees :
    (base : ℕ → ℕ) (deps : List ℕ) (degree : ℕ → ℤ) (queue : List ℕ)
    → ((x : ℕ) → degree x ≡ pos (base x + count x deps))
    → (x : ℕ) → (release deps degree queue).0 x ≡ pos (base x)
unfolding release count
release-degrees base [] degree queue h x = h x ∙ ap pos (omega arith)
release-degrees base (d ∷ deps) degree queue h x =
    release-degrees base deps (update degree d (pred (degree d))) _
      (λ y. elim (Bool-cases (y == d)) [
        | inl here ↦
            let same = (==_iff y d).0 here in
            let now : degree d ≡ pos (suc (base d + count d deps)) =
              h d ∙ ap pos (rw ((==_iff d d).1 refl) (omega arith)) in
            rw (here, now, same) refl
        | inr other ↦
            let other' : (d == y) ≡ false = ground arith in rw other (h y ∙ rw other' refl)
      ])
      x

-- What is in the queue, or was, is there once and waits for nothing.
record Settled (seen : List ℕ) (degree : ℕ → ℤ) : Type 0 where
  once : IsOnce seen
  free : (x : ℕ) → contains x seen ≡ true → is_positive (degree x) ≡ false

Settled-down :
    (seen : List ℕ) (degree : ℕ → ℤ) (d : ℕ)
    → Settled seen degree
    → Settled seen (update degree d (pred (degree d)))
Settled-down seen degree d h = record {
  once = h.once;
  free = λ x m. elim (Bool-cases (is_positive (update degree d (pred (degree d)) x))) [
    | inr not_there ↦ not_there
    | inl there ↦ let before = step_down degree d x there in absurd (cc (h.free x m))
  ];
}

release-Settled :
    (done deps : List ℕ) (degree : ℕ → ℤ) (queue : List ℕ)
    → Settled (done ++ queue) degree
    → Settled (done ++ (release deps degree queue).1) (release deps degree queue).0
unfolding release
release-Settled done [] degree queue h = h
release-Settled done (d ∷ deps) degree queue h =
    let down = Settled-down (done ++ queue) degree d h in
    let next = update degree d (pred (degree d)) in
    elim (Bool-cases (is_zero (pred (degree d)))) [
      | inr more ↦ rw (more, release) (release-Settled done deps next queue down)
      | inl zero' ↦
          let (waited, waits) = is_zero-pred (degree d) zero' in
          let new : contains d (done ++ queue) ≡ false =
            elim (Bool-cases (contains d (done ++ queue))) [
              | inr not_there ↦ not_there
              | inl there ↦ let free = h.free d there in absurd (cc free)
            ] in
          let wider : Settled ((done ++ queue) ++ (d ∷ [])) next = record {
            once = IsOnce-snoc d (done ++ queue) new h.once;
            free = λ x m. elim (Bool-cases (x == d)) [
              | inl here ↦ rw here waits
              | inr other ↦
                  let old : contains x (done ++ queue) ≡ true =
                    (let grown = contains-snoc x d (done ++ queue) in ground (arith, grown, m)) in
                  down.free x old
            ];
          } in
          rw (zero', release)
            (release-Settled done deps next (queue ++ (d ∷ []))
              (subst (λ seen. Settled seen next) (append_assoc done queue (d ∷ [])) wider))
    ]

All-parts : (P : ℕ → Type 0) (xs ys : List ℕ) → All P (xs ++ ys) → All P xs × All P ys
All-parts P [] ys h = (tt, h)
All-parts P (x ∷ xs) ys h = let (a, b) = All-parts P xs ys h.1 in ((h.0, a), b)

same_ok {ℓ} : {A : Type ℓ} (a b : A) → ok a ≡ ok b → a ≡ b
same_ok a b h = cc

contains-middle : (x : ℕ) (xs ys : List ℕ) → contains x (xs ++ (x ∷ ys)) ≡ true
unfolding contains
contains-middle x [] ys = ground (arith, (==_iff x x).1 refl)
contains-middle x (y ∷ xs) ys = ground (arith, contains-middle x xs ys)

IsOnce-apart : (x : ℕ) (xs ys : List ℕ) → IsOnce (xs ++ (x ∷ ys)) → contains x xs ≡ false
unfolding contains
IsOnce-apart x [] ys h = refl
IsOnce-apart x (y ∷ xs) ys h = elim (Bool-cases (x == y)) [
  | inr other ↦ rw other (IsOnce-apart x xs ys h.1)
  | inl here ↦
      let same = (==_iff x y).0 here in
      let there : contains y (xs ++ (x ∷ ys)) ≡ true = rw same (contains-middle y xs ys) in
      absurd (cc (sym there ∙ h.0))
]

not_positive : (m : ℕ) → is_positive (pos m) ≡ false → m ≡ 0
not_positive zero h = refl
not_positive (suc m) h = absurd (cc h)

module _ {W : Type 0} where
  -- Each system is behind those that it depends on, or they are among `done`.
  abbrev pub Ordered : List ℕ → List (System W) → Type 0
  Ordered done [] = Unit {0}
  Ordered done (sys ∷ systems) =
      All (λ d. contains d done ≡ true) sys.after × Ordered (done ++ (sys.id ∷ [])) systems

  Ordered-snoc :
      (done : List ℕ) (systems : List (System W)) (sys : System W)
      → Ordered done systems
      → All (λ d. contains d (done ++ ids_of systems) ≡ true) sys.after
      → Ordered done (systems ++ (sys ∷ []))
  Ordered-snoc done [] sys h a = (rw (append-nil done) at a, tt)
  Ordered-snoc done (x ∷ systems) sys h a = (
    h.0,
    Ordered-snoc (done ++ (x.id ∷ [])) systems sys h.1
        (rw (← append_assoc done (x.id ∷ []) (ids_of systems)) at a),
  )

  find_system-id :
      (id : ℕ) (systems : List (System W)) (sys : System W)
      → find_system id systems ≡ some sys
      → sys.id ≡ id
  unfolding find_system
  find_system-id id [] sys h = absurd (cc h)
  find_system-id id (x ∷ xs) sys h = elim (Option-cases (find_system id xs)) [
    | inr (other, e) ↦ find_system-id id xs sys (e ∙ sym (rw (e, find_system) refl) ∙ h)
    | inl e ↦ elim (Bool-cases (x.id == id)) [
      | inl here ↦
          let same = some-injective x sys (sym (rw (e, here, find_system) refl) ∙ h) in
          ap (λ (y : System W). y.id) (sym same) ∙ (==_iff x.id id).0 here
      | inr other ↦
          let none' : find_system id (x ∷ xs) ≡ none = rw (e, other, find_system) refl in
          absurd (cc none')
    ]
  ]

  needs-All :
      (P : ℕ → Type 0) (sys : System W) (systems : List (System W))
      → In sys systems
      → All P (needs sys.id systems)
      → All P sys.after
  unfolding needs
  needs-All P sys [] m h = absurd m
  needs-All P sys (x ∷ systems) (inl e) h =
      (All-parts P sys.after (needs sys.id systems)
        (rw (← e, (==_iff sys.id sys.id).1 refl) at h)).0
  needs-All P sys (x ∷ systems) (inr m) h = elim (Bool-cases (sys.id == x.id)) [
    | inl here ↦
        needs-All P sys systems m (All-parts P x.after (needs sys.id systems) (rw here at h)).1
    | inr other ↦ needs-All P sys systems m (rw other at h)
  ]

  sources-IsOnce :
      (degree : ℕ → ℤ) (systems : List (System W))
      → IsOnce (ids_of systems)
      → IsOnce (sources degree systems)
        × ((x : ℕ)
            → contains x (sources degree systems) ≡ true
            → (contains x (ids_of systems) ≡ true) × (is_zero (degree x) ≡ true))
  unfolding sources contains
  sources-IsOnce degree [] once = (tt, λ x m. absurd (cc m))
  sources-IsOnce degree (sys ∷ systems) once =
      let (rest, among) = sources-IsOnce degree systems once.1 in
      elim (Bool-cases (is_zero (degree sys.id))) [
        | inr waits ↦ rw waits (rest, λ x m. let (a, b) = among x m in (ground (arith, a), b))
        | inl free ↦
            let new : contains sys.id (sources degree systems) ≡ false =
              elim (Bool-cases (contains sys.id (sources degree systems))) [
                | inr not_there ↦ not_there
                | inl there ↦ let (a, b) = among sys.id there in absurd (cc (sym a ∙ once.0))
              ] in
            rw free (
              (new, rest),
              λ x m. elim (Bool-cases (x == sys.id)) [
                | inl here ↦ let same = (==_iff x sys.id).0 here in (rw here refl, rw same free)
                | inr other ↦ let (a, b) = among x (rw other at m) in (rw other a, b)
              ],
            )
      ]

  sort_loop-Ordered :
      (fuel : ℕ) (systems : List (System W)) (dependents : ℕ → List ℕ) (queue : List ℕ)
      (degree : ℕ → ℤ) (sorted result : List (System W))
      → ((x c : ℕ) → count x (dependents c) ≡ count c (needs x systems))
      → ((x : ℕ) → degree x ≡ pos (missing (ids_of sorted) (needs x systems)))
      → Settled (ids_of sorted ++ queue) degree
      → Ordered [] sorted
      → sort_loop fuel systems dependents queue degree sorted ≡ ok result
      → Ordered [] result × IsOnce (ids_of result)
  unfolding sort_loop
  sort_loop-Ordered fuel systems dependents [] degree sorted result counts degrees h o run =
      let same = same_ok sorted result run in
      rw (← same) (o, rw (append-nil (ids_of sorted)) at h.once)
  sort_loop-Ordered zero systems dependents (id ∷ queue) degree sorted result counts degrees h o
        run =
      absurd (cc run)
  sort_loop-Ordered (suc fuel) systems dependents (id ∷ queue) degree sorted result counts degrees h
        o run =
      elim (Option-cases (find_system id systems)) [
        | inl lost ↦ absurd (cc (rw (lost, sort_loop) at run))
        | inr (sys, e) ↦
            let same : sys.id ≡ id = find_system-id id systems sys e in
            let done = ids_of sorted in
            let new = IsOnce-apart id done queue h.once in
            let free : missing done (needs id systems) ≡ 0 =
              not_positive (missing done (needs id systems))
                (rw (degrees id) at (h.free id (contains-middle id done queue))) in
            let before : All (λ d. contains d done ≡ true) sys.after =
              needs-All (λ d. contains d done ≡ true) sys systems (find_system-In id systems sys e)
                (rw same (missing-zero done (needs id systems) free)) in
            let ids : ids_of (sorted ++ (sys ∷ [])) ≡ done ++ (id ∷ []) =
              map-append (λ (x : System W). x.id) sorted (sys ∷ [])
              ∙ ap (λ k. done ++ (k ∷ [])) same in
            let next = release (dependents id) degree queue in
            let left =
              release-degrees (λ x. missing (done ++ (id ∷ [])) (needs x systems)) (dependents id)
                degree queue
                (λ x.
                  degrees x
                  ∙ ap pos (
                      missing-snoc done (needs x systems) id new
                      ∙ ap (λ k. missing (done ++ (id ∷ [])) (needs x systems) + k)
                          (sym (counts x id)))) in
            let settled =
              release-Settled (done ++ (id ∷ [])) (dependents id) degree queue
                (subst (λ seen. Settled seen degree) (sym (append_assoc done (id ∷ []) queue)) h) in
            sort_loop-Ordered fuel systems dependents next.1 next.0 (sorted ++ (sys ∷ [])) result
              counts (rw ids left) (rw ids settled) (Ordered-snoc [] sorted sys o before)
              (sym (rw (e, sort_loop) refl) ∙ run)
      ]

first_ok {ℓ κ} :
    {A : Type ℓ} {B : Type κ} (Q : B → Type 0) (first : Outcome A) (next : A → Outcome B)
    → Returns Q (first >>= next)
    → (x : A) × (first ≡ ok x)
first_ok Q (ok x) next h = (x, refl)
first_ok Q panic next h = absurd h
first_ok Q stuck next h = absurd h

one_order {ℓ} :
    {A : Type ℓ} {E : Type 0} (b : Bool) (e : E) (x y : A)
    → (if b then Errors.ok x else Errors.err e) ≡ Errors.ok y
    → x ≡ y
one_order true e x y h = cc
one_order false e x y h = absurd (cc h)

-- Of systems whose ids differ, the sort of a phase gives an order, in which every system comes behind
-- all that it depends on and no id is twice, or an error; it neither panics nor runs on.
pub topological_sort-Ordered :
    {W : Type 0} (phase : ℕ) (systems : List (System W))
    → IsOnce (ids_of systems)
    → Returns
        (λ answer.
          (sorted : List (System W))
          → answer ≡ Errors.ok sorted
          → Ordered [] sorted × IsOnce (ids_of sorted))
        (topological_sort phase systems)
unfolding topological_sort sort_loop sources contains
topological_sort-Ordered phase systems once =
    let start : Edges = record { dependents = λ id. []; in_degree = λ id. pos 0 } in
    let total = topological_sort-Sorts phase systems in
    elim (Result-cases (collect phase systems systems start)) [
      | inr (failure, failed) ↦ rw (failed, topological_sort) (λ sorted h. absurd (cc h))
      | inl (e, collected) ↦
          let built =
            collect-Built phase systems systems (λ x. []) start e (new_edges-Built) collected in
          let (distinct, among) = sources-IsOnce e.in_degree systems once in
          let (result, run) =
            first_ok _
              (sort_loop (length systems) systems e.dependents (sources e.in_degree systems)
                e.in_degree [])
              _ (rw (collected, topological_sort) at total) in
          let (o, once') =
            sort_loop-Ordered (length systems) systems e.dependents (sources e.in_degree systems)
              e.in_degree [] result built.counts
              (λ x. built.degrees x ∙ ap pos (sym (missing-nil (needs x systems))))
              (record {
                once = distinct;
                free = λ x m. is_zero-is_positive (e.in_degree x) (among x m).1;
              })
              tt run in
          rw (collected, run, topological_sort)
            (λ sorted same.
              let e' =
                one_order (length result == length systems) cyclic_dependency result sorted same in
              rw (← e') (o, once'))
    ]
