-- ===== src/Withered/Game/Scheduler/Dependencies.antt =====
-- What the first loop of `topologicalSort` collects: the dependencies, counted from both ends.
use tanzlaurel.Base.{
  ℕ, suc, ◌+◌, ◌≡◌, refl, sym, ap, subst, ◌∙◌, List, [], ◌∷◌, ◌++◌, false, ◌==◌, ==_iff,
  if◌then◌else◌, length, length-append, Bool-cases, Option-cases, inl, inr, arith,
}
use mathlib.Core.List.{append-nil, append_assoc}
use tanzlaurel.Base.Int.{pos}
use tanzlaurel.Base.Errors.{Result-cases}
use tanzlaurel.Base.Errors
use tanzlaurel.Flourish.Store.Events.{update}
use tanzlaurel.Withered.Game.Scheduler.{System, succ, Edges, find_system, add_dependencies, collect}

-- How often a number is in the list.
unfoldable pub count : ℕ → List ℕ → ℕ
count k [] = 0
count k (x ∷ xs) = let rest = count k xs in if x == k then suc rest else rest

count-append : (k : ℕ) (xs ys : List ℕ) → count k (xs ++ ys) ≡ count k xs + count k ys
unfolding count
count-append k [] ys = omega arith
count-append k (x ∷ xs) ys = let h = count-append k xs ys in ground (arith, h)

-- The dependencies of an id that were read so far, and the edges for them.
pub record Built (have : ℕ → List ℕ) (e : Edges) : Type 0 where
  pub degrees : (x : ℕ) → e.in_degree x ≡ pos (length (have x))
  pub counts : (x c : ℕ) → count x (e.dependents c) ≡ count c (have x)

pub new_edges-Built : Built (λ x. []) (record { dependents = λ id. []; in_degree = λ id. pos 0 })
unfolding count
new_edges-Built = record { degrees = λ x. refl; counts = λ x c. refl }

Built-same :
    (have have' : ℕ → List ℕ) (e : Edges)
    → ((x : ℕ) → have x ≡ have' x)
    → Built have e
    → Built have' e
Built-same have have' e same h = record {
  degrees = λ x. h.degrees x ∙ ap (λ ds. pos (length ds)) (same x);
  counts = λ x c. h.counts x c ∙ ap (count c) (same x);
}

Built-step :
    (have : ℕ → List ℕ) (e : Edges) (id dep_id : ℕ)
    → Built have e
    → Built (update have id (have id ++ (dep_id ∷ []))) (record {
      dependents = update e.dependents dep_id (e.dependents dep_id ++ (id ∷ []));
      in_degree = update e.in_degree id (succ (e.in_degree id));
    })
unfolding count
Built-step have e id dep_id h = record {
  degrees = λ x. elim (Bool-cases (x == id)) [
    | inl here ↦
        rw (here, h.degrees id)
          (ap pos (let grown = length-append (have id) (dep_id ∷ []) in omega (arith, grown)))
    | inr other ↦ rw other (h.degrees x)
  ];
  counts = λ x c. elim (Bool-cases (c == dep_id)) [
    | inr apart ↦
        let apart' : (dep_id == c) ≡ false = ground arith in
        elim (Bool-cases (x == id)) [
          | inr other ↦ rw (apart, other) (h.counts x c)
          | inl here ↦
              let same = (==_iff x id).0 here in
              let grown = count-append c (have id) (dep_id ∷ []) in
              rw (apart, here, grown, apart', same) (h.counts id c ∙ omega arith)
        ]
    | inl dep ↦
        let at_dep = (==_iff c dep_id).0 dep in
        let grown' = count-append x (e.dependents dep_id) (id ∷ []) in
        elim (Bool-cases (x == id)) [
          | inr other ↦
              let other' : (id == x) ≡ false = ground arith in
              rw (dep, other, grown', other', at_dep) (omega (arith, h.counts x dep_id))
          | inl here ↦
              let same = (==_iff x id).0 here in
              let grown = count-append dep_id (have id) (dep_id ∷ []) in
              rw
                (
                  dep,
                  here,
                  grown',
                  same,
                  at_dep,
                  grown,
                  (==_iff id id).1 refl,
                  (==_iff dep_id dep_id).1 refl,
                )
                (omega (arith, h.counts id dep_id))
        ]
  ];
}

module _ {W : Type 0} where
  -- All dependencies that the systems with the id have.
  unfoldable pub needs : ℕ → List (System W) → List ℕ
  needs x [] = []
  needs x (sys ∷ systems) =
      let rest = needs x systems in if x == sys.id then sys.after ++ rest else rest

  add_dependencies-Built :
      (phase : ℕ) (systems : List (System W)) (id : ℕ) (deps : List ℕ) (have : ℕ → List ℕ)
      (e e' : Edges)
      → Built have e
      → add_dependencies phase systems id deps e ≡ Errors.ok e'
      → Built (update have id (have id ++ deps)) e'
  unfolding add_dependencies
  add_dependencies-Built phase systems id [] have e e' h run =
      let same : e ≡ e' = cc in
      rw (← same) (
        Built-same have _ e
          (λ x. elim (Bool-cases (x == id)) [
            | inl here ↦
                let at_id = (==_iff x id).0 here in rw (here, at_id) (sym (append-nil (have id)))
            | inr other ↦ rw other refl
          ])
          h)
  add_dependencies-Built phase systems id (dep_id ∷ deps) have e e' h run =
      let next : Edges = record {
        dependents = update e.dependents dep_id (e.dependents dep_id ++ (id ∷ []));
        in_degree = update e.in_degree id (succ (e.in_degree id));
      } in
      let have' = update have id (have id ++ (dep_id ∷ [])) in
      elim (Option-cases (find_system dep_id systems)) [
        | inl missing ↦ absurd (cc (rw (missing, add_dependencies) at run))
        | inr (dep, there) ↦ elim (Bool-cases (dep.phase == phase)) [
          | inr cross ↦ absurd (cc (rw (there, cross, add_dependencies) at run))
          | inl same ↦
              let step : add_dependencies phase systems id (dep_id ∷ deps) e
                  ≡ add_dependencies phase systems id deps next =
                rw (there, same, add_dependencies) refl in
              Built-same (update have' id (have' id ++ deps)) _ e'
                (λ x. elim (Bool-cases (x == id)) [
                  | inl here ↦
                      rw (here, (==_iff id id).1 refl) (append_assoc (have id) (dep_id ∷ []) deps)
                  | inr other ↦ rw other refl
                ])
                (add_dependencies-Built phase systems id deps have' next e'
                  (Built-step have e id dep_id h) (sym step ∙ run))
        ]
      ]

  pub collect-Built :
      (phase : ℕ) (systems rest : List (System W)) (have : ℕ → List ℕ) (e e' : Edges)
      → Built have e
      → collect phase systems rest e ≡ Errors.ok e'
      → Built (λ x. have x ++ needs x rest) e'
  unfolding collect needs
  collect-Built phase systems [] have e e' h run =
      let same : e ≡ e' = cc in rw (← same) (Built-same have _ e (λ x. sym (append-nil (have x))) h)
  collect-Built phase systems (sys ∷ rest) have e e' h run =
      elim (Result-cases (add_dependencies phase systems sys.id sys.after e)) [
        | inr (failure, failed) ↦ absurd (cc (rw (failed, collect) at run))
        | inl (e1, added) ↦
            let have' = update have sys.id (have sys.id ++ sys.after) in
            let step : collect phase systems (sys ∷ rest) e ≡ collect phase systems rest e1 =
              rw (added, collect) refl in
            Built-same (λ x. have' x ++ needs x rest) _ e'
              (λ x. elim (Bool-cases (x == sys.id)) [
                | inl here ↦
                    let at_id = (==_iff x sys.id).0 here in
                    subst (λ z. have' z ++ needs z rest ≡ have z ++ needs z (sys ∷ rest))
                      (sym at_id)
                      (rw ((==_iff sys.id sys.id).1 refl)
                        (append_assoc (have sys.id) sys.after (needs sys.id rest)))
                | inr other ↦ rw other refl
              ])
              (collect-Built phase systems rest have' e1 e'
                (add_dependencies-Built phase systems sys.id sys.after have e e1 h added)
                (sym step ∙ run))
      ]
