-- ===== src/Withered/Game/Scheduler.antt =====
-- withered/server/application/schedular.go: the systems of each phase in an order that their
-- dependencies ask for. The id of a system is a number, with 0 for the empty string; a missing key of
-- `inDegree` reads as 0, and one of `dependents` as the empty list.
pub mod Termination
pub mod Dependencies
pub mod Ordering
use tanzlaurel.Base.{
  ℕ, zero, suc, List, [], ◌∷◌, ◌++◌, Bool, true, false, not, Option, none, some, ◌==◌,
  if◌then◌else◌, length, Outcome, ok, panic, stuck, ◌>>=◌,
}
use tanzlaurel.Base.Int.{ℤ, pos, negsuc, pred, is_zero}
use tanzlaurel.Base.Errors.{Result}
use tanzlaurel.Base.Errors
use tanzlaurel.Flourish.Store.Events.{update}

pub record System (W : Type 0) : Type 0 where
  pub id : ℕ
  pub phase : ℕ
  pub after : List ℕ
  pub run : W → W

pub data SchedulerError : Type 0 where
  empty_system_id duplicate_system_id missing_dependency cross_phase_dependency cyclic_dependency :
      SchedulerError

pub record Scheduler (W : Type 0) : Type 0 where
  pub order : ℕ → List (System W)
  pub phases : List ℕ

-- `dependents` and `inDegree`
pub record Edges : Type 0 where
  pub dependents : ℕ → List ℕ
  pub in_degree : ℕ → ℤ

abbrev pub succ : ℤ → ℤ
succ (pos n) = pos (suc n)
succ (negsuc zero) = pos 0
succ (negsuc (suc n)) = negsuc n

-- The loop over the dependents of a system that is done: what is left to wait for, and the queue.
unfoldable pub release : List ℕ → (ℕ → ℤ) → List ℕ → (ℕ → ℤ) × List ℕ
release [] in_degree queue = (in_degree, queue)
release (dep_id ∷ deps) in_degree queue =
    let degree = pred (in_degree dep_id) in
    release deps (update in_degree dep_id degree)
      (if is_zero degree then queue ++ (dep_id ∷ []) else queue)

module _ {W : Type 0} where
  -- A look-up in a map from ids to systems that the list was written to.
  unfoldable pub find_system : ℕ → List (System W) → Option (System W)
  find_system id [] = none
  find_system id (sys ∷ systems) = elim (find_system id systems) [
    | some found ↦ some found
    | none ↦ if sys.id == id then some sys else none
  ]

  -- The loop over `sys.After()`.
  unfoldable pub add_dependencies :
      ℕ → List (System W) → ℕ → List ℕ → Edges → Result SchedulerError Edges
  add_dependencies phase systems id [] e = Errors.ok e
  add_dependencies phase systems id (dep_id ∷ deps) e = elim (find_system dep_id systems) [
    | none ↦ Errors.err missing_dependency
    | some dep ↦ elim (dep.phase == phase) [
      | false ↦ Errors.err cross_phase_dependency
      | true ↦ add_dependencies phase systems id deps (record {
        dependents = update e.dependents dep_id (e.dependents dep_id ++ (id ∷ []));
        in_degree = update e.in_degree id (succ (e.in_degree id));
      })
    ]
  ]

  unfoldable pub collect :
      ℕ → List (System W) → List (System W) → Edges → Result SchedulerError Edges
  collect phase systems [] e = Errors.ok e
  collect phase systems (sys ∷ rest) e = elim (add_dependencies phase systems sys.id sys.after e) [
    | Errors.err failure ↦ Errors.err failure
    | Errors.ok e' ↦ collect phase systems rest e'
  ]

  unfoldable pub sources : (ℕ → ℤ) → List (System W) → List ℕ
  sources in_degree [] = []
  sources in_degree (sys ∷ systems) =
      let rest = sources in_degree systems in
      if is_zero (in_degree sys.id) then sys.id ∷ rest else rest

  -- `for len(queue) > 0`; an id of the queue that no system has would give a nil system.
  unfoldable pub sort_loop :
      ℕ
      → List (System W)
      → (ℕ → List ℕ)
      → List ℕ
      → (ℕ → ℤ)
      → List (System W)
      → Outcome (List (System W))
  sort_loop fuel systems dependents [] in_degree sorted = ok sorted
  sort_loop zero systems dependents (current ∷ queue) in_degree sorted = stuck
  sort_loop (suc fuel) systems dependents (current ∷ queue) in_degree sorted =
      elim (find_system current systems) [
        | none ↦ panic
        | some sys ↦
            let (left, queue') = release (dependents current) in_degree queue in
            sort_loop fuel systems dependents queue' left (sorted ++ (sys ∷ []))
      ]

  -- Each system enters the queue once at most, so as many turns as there are systems are enough.
  unfoldable pub topological_sort :
      ℕ → List (System W) → Outcome (Result SchedulerError (List (System W)))
  topological_sort phase systems =
      elim (collect phase systems systems
        (record { dependents = λ id. []; in_degree = λ id. pos 0 })) [
          | Errors.err failure ↦ ok (Errors.err failure)
          | Errors.ok e ↦
              sort_loop (length systems) systems e.dependents (sources e.in_degree systems)
                e.in_degree []
              >>= λ sorted. ok (
                  if length sorted == length systems
                  then Errors.ok sorted
                  else Errors.err cyclic_dependency)
        ]

  -- The first loop of `NewScheduler`: the ids are not empty and differ.
  unfoldable pub check_ids : List (System W) → List (System W) → Option SchedulerError
  check_ids before [] = none
  check_ids before (sys ∷ systems) = elim (sys.id == 0) [
    | true ↦ some empty_system_id
    | false ↦ elim (find_system sys.id before) [
      | some other ↦ some duplicate_system_id
      | none ↦ check_ids (before ++ (sys ∷ [])) systems
    ]
  ]

  -- `byPhase[phase]`
  unfoldable pub in_phase : ℕ → List (System W) → List (System W)
  in_phase phase [] = []
  in_phase phase (sys ∷ systems) =
      let rest = in_phase phase systems in if sys.phase == phase then sys ∷ rest else rest

  unfoldable pub order_phases :
      List ℕ
      → List (System W)
      → (ℕ → List (System W))
      → Outcome (Result SchedulerError (ℕ → List (System W)))
  order_phases [] systems order = ok (Errors.ok order)
  order_phases (phase ∷ phases) systems order =
      topological_sort phase (in_phase phase systems) >>= λ answer. elim answer [
        | Errors.err failure ↦ ok (Errors.err failure)
        | Errors.ok sorted ↦ order_phases phases systems (update order phase sorted)
      ]

  unfoldable pub new_scheduler :
      List ℕ → List (System W) → Outcome (Result SchedulerError (Scheduler W))
  new_scheduler phases systems = elim (check_ids [] systems) [
    | some failure ↦ ok (Errors.err failure)
    | none ↦ order_phases phases systems (λ phase. []) >>= λ answer. elim answer [
      | Errors.err failure ↦ ok (Errors.err failure)
      | Errors.ok order ↦ ok (Errors.ok (record { order = order; phases = phases }))
    ]
  ]

  unfoldable pub run_all : List (System W) → W → W
  run_all [] w = w
  run_all (sys ∷ systems) w = run_all systems (sys.run w)

  unfoldable pub run_phases : (ℕ → List (System W)) → List ℕ → W → W
  run_phases order [] w = w
  run_phases order (phase ∷ phases) w = run_phases order phases (run_all (order phase) w)

  unfoldable pub run_tick : Scheduler W → W → W
  run_tick s w = run_phases s.order s.phases w
