-- ===== src/Withered/Rounds.antt =====
-- Runs of the scheduler and of the tick of the game on small inputs.
use tanzlaurel.Base.{
  ℕ, ◌+◌, ◌-◌, ◌*◌, ◌/◌, ◌≡◌, refl, List, [], ◌∷◌, ltb, leb, ◌==◌, length, Returns, Outcome,
}
use tanzlaurel.Base.Errors
use tanzlaurel.Base.Members.{In}
use tanzlaurel.Withered.Game.World.{ShootingWorld, Vector, new_shooting_world}
use tanzlaurel.Withered.Game.Commands.{on_join, on_leave}
use tanzlaurel.Withered.Game.Floats.{FloatOps}
use tanzlaurel.Withered.Game.Scheduler.{
  System, find_system, add_dependencies, collect, sources, release, sort_loop, topological_sort,
  cyclic_dependency,
}
use tanzlaurel.Withered.Game.Scheduler.Termination.{ids_of, topological_sort-Sorts}
use tanzlaurel.Withered.Game.Scheduler.Ordering.{Ordered, topological_sort-Ordered}
use tanzlaurel.Flourish.Crdt.Rga.{contains}
use tanzlaurel.Flourish.Socket.Once.{IsOnce}
use tanzlaurel.Withered.Game.Fitness.{IsFit}
use tanzlaurel.Withered.Game.Ticks.{game_map, game_scheduler, tick}
use tanzlaurel.Withered.Game.Bounds.{tick-IsFit}

abbrev step : ℕ → List ℕ → System ℕ
step id after = record { id = id; phase = 0; after = after; run = λ n. n + id }

abbrev chain : List (System ℕ)
chain = step 3 (2 ∷ []) ∷ step 1 [] ∷ step 2 (1 ∷ []) ∷ []

chain-IsOnce : IsOnce (ids_of chain)
unfolding contains
chain-IsOnce = (refl, (refl, (refl, tt)))

abbrev circle : List (System ℕ)
circle = step 1 (2 ∷ []) ∷ step 2 (1 ∷ []) ∷ []

unfoldable sorting : Unit {0}
unfolding find_system add_dependencies collect sources release sort_loop topological_sort
sorting = tt

chain_sorted :
    topological_sort 0 chain
    ≡ Outcome.ok (Errors.ok (step 1 [] ∷ step 2 (1 ∷ []) ∷ step 3 (2 ∷ []) ∷ []))
unfolding sorting
chain_sorted = refl

circle_refused : topological_sort 0 circle ≡ Outcome.ok (Errors.err cyclic_dependency)
unfolding sorting
circle_refused = refl

topological_sort-Sorts_example :
    Returns
      (λ answer.
        (sorted : List (System ℕ))
        → answer ≡ Errors.ok sorted
        → (length sorted ≡ length chain) × ((sys : System ℕ) → In sys sorted → In sys chain))
      (topological_sort 0 chain)
topological_sort-Sorts_example = topological_sort-Sorts 0 chain

-- Some arithmetic on numbers.
topological_sort-Ordered_example :
    Returns
      (λ answer.
        (sorted : List (System ℕ))
        → answer ≡ Errors.ok sorted
        → Ordered [] sorted × IsOnce (ids_of sorted))
      (topological_sort 0 chain)
topological_sort-Ordered_example = topological_sort-Ordered 0 chain chain-IsOnce

abbrev whole : FloatOps
whole = record {
  add = λ a b. a + b;
  sub = λ a b. a - b;
  mul = λ a b. a * b;
  div = λ a b. a / b;
  lt = ltb;
  le = leb;
  eq = λ a b. a == b;
  sqrt = λ a. a;
  of_int = λ n. n;
}

abbrev corner : ℕ → Vector
corner id = record { x = 5; y = id }

tick-IsFit_example :
    IsFit new_shooting_world
    × ((at_pos : Vector) (session_id : ℕ) (w : ShootingWorld)
        → IsFit w
        → IsFit (on_join at_pos session_id w))
    × ((session_id : ℕ) (w : ShootingWorld) → IsFit w → IsFit (on_leave session_id w))
    × Returns
        (λ scheduler. (w : ShootingWorld) → IsFit w → IsFit (tick scheduler w).0)
        (game_scheduler whole corner game_map)
tick-IsFit_example = tick-IsFit whole corner game_map
