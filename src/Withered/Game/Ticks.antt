-- ===== src/Withered/Game/Ticks.antt =====
-- withered/server/application/withered_application.go: `NewWitheredApplication` and `Tick`. The ids of
-- the systems are numbered in the order of phase.go.
use tanzlaurel.Base.{ℕ, List, [], ◌∷◌, Option, none, some, Outcome, ok, panic, ◌>>=◌}
use tanzlaurel.Base.Errors.{Result}
use tanzlaurel.Base.Errors
use tanzlaurel.Withered.Game.World.{ShootingWorld, Vector}
use tanzlaurel.Withered.Game.Grid.{Grid, new_map}
use tanzlaurel.Withered.Game.Floats.{FloatOps}
use tanzlaurel.Withered.Game.Scheduler.{System, Scheduler, new_scheduler, run_tick}
use tanzlaurel.Withered.Game.Systems.{
  respawn, input_move, auto_shoot, bullet_move, collision_damage, bullet_cleanup,
}
use tanzlaurel.Withered.Game.Snapshots.{encode_snapshot}

abbrev pub phase_simulation : ℕ
phase_simulation = 0

abbrev pub phase_network : ℕ
phase_network = 1

-- `NewMap(100, 100, 1.0)`
abbrev pub game_map : Grid
unfolding new_map
game_map = new_map 100 100 0x3F800000

module _ (f : FloatOps) (draw : ℕ → Vector) (g : Grid) where
  abbrev pub systems : List (System ShootingWorld)
  systems =
      record { id = 1; phase = phase_simulation; after = []; run = respawn f draw }
      ∷ record { id = 2; phase = phase_simulation; after = 1 ∷ []; run = input_move f g }
      ∷ record { id = 3; phase = phase_simulation; after = 2 ∷ []; run = auto_shoot f }
      ∷ record { id = 4; phase = phase_simulation; after = 3 ∷ []; run = bullet_move f }
      ∷ record { id = 5; phase = phase_simulation; after = 4 ∷ []; run = collision_damage f }
      ∷ record { id = 6; phase = phase_simulation; after = 5 ∷ []; run = bullet_cleanup }
      ∷ record { id = 7; phase = phase_network; after = []; run = λ w. w }
      ∷ []

  -- An error of the scheduler is a panic.
  unfoldable pub game_scheduler : Outcome (Scheduler ShootingWorld)
  game_scheduler = new_scheduler (phase_simulation ∷ phase_network ∷ []) systems >>= λ answer.
      elim answer [ Errors.err failure ↦ panic | Errors.ok scheduler ↦ ok scheduler ]

-- `Tick`: no bytes for a world without entities.
unfoldable pub tick_bytes : ShootingWorld → Option (List ℕ)
tick_bytes w = elim w.entities [ [] ↦ none | id ∷ ids ↦ some (encode_snapshot w) ]

unfoldable pub tick : Scheduler ShootingWorld → ShootingWorld → ShootingWorld × Option (List ℕ)
tick scheduler w = let w' = run_tick scheduler w in (w', tick_bytes w')
