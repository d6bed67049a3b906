-- ===== src/Withered/Game/Floats.antt =====
-- The arithmetic of float32, which is a parameter: a value is its bit pattern.
use tanzlaurel.Base.{ℕ, Bool, if◌then◌else◌}
use tanzlaurel.Withered.Game.World.{Vector}
use tanzlaurel.Withered.Game.Grid.{Grid}

-- The operators of Go on float32, the conversion from `int`, and the square root through float64.
pub record FloatOps : Type 0 where
  pub add : ℕ → ℕ → ℕ
  pub sub : ℕ → ℕ → ℕ
  pub mul : ℕ → ℕ → ℕ
  pub div : ℕ → ℕ → ℕ
  pub lt : ℕ → ℕ → Bool
  pub le : ℕ → ℕ → Bool
  pub eq : ℕ → ℕ → Bool
  pub sqrt : ℕ → ℕ
  pub of_int : ℕ → ℕ

module _ (f : FloatOps) where
  -- `clamp` of field.go
  unfoldable pub clamp : ℕ → ℕ → ℕ → ℕ
  clamp v min max = if f.lt v min then min else if f.lt max v then max else v

  unfoldable pub world_width : Grid → ℕ
  world_width g = f.mul (f.of_int g.width) g.tile_size

  unfoldable pub world_height : Grid → ℕ
  world_height g = f.mul (f.of_int g.height) g.tile_size

  -- `spawnMargin` is 5.0; the two draws of `rand.Float32` are arguments.
  abbrev pub spawn_margin : ℕ
  spawn_margin = 0x40A00000

  abbrev twice_margin : ℕ
  twice_margin = 0x41200000

  unfoldable pub random_position : Grid → ℕ → ℕ → Vector
  random_position g rx ry = record {
    x = f.add spawn_margin (f.mul rx (f.sub (world_width g) twice_margin));
    y = f.add spawn_margin (f.mul ry (f.sub (world_height g) twice_margin));
  }

  -- `dx*dx + dy*dy` for the difference of two places.
  unfoldable pub distance_sq : Vector → Vector → ℕ
  distance_sq a b =
      let dx = f.sub a.x b.x in let dy = f.sub a.y b.y in f.add (f.mul dx dx) (f.mul dy dy)
