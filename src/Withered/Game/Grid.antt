-- ===== src/Withered/Game/Grid.antt =====
-- withered/server/application/map.go: the tiles of a map. A coordinate is an `int` of either sign.
-- The sizes are those that `make` accepts, so they are not negative. The size of a tile
-- is the bit pattern of a float32.
use tanzlaurel.Base.{
  ℕ, zero, suc, ◌+◌, ◌*◌, List, [], ◌∷◌, Option, none, some, leb, if◌then◌else◌, get_elem?, set,
  Outcome, or_panic, ◌>>=◌,
}
use tanzlaurel.Base.Errors.{Result, ok, err}
use tanzlaurel.Base.Int.{ℤ, pos, negsuc}

abbrev pub tile_empty : ℕ
tile_empty = 0

abbrev pub tile_wall : ℕ
tile_wall = 1

pub record TileOutOfRangeError : Type 0 where
  pub x : ℤ
  pub y : ℤ
  pub width : ℕ
  pub height : ℕ

pub record Grid : Type 0 where
  pub width : ℕ
  pub height : ℕ
  pub tile_size : ℕ
  pub tiles : List ℕ

unfoldable pub replicate : ℕ → ℕ → List ℕ
replicate zero x = []
replicate (suc n) x = x ∷ replicate n x

unfoldable pub new_map : ℕ → ℕ → ℕ → Grid
new_map width height tile_size = record {
  width = width;
  height = height;
  tile_size = tile_size;
  tiles = replicate (width * height) tile_empty;
}

-- The index of a tile, unless the coordinates are out of range.
unfoldable pub tile_index : Grid → ℤ → ℤ → Option ℕ
tile_index g (negsuc x) y = none
tile_index g (pos x) (negsuc y) = none
tile_index g (pos x) (pos y) =
    if leb g.width x then none else if leb g.height y then none else some (y * g.width + x)

unfoldable pub get_tile : Grid → ℤ → ℤ → Outcome ℕ
get_tile g x y = elim (tile_index g x y) [
  | none ↦ Outcome.ok tile_wall
  | some i ↦ or_panic (get_elem? g.tiles i)
]

unfoldable pub set_tile : ℤ → ℤ → ℕ → Grid → Outcome (Result TileOutOfRangeError Grid)
set_tile x y tile g = elim (tile_index g x y) [
  | none ↦ Outcome.ok (err (record { x = x; y = y; width = g.width; height = g.height }))
  | some i ↦ or_panic (get_elem? g.tiles i) >>= λ old.
      Outcome.ok (ok (record g { tiles = set g.tiles i tile }))
]
