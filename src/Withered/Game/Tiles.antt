-- ===== src/Withered/Game/Tiles.antt =====
-- Reading the tiles of a map after a write.
use tanzlaurel.Base.{
  ℕ, zero, suc, ◌+◌, ◌*◌, ◌<◌, ◌≡◌, ◌≢◌, refl, sym, ap, ◌∙◌, List, [], ◌∷◌, some, gt→leb, length,
  get_elem?, set, Outcome, arith, inl, inr, ◌⊎◌,
}
use tanzlaurel.Base.Errors.{ok}
use tanzlaurel.Base.Int.{pos}
use tanzlaurel.Withered.Game.Grid.{Grid, replicate, new_map, tile_index, get_tile, set_tile}

get_elem?-some {ℓ} :
    {A : Type ℓ} (xs : List A) (i : ℕ) → i < length xs → (x : A) × (get_elem? xs i ≡ some x)
get_elem?-some [] i h = absurd (omega arith)
get_elem?-some (x ∷ xs) zero h = (x, refl)
get_elem?-some (x ∷ xs) (suc i) h = get_elem?-some xs i (omega arith)

length-set {ℓ} : {A : Type ℓ} (xs : List A) (i : ℕ) (x : A) → length (set xs i x) ≡ length xs
length-set [] i x = refl
length-set (y ∷ ys) zero x = refl
length-set (y ∷ ys) (suc i) x = ap suc (length-set ys i x)

get_elem?-set {ℓ} :
    {A : Type ℓ} (xs : List A) (i : ℕ) (x : A) → i < length xs → get_elem? (set xs i x) i ≡ some x
get_elem?-set [] i x h = absurd (omega arith)
get_elem?-set (y ∷ ys) zero x h = refl
get_elem?-set (y ∷ ys) (suc i) x h = get_elem?-set ys i x (omega arith)

get_elem?-set_other {ℓ} :
    {A : Type ℓ} (xs : List A) (i j : ℕ) (x : A) → i ≢ j → get_elem? (set xs i x) j ≡ get_elem? xs j
get_elem?-set_other [] i j x ne = refl
get_elem?-set_other (y ∷ ys) zero zero x ne = absurd (ne refl)
get_elem?-set_other (y ∷ ys) zero (suc j) x ne = refl
get_elem?-set_other (y ∷ ys) (suc i) zero x ne = refl
get_elem?-set_other (y ∷ ys) (suc i) (suc j) x ne =
    get_elem?-set_other ys i j x (λ e. ne (ap suc e))

length-replicate : (n x : ℕ) → length (replicate n x) ≡ n
unfolding replicate
length-replicate zero x = refl
length-replicate (suc n) x = ap suc (length-replicate n x)

-- A map has a tile for each of its places.
abbrev pub IsFull : Grid → Type 0
IsFull g = length g.tiles ≡ g.width * g.height

pub new_map-IsFull : (width height tile_size : ℕ) → IsFull (new_map width height tile_size)
unfolding new_map
new_map-IsFull width height tile_size = length-replicate (width * height) _

index_bound : (w h x y : ℕ) → x < w → y < h → y * w + x < w * h
index_bound w h x y hx hy = grind arith

index_below : (w x y x' y' : ℕ) → x < w → y < y' → y * w + x ≢ y' * w + x'
index_below w x y x' y' hx hy e = grind (arith, index_bound w y' x y hx hy)

index_injective : (w x y x' y' : ℕ) → x < w → x' < w → y * w + x ≡ y' * w + x' → (x ≡ x') × (y ≡ y')
index_injective w x y x' y' h h' e =
    let up : ¬ (y < y') = λ lt. index_below w x y x' y' h lt e in
    let down : ¬ (y' < y) = λ lt. index_below w x' y' x y h' lt (sym e) in
    let same : y ≡ y' = omega (arith, up, down) in (omega (arith, ap (λ (k : ℕ). k * w) same), same)

tile_index-inside :
    (g : Grid) (x y : ℕ)
    → x < g.width
    → y < g.height
    → tile_index g (pos x) (pos y) ≡ some (y * g.width + x)
unfolding tile_index
tile_index-inside g x y hx hy = rw (gt→leb g.width x hx, gt→leb g.height y hy) refl

-- A write inside a full map succeeds and keeps it full; the place that was written reads the new tile
-- and every other place what it read before.
pub get_tile-set_tile :
    (g : Grid) (x y tile : ℕ)
    → IsFull g
    → x < g.width
    → y < g.height
    → (g' : Grid) × (set_tile (pos x) (pos y) tile g ≡ Outcome.ok (ok g'))
      × IsFull g'
      × (get_tile g' (pos x) (pos y) ≡ Outcome.ok tile)
      × ((x' y' : ℕ)
          → x' < g.width
          → y' < g.height
          → (x ≢ x') ⊎ (y ≢ y')
          → get_tile g' (pos x') (pos y') ≡ get_tile g (pos x') (pos y'))
unfolding set_tile get_tile
get_tile-set_tile g x y tile full hx hy =
    let i = y * g.width + x in
    let inside : i < length g.tiles = omega (arith, index_bound g.width g.height x y hx hy) in
    let (old, there) = get_elem?-some g.tiles i inside in
    let g' : Grid = record g { tiles = set g.tiles i tile } in
    (
      g',
      rw (tile_index-inside g x y hx hy, there, set_tile) refl,
      length-set g.tiles i tile ∙ full,
      rw (tile_index-inside g' x y hx hy, get_elem?-set g.tiles i tile inside, get_tile) refl,
      λ x' y' hx' hy' ne.
          rw
            (
              tile_index-inside g' x' y' hx' hy',
              tile_index-inside g x' y' hx' hy',
              get_elem?-set_other g.tiles i (y' * g.width + x') tile
                  (apart (index_injective g.width x y x' y' hx hx') ne),
              get_tile,
            )
            refl,
    )
  where
    apart : {a b x' y' : ℕ} → (a ≡ b → (x ≡ x') × (y ≡ y')) → (x ≢ x') ⊎ (y ≢ y') → a ≢ b
    apart same (inl ne) e = ne (same e).0
    apart same (inr ne) e = ne (same e).1
