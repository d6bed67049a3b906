-- ===== src/Withered/Game/Systems.antt =====
-- withered/server/application/phase.go and bullet.go: the systems that a tick runs on the world. A
-- loop over the entities runs over those that are there when it starts, in the order of the list; a
-- missing component reads as the zero value. The masks of a byte are written as arithmetic.
use tanzlaurel.Base.{
  ℕ, ◌+◌, ◌-◌, ◌*◌, ◌/◌, ◌%◌, ◌^◌, List, [], ◌∷◌, ◌++◌, Bool, true, false, not, ◌&&◌, ◌||◌, Option,
  none, some, leb, ◌==◌, if◌then◌else◌,
}
use tanzlaurel.Base.Int.{pos, pred, is_positive}
use tanzlaurel.Flourish.Crdt.Rga.{contains}
use tanzlaurel.Withered.Game.World.{
  ShootingWorld, Vector, InputEntry, put, unset, tag_player, tag_bot, tag_bullet, state_alive,
  state_respawning, spawn_bullet, remove_entity, drain,
}
use tanzlaurel.Withered.Game.Grid.{Grid}
use tanzlaurel.Withered.Game.Floats.{FloatOps, clamp, world_width, world_height, distance_sq}

-- `BulletSpeed` is 1.5, `BulletRadius` 0.3, `ActorRadius` 0.5.
abbrev pub bullet_speed : ℕ
bullet_speed = 0x3FC00000

abbrev pub bullet_radius : ℕ
bullet_radius = 0x3E99999A

abbrev pub actor_radius : ℕ
actor_radius = 0x3F000000

abbrev pub cooldown_ticks : ℕ
cooldown_ticks = 30

abbrev pub bullet_damage : ℕ
bullet_damage = 20

abbrev pub respawn_ticks : ℕ
respawn_ticks = 180

-- `PlayerSpeed`, which is also the 1 of `keyMaskToDirection`, and `math.MaxFloat32`.
abbrev pub player_speed : ℕ
player_speed = 0x3F800000

abbrev pub max_float32 : ℕ
max_float32 = 0x7F7FFFFF

-- `0.001`
abbrev pub min_distance : ℕ
min_distance = 0x3A83126F

-- `ls.State&StateAlive != 0`, `ls.State&StateRespawning != 0`, and `(ls.State &^ 0x0F) | flag`.
unfoldable pub is_alive : ℕ → Bool
is_alive s = s % 2 == 1

unfoldable pub is_respawning : ℕ → Bool
is_respawning s = s / 2 % 2 == 1

unfoldable pub with_state : ℕ → ℕ → ℕ
with_state s flag = s / 16 * 16 + flag

-- A read of a map: the zero value for a missing key.
abbrev pub read {ℓ} : {A : Type ℓ} → A → Option A → A
read zero_value none = zero_value
read zero_value (some a) = a

abbrev pub origin : Vector
origin = record { x = 0; y = 0 }

-- `ls, ok := w.LifeState[id]; ok && …`
unfoldable pub lives : ShootingWorld → ℕ → Bool
lives w id = elim (w.life_state id) [ none ↦ false | some s ↦ is_alive s ]

unfoldable pub is_actor : ShootingWorld → ℕ → Bool
is_actor w id = read 0 (w.tag id) == tag_player || read 0 (w.tag id) == tag_bot

unfoldable pub is_bullet : ShootingWorld → ℕ → Bool
is_bullet w id = read 0 (w.tag id) == tag_bullet

-- `for id := range w.Entities`
unfoldable pub each : (ℕ → ShootingWorld → ShootingWorld) → List ℕ → ShootingWorld → ShootingWorld
each body [] w = w
each body (id ∷ ids) w = each body ids (body id w)

module _ (f : FloatOps) where
  -- `draw` gives the position that `randomPosition` draws for an entity.
  unfoldable pub respawn_one : (ℕ → Vector) → ℕ → ShootingWorld → ShootingWorld
  respawn_one draw id w = elim (w.life_state id) [
    | none ↦ w
    | some s ↦ elim (is_respawning s) [
      | false ↦ w
      | true ↦
          let timer = pred (read (pos 0) (w.respawn_timer id)) in
          elim (is_positive timer) [
            | true ↦ record w { respawn_timer = put w.respawn_timer id timer }
            | false ↦ record w {
              health = put w.health id 100;
              life_state = put w.life_state id (with_state s state_alive);
              position = put w.position id (draw id);
              respawn_timer = unset w.respawn_timer id;
            }
          ]
    ]
  ]

  unfoldable pub respawn : (ℕ → Vector) → ShootingWorld → ShootingWorld
  respawn draw w = each (respawn_one draw) w.entities w

  -- Two keys that point in opposite directions cancel.
  unfoldable pub axis : Bool → Bool → ℕ
  axis back forth =
      let v = if back then f.sub 0 player_speed else 0 in if forth then f.add v player_speed else v

  unfoldable pub key_mask_to_direction : ℕ → Vector
  key_mask_to_direction key_mask = record {
    x = axis (key_mask / 2 % 2 == 1) (key_mask / 8 % 2 == 1);
    y = axis (key_mask % 2 == 1) (key_mask / 4 % 2 == 1);
  }

  unfoldable pub move_one : Grid → InputEntry → ShootingWorld → ShootingWorld
  move_one g entry w =
      let id = entry.entity_id in
      let d = key_mask_to_direction entry.key_mask in
      if not (contains id w.entities) || not (lives w id) || (f.eq d.x 0 && f.eq d.y 0)
      then w
      else let p = read origin (w.position id) in
        record w {
          position = put w.position id (record {
            x = clamp f (f.add p.x (f.mul d.x player_speed)) 0 (world_width f g);
            y = clamp f (f.add p.y (f.mul d.y player_speed)) 0 (world_height f g);
          });
        }

  unfoldable pub move_all : Grid → List InputEntry → ShootingWorld → ShootingWorld
  move_all g [] w = w
  move_all g (entry ∷ entries) w = move_all g entries (move_one g entry w)

  unfoldable pub input_move : Grid → ShootingWorld → ShootingWorld
  input_move g w = let (w', entries) = drain w in move_all g entries w'

  -- The loop over the others: the nearest so far and its squared distance.
  unfoldable pub nearest : ShootingWorld → ℕ → Vector → List ℕ → ℕ → Option ℕ → Option ℕ
  nearest w id p [] dist best = best
  nearest w id p (other ∷ ids) dist best =
      let d = distance_sq f (read origin (w.position other)) p in
      if other == id || not (is_actor w other) || not (lives w other) || not (f.lt d dist)
      then nearest w id p ids dist best
      else nearest w id p ids d (some other)

  unfoldable pub shoot_at : ℕ → ℕ → ShootingWorld → ShootingWorld
  shoot_at id target w =
      let p = read origin (w.position id) in
      let q = read origin (w.position target) in
      let dx = f.sub q.x p.x in
      let dy = f.sub q.y p.y in
      let dist = f.sqrt (distance_sq f q p) in
      if f.lt dist min_distance
      then w
      else let vel : Vector = record {
        x = f.mul (f.div dx dist) bullet_speed;
        y = f.mul (f.div dy dist) bullet_speed;
      } in
        let w' = (spawn_bullet id p vel w).0 in
        record w' { shoot_cooldown = put w'.shoot_cooldown id (pos cooldown_ticks) }

  unfoldable pub auto_shoot_one : ℕ → ShootingWorld → ShootingWorld
  auto_shoot_one id w = elim (is_actor w id && lives w id) [
    | false ↦ w
    | true ↦
        let cooldown = pred (read (pos 0) (w.shoot_cooldown id)) in
        let w' = record w { shoot_cooldown = put w.shoot_cooldown id cooldown } in
        elim (is_positive cooldown) [
          | true ↦ w'
          | false ↦
              elim (nearest w' id (read origin (w'.position id)) w'.entities max_float32 none) [
                | none ↦ w'
                | some target ↦ shoot_at id target w'
              ]
        ]
  ]

  unfoldable pub auto_shoot : ShootingWorld → ShootingWorld
  auto_shoot w = each auto_shoot_one w.entities w

  -- `w.TTL[id]--` on a uint16.
  unfoldable pub bullet_move_one : ℕ → ShootingWorld → ShootingWorld
  bullet_move_one id w = elim (is_bullet w id) [
    | false ↦ w
    | true ↦
        let p = read origin (w.position id) in
        let v = read origin (w.velocity id) in
        record w {
          position = put w.position id (record { x = f.add p.x v.x; y = f.add p.y v.y });
          ttl = put w.ttl id ((read 0 (w.ttl id) + (2 ^ 16 - 1)) % 2 ^ 16);
        }
  ]

  unfoldable pub bullet_move : ShootingWorld → ShootingWorld
  bullet_move w = each bullet_move_one w.entities w

  -- The loop over the actors up to the first hit.
  unfoldable pub find_hit : ShootingWorld → Vector → ℕ → List ℕ → Option ℕ
  find_hit w p owner [] = none
  find_hit w p owner (actor ∷ ids) =
      let radius = f.add bullet_radius actor_radius in
      let d = distance_sq f p (read origin (w.position actor)) in
      if not (is_actor w actor)
        || actor == owner
        || not (lives w actor)
        || not (f.le d (f.mul radius radius))
      then find_hit w p owner ids
      else some actor

  unfoldable pub damage : ℕ → ShootingWorld → ShootingWorld
  damage actor w =
      let hp = read 0 (w.health actor) in
      elim (leb hp bullet_damage) [
        | true ↦ record w {
          health = put w.health actor 0;
          life_state =
              put w.life_state actor (with_state (read 0 (w.life_state actor)) state_respawning);
          respawn_timer = put w.respawn_timer actor (pos respawn_ticks);
        }
        | false ↦ record w { health = put w.health actor (hp - bullet_damage) }
      ]

  -- The loop over the bullets: the world, and `bulletsToRemove`.
  unfoldable pub hits : List ℕ → ShootingWorld → List ℕ → ShootingWorld × List ℕ
  hits [] w gone = (w, gone)
  hits (id ∷ ids) w gone = elim (is_bullet w id) [
    | false ↦ hits ids w gone
    | true ↦ elim (find_hit w (read origin (w.position id)) (read 0 (w.owner id)) w.entities) [
      | none ↦ hits ids w gone
      | some actor ↦ hits ids (damage actor w) (gone ++ (id ∷ []))
    ]
  ]

  unfoldable pub collision_damage : ShootingWorld → ShootingWorld
  collision_damage w = let (w', gone) = hits w.entities w [] in each remove_entity gone w'

-- `toRemove`
unfoldable pub spent : ShootingWorld → List ℕ → List ℕ
spent w [] = []
spent w (id ∷ ids) =
    let rest = spent w ids in if is_bullet w id && read 0 (w.ttl id) == 0 then id ∷ rest else rest

unfoldable pub bullet_cleanup : ShootingWorld → ShootingWorld
bullet_cleanup w = each remove_entity (spent w w.entities) w
