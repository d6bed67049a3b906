-- ===== src/Withered/Game/World.antt =====
-- withered/server/application: world.go, buffer.go and map.go. A map of Go is a function into
-- `Option`, and the set of entities is the list of its members, in the order in which a loop over
-- it runs. A coordinate is the bit pattern of a float32; a random position is an argument.
use tanzlaurel.Base.{ℕ, ◌+◌, ◌%◌, ◌^◌, List, [], ◌∷◌, ◌++◌, Option, none, some, ◌==◌, if◌then◌else◌}
use tanzlaurel.Base.Int.{ℤ, pos}
use tanzlaurel.Flourish.Crdt.Rga.{contains}
use tanzlaurel.Withered.Sessions.Room.{remove}

-- `Tag` and `ActorState`
abbrev pub tag_player : ℕ
tag_player = 1

abbrev pub tag_bot : ℕ
tag_bot = 2

abbrev pub tag_bullet : ℕ
tag_bullet = 3

abbrev pub state_alive : ℕ
state_alive = 0x01

abbrev pub state_respawning : ℕ
state_respawning = 0x02

abbrev pub bullet_ttl : ℕ
bullet_ttl = 120

-- `Position` and `Velocity`
pub record Vector : Type 0 where
  pub x : ℕ
  pub y : ℕ

pub record InputEntry : Type 0 where
  pub entity_id : ℕ
  pub key_mask : ℕ

pub record ShootingWorld : Type 0 where
  pub entities : List ℕ
  pub position : ℕ → Option Vector
  pub health : ℕ → Option ℕ
  pub life_state : ℕ → Option ℕ
  pub velocity : ℕ → Option Vector
  pub ttl : ℕ → Option ℕ
  pub owner : ℕ → Option ℕ
  pub tag : ℕ → Option ℕ
  pub shoot_cooldown : ℕ → Option ℤ
  pub respawn_timer : ℕ → Option ℤ
  pub session_to_entity : ℕ → Option ℕ
  pub entity_to_session : ℕ → Option ℕ
  pub pending_inputs : List InputEntry
  pub next_entity_id : ℕ

-- `m[k] = v` and `delete(m, k)`
abbrev pub put {ℓ} : {A : Type ℓ} → (ℕ → Option A) → ℕ → A → ℕ → Option A
put m k v j = if j == k then some v else m j

abbrev pub unset {ℓ} : {A : Type ℓ} → (ℕ → Option A) → ℕ → ℕ → Option A
unset m k j = if j == k then none else m j

unfoldable pub new_shooting_world : ShootingWorld
new_shooting_world = record {
  entities = [];
  position = λ id. none;
  health = λ id. none;
  life_state = λ id. none;
  velocity = λ id. none;
  ttl = λ id. none;
  owner = λ id. none;
  tag = λ id. none;
  shoot_cooldown = λ id. none;
  respawn_timer = λ id. none;
  session_to_entity = λ s. none;
  entity_to_session = λ id. none;
  pending_inputs = [];
  next_entity_id = 0;
}

-- `w.NextEntityID++` on a uint16.
unfoldable pub alloc_entity : ShootingWorld → ShootingWorld × ℕ
alloc_entity w =
    let id = (w.next_entity_id + 1) % 2 ^ 16 in
    (
      record w {
        next_entity_id = id;
        entities = if contains id w.entities then w.entities else w.entities ++ (id ∷ []);
      },
      id,
    )

-- `at_pos` is what `randomPosition` draws.
unfoldable pub spawn_actor : Vector → ℕ → ℕ → ShootingWorld → ShootingWorld × ℕ
spawn_actor at_pos session_id tag w =
    let (w', id) = alloc_entity w in
    (
      record w' {
        position = put w'.position id at_pos;
        health = put w'.health id 100;
        life_state = put w'.life_state id state_alive;
        tag = put w'.tag id tag;
        shoot_cooldown = put w'.shoot_cooldown id (pos 0);
        session_to_entity = put w'.session_to_entity session_id id;
        entity_to_session = put w'.entity_to_session id session_id;
      },
      id,
    )

unfoldable pub spawn_bullet : ℕ → Vector → Vector → ShootingWorld → ShootingWorld × ℕ
spawn_bullet owner_id at_pos vel w =
    let (w', id) = alloc_entity w in
    (
      record w' {
        position = put w'.position id at_pos;
        velocity = put w'.velocity id vel;
        ttl = put w'.ttl id bullet_ttl;
        owner = put w'.owner id owner_id;
        tag = put w'.tag id tag_bullet;
      },
      id,
    )

-- The last three lines of `RemoveEntity`, which unlink the entity's session.
unfoldable pub unlink : ℕ → ShootingWorld → ShootingWorld
unlink id w = elim (w.entity_to_session id) [
  | none ↦ w
  | some sid ↦ record w {
    session_to_entity = unset w.session_to_entity sid;
    entity_to_session = unset w.entity_to_session id;
  }
]

unfoldable pub remove_entity : ℕ → ShootingWorld → ShootingWorld
remove_entity id w = unlink id (record w {
  entities = remove id w.entities;
  position = unset w.position id;
  health = unset w.health id;
  life_state = unset w.life_state id;
  velocity = unset w.velocity id;
  ttl = unset w.ttl id;
  owner = unset w.owner id;
  tag = unset w.tag id;
  shoot_cooldown = unset w.shoot_cooldown id;
  respawn_timer = unset w.respawn_timer id;
})

-- `PendingInput.Push` and `Drain`
unfoldable pub push : InputEntry → ShootingWorld → ShootingWorld
push entry w = record w { pending_inputs = w.pending_inputs ++ (entry ∷ []) }

unfoldable pub drain : ShootingWorld → ShootingWorld × List InputEntry
drain w = (record w { pending_inputs = [] }, w.pending_inputs)
