-- ===== src/Withered/Game/Commands.antt =====
-- withered/server/application/withered_application.go: what a session does to the world. Log lines
-- are left out; an error is answered to the room, which logs it.
use tanzlaurel.Base.{ℕ, List, Option, none, some, ◌==◌, if◌then◌else◌, drop}
use tanzlaurel.Base.Errors.{Result, ok, err}
use tanzlaurel.Withered.Protocol.Payload.{
  PayloadError, parse_payload_header, payload_header_size, parse_input_payload,
  parse_actor_2d_spawn, parse_actor_2d_update,
}
use tanzlaurel.Withered.Game.World.{
  ShootingWorld, Vector, tag_player, spawn_actor, remove_entity, push,
}

-- `DataType` and `ActorSubType` of the protocol.
abbrev pub data_type_input : ℕ
data_type_input = 0

abbrev pub data_type_actor_2d : ℕ
data_type_actor_2d = 1

abbrev pub sub_type_spawn : ℕ
sub_type_spawn = 1

abbrev pub sub_type_update : ℕ
sub_type_update = 2

unfoldable pub on_join : Vector → ℕ → ShootingWorld → ShootingWorld
on_join pos session_id w = (spawn_actor pos session_id tag_player w).0

unfoldable pub on_leave : ℕ → ShootingWorld → ShootingWorld
on_leave session_id w = elim (w.session_to_entity session_id) [
  | none ↦ w
  | some entity_id ↦ remove_entity entity_id w
]

unfoldable pub handle_input : ℕ → List ℕ → ShootingWorld → ShootingWorld × Option PayloadError
handle_input session_id body w = elim (parse_input_payload body) [
  | err e ↦ (w, some e)
  | ok key_mask ↦ elim (w.session_to_entity session_id) [
    | none ↦ (w, none)
    | some entity_id ↦ (push (record { entity_id = entity_id; key_mask = key_mask }) w, none)
  ]
]

-- The error of a parser, or nothing: what is parsed is only logged.
abbrev pub error_of {ℓ} : {A : Type ℓ} → Result PayloadError A → Option PayloadError
error_of (ok a) = none
error_of (err e) = some e

unfoldable pub handle_actor_2d : ℕ → List ℕ → ShootingWorld → ShootingWorld × Option PayloadError
handle_actor_2d sub_type body w =
    if sub_type == sub_type_spawn
    then (w, error_of (parse_actor_2d_spawn body))
    else if sub_type == sub_type_update
    then (w, error_of (parse_actor_2d_update body))
    else (w, none)

unfoldable pub handle_message : ℕ → List ℕ → ShootingWorld → ShootingWorld × Option PayloadError
handle_message session_id body w = elim (parse_payload_header body) [
  | err e ↦ (w, some e)
  | ok header ↦
      let payload = drop payload_header_size body in
      if header.data_type == data_type_input
      then handle_input session_id payload w
      else if header.data_type == data_type_actor_2d
      then handle_actor_2d header.sub_type payload w
      else (w, none)
]
