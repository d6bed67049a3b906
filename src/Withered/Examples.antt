-- ===== src/Withered/Examples.antt =====
-- Runs of the game server on small inputs.
use tanzlaurel.Base.{
  ℕ, ◌+◌, ◌%◌, ◌^◌, ◌<◌, ◌≡◌, ◌≢◌, refl, List, [], ◌∷◌, ◌++◌, false, ◌||◌, none, some, Outcome,
  arith, length, drop, ◌⊎◌, All, not, ◌&&◌, ◌==◌,
}
use tanzlaurel.Base.Errors.{ok}
use tanzlaurel.Base.Int.{pos}
use tanzlaurel.Flourish.Crdt.Rga.{contains}
use tanzlaurel.Withered.Protocol.Varint.{IsByte, read_varint, append_varint, varint_len}
use tanzlaurel.Withered.Protocol.RoundTrip.{big_endian, read-append, read-big_endian}
use tanzlaurel.Withered.Protocol.Messages.{
  encode_room_message, room_payload, parse_transport_header, parse_room_id, parse_room_header,
  msg_type_room_message,
}
use tanzlaurel.Withered.Protocol.Parsing.{parse-encode_room_message, parse-room_payload}
use tanzlaurel.Withered.Protocol.Payload.{
  Position2d, BoneData, Actor3dUpdate, parse_actor_3d_update, encode_actor_3d_update,
  parse_position_2d, encode_position_2d, count_set_bits, count_bits,
}
use tanzlaurel.Withered.Protocol.PayloadLaws.{parse-actor_3d_update, parse-position_2d}
use tanzlaurel.Withered.Sessions.Session.{
  Session, new_session, touch_read, is_idle, has, idle_read, idle_write, idle_pong, is_idle_since,
  is_idle_reasons,
}
use tanzlaurel.Withered.Sessions.Endpoint.{Endpoint, publish, room_topic, handle_data, close, close}
use tanzlaurel.Withered.Sessions.Room.{Application, Room, handle_message, remove}
use tanzlaurel.Withered.Sessions.Delivery.{
  Fits, handle_data-publishes, handle_message-dispatch, close-leaves,
}
use tanzlaurel.Withered.Game.World.{
  ShootingWorld, Vector, new_shooting_world, spawn_actor, alloc_entity,
}
use tanzlaurel.Withered.Game.Grid.{Grid, get_tile, set_tile, new_map}
use tanzlaurel.Withered.Game.Tiles.{IsFull, new_map-IsFull, get_tile-set_tile}
use tanzlaurel.Withered.Game.Commands.{on_join, on_leave}
use tanzlaurel.Withered.Game.Snapshots.{encode_entity, mask_of, mark}
use tanzlaurel.Withered.Game.Layout.{Reads, encode_entity-present}
use tanzlaurel.Withered.Game.Invariant.{
  IsWorld, IsBare, next_id, new_shooting_world-IsWorld, on_join-IsWorld, on_leave-IsWorld,
}

read-append_example :
    (bytes : List ℕ) × (append_varint (7 ∷ []) 16384 ≡ (7 ∷ []) ++ bytes)
    × All IsByte bytes
    × (read_varint (bytes ++ (9 ∷ [])) ≡ ok (16384 % 2 ^ 62, length bytes))
    × (length bytes ≡ varint_len 16384)
read-append_example = read-append (7 ∷ []) 16384 (9 ∷ []) (omega arith)

read-big_endian_example :
    read_varint (0x7b ∷ (0xbd ∷ []) ++ (1 ∷ [])) ≡ ok (big_endian (0x7b % 64) (0xbd ∷ []), 2)
read-big_endian_example =
    read-big_endian 0x7b (0xbd ∷ []) (1 ∷ []) (omega arith, (omega arith, tt)) refl

abbrev room : List ℕ
room = b'r' ∷ b'1' ∷ []

abbrev app : List ℕ
app = 0 ∷ 0 ∷ 1 ∷ 0 ∷ 0 ∷ 0 ∷ []

room-Fits : Fits room 2 app
unfolding room_payload append_varint
room-Fits = record { id_fits = omega arith; kind_fits = omega arith; payload_fits = omega arith }

last_words-Fits : Fits room 1 app
unfolding room_payload append_varint
last_words-Fits = record {
  id_fits = omega arith;
  kind_fits = omega arith;
  payload_fits = omega arith;
}

parse-encode_room_message_example :
    (parse_transport_header (encode_room_message room 2 app ++ [])
      ≡ ok (
        msg_type_room_message,
        length (room_payload room 2 app),
        1 + varint_len (length (room_payload room 2 app)),
      ))
    × (drop
          (1 + varint_len (length (room_payload room 2 app)))
          (encode_room_message room 2 app ++ [])
        ≡ room_payload room 2 app ++ [])
parse-encode_room_message_example = parse-encode_room_message room 2 app [] room-Fits.payload_fits

parse-room_payload_example :
    (parse_room_id (room_payload room 2 app) ≡ ok (room, varint_len 2 + 2))
    × (parse_room_header (drop (varint_len 2 + 2) (room_payload room 2 app)) ≡ ok (2, varint_len 2))
    × (drop (varint_len 2 + 2 + varint_len 2) (room_payload room 2 app) ≡ app)
parse-room_payload_example = parse-room_payload room 2 app room-Fits.id_fits room-Fits.kind_fits

abbrev bone : BoneData
bone = record { bone_id = 3; qx = 1; qy = 2; qz = 3; qw = 4 }

abbrev update : Actor3dUpdate
update = record {
  bitmask = 8 ∷ 0 ∷ 0 ∷ 0 ∷ 0 ∷ 0 ∷ 0 ∷ 0 ∷ 0 ∷ 0 ∷ 0 ∷ 0 ∷ 0 ∷ 0 ∷ 0 ∷ 0 ∷ [];
  position = record { x = 1; y = 2; z = 3; qx = 4; qy = 5; qz = 6; qw = 7 };
  bones = bone ∷ [];
}

parse-actor_3d_update_example :
    parse_actor_3d_update (encode_actor_3d_update update ++ (1 ∷ [])) ≡ ok update
unfolding count_set_bits count_bits
parse-actor_3d_update_example =
    parse-actor_3d_update update (1 ∷ []) refl refl
      (omega arith, omega arith, omega arith, omega arith, omega arith, omega arith, omega arith)
      ((omega arith, omega arith, omega arith, omega arith), tt)

abbrev point : Position2d
point = record { x = 0x3f800000; y = 7 }

parse-position_2d_example : parse_position_2d (encode_position_2d point ++ (5 ∷ [])) ≡ ok point
parse-position_2d_example = parse-position_2d point (5 ∷ []) (omega arith) (omega arith)

abbrev session : Session
session = touch_read 60 (new_session 5 10)

is_idle_reasons_example :
    ((is_idle 70 (pos 30) session).0 ≡ (
      is_idle_since 70 session.last_read 30
      || (is_idle_since 70 session.last_write 30 || is_idle_since 70 session.last_pong 30)))
    × (has (is_idle 70 (pos 30) session).1 idle_read ≡ is_idle_since 70 session.last_read 30)
    × (has (is_idle 70 (pos 30) session).1 idle_write ≡ is_idle_since 70 session.last_write 30)
    × (has (is_idle 70 (pos 30) session).1 idle_pong ≡ is_idle_since 70 session.last_pong 30)
is_idle_reasons_example = is_idle_reasons 70 29 session

abbrev endpoint : Endpoint
endpoint = record {
  session = session;
  room_id = [];
  cancelled = false;
  connection_closed = false;
  closed = false;
}

handle_data-publishes_example :
    ((handle_data endpoint (encode_room_message room 2 app)).1
      ≡ publish (room_topic room) (record { session_id = 5; body = room_payload room 2 app }) ∷ [])
    × ((handle_data endpoint (encode_room_message room 2 app)).0 ≡ endpoint)
unfolding touch_read new_session
handle_data-publishes_example = handle_data-publishes room 2 app room-Fits endpoint

-- An application that keeps what it gets.
abbrev recorder : Application (List (ℕ × List ℕ))
recorder = record {
  on_join = λ id log. (id, []) ∷ log;
  on_leave = λ id log. (id, []) ∷ log;
  handle_message = λ id body log. (id, body) ∷ log;
  tick = λ log. (log, none);
}

abbrev shared_room : Room (List (ℕ × List ℕ))
shared_room = record { registry = 4 ∷ 5 ∷ []; application = []; send_ch = [] }

handle_message-dispatch_example :
    let r' =
      handle_message recorder shared_room
        (record { session_id = 5; body = room_payload room 1 app }) in
    ((k : ℕ) → contains k r'.registry ≡ (not (k == 5) && contains k (4 ∷ 5 ∷ [])))
    × (r'.application ≡ (5, []) ∷ [])
    × (r'.send_ch ≡ [])
handle_message-dispatch_example =
    handle_message-dispatch room 1 app last_words-Fits recorder shared_room 5

abbrev origin : Vector
origin = record { x = 0; y = 0 }

abbrev joined : ShootingWorld
joined = on_join origin 5 new_shooting_world

joined-IsWorld : IsWorld joined
unfolding new_shooting_world contains
joined-IsWorld = (on_join-IsWorld origin 5 new_shooting_world new_shooting_world-IsWorld refl).0

on_join-IsWorld_example :
    IsWorld (on_join origin 6 joined)
    × ((on_join origin 6 joined).session_to_entity 6 ≡ some (next_id joined))
    × ((on_join origin 6 joined).position (next_id joined) ≡ some origin)
    × ((on_join origin 6 joined).health (next_id joined) ≡ some 100)
    × ((s : ℕ) → s ≢ 6 → (on_join origin 6 joined).session_to_entity s ≡ joined.session_to_entity s)
unfolding on_join spawn_actor alloc_entity new_shooting_world contains
on_join-IsWorld_example = on_join-IsWorld origin 6 joined joined-IsWorld refl

on_leave-IsWorld_example :
    IsWorld (on_leave 5 joined)
    × ((on_leave 5 joined).session_to_entity 5 ≡ none)
    × ((id : ℕ)
        → joined.session_to_entity 5 ≡ some id
        → IsBare (on_leave 5 joined) id
          × (contains id (on_leave 5 joined).entities ≡ false)
          × ((k : ℕ)
              → k ≢ id
              → contains k (on_leave 5 joined).entities ≡ contains k joined.entities))
    × ((s : ℕ) → s ≢ 5 → (on_leave 5 joined).session_to_entity s ≡ joined.session_to_entity s)
on_leave-IsWorld_example = on_leave-IsWorld 5 joined joined-IsWorld

get_tile-set_tile_example :
    (g' : Grid) × (set_tile (pos 2) (pos 1) 2 (new_map 3 2 0x3F800000) ≡ Outcome.ok (ok g'))
    × IsFull g'
    × (get_tile g' (pos 2) (pos 1) ≡ Outcome.ok 2)
    × ((x' y' : ℕ)
        → x' < 3
        → y' < 2
        → (2 ≢ x') ⊎ (1 ≢ y')
        → get_tile g' (pos x') (pos y') ≡ get_tile (new_map 3 2 0x3F800000) (pos x') (pos y'))
unfolding new_map
get_tile-set_tile_example =
    get_tile-set_tile (new_map 3 2 0x3F800000) 2 1 2 (new_map-IsFull 3 2 0x3F800000) (omega arith)
      (omega arith)

leave-Fits : Fits room 1 []
unfolding room_payload append_varint
leave-Fits = record { id_fits = omega arith; kind_fits = omega arith; payload_fits = omega arith }

abbrev in_room : Endpoint
in_room = record endpoint { room_id = room }

abbrev busy_room : Room (List (ℕ × List ℕ))
busy_room = record { registry = 5 ∷ 6 ∷ []; application = []; send_ch = [] }

close-leaves_example :
    ((close in_room).1
      ≡ publish (room_topic room) (record { session_id = 5; body = room_payload room 1 [] }) ∷ [])
    × (close (close in_room).0 ≡ ((close in_room).0, []))
    × (handle_message recorder busy_room (record { session_id = 5; body = room_payload room 1 [] })
        ≡ record { registry = 6 ∷ []; application = (5, []) ∷ []; send_ch = [] })
unfolding touch_read new_session remove
close-leaves_example = close-leaves room leave-Fits recorder busy_room in_room refl refl (λ e. cc)

encode_entity-present_example :
    Reads joined 1 (mask_of joined 1)
    × (encode_entity joined 1 ≡ 1 ∷ 0 ∷ 77 ∷ 0 ∷ 0 ∷ 0 ∷ 0 ∷ 0 ∷ 0 ∷ 0 ∷ 0 ∷ 100 ∷ 1 ∷ 1 ∷ [])
unfolding on_join spawn_actor alloc_entity new_shooting_world contains mask_of mark
encode_entity-present_example = encode_entity-present joined 1
