-- ===== src/Withered/Sessions/Room.antt =====
-- room.go, session_registry.go and broadcaster.go. The registry's set is a list without duplicates,
-- in any order. The application of a room is any one behind the interface.
use tanzlaurel.Base.{
  ℕ, ◌+◌, List, [], ◌∷◌, ◌++◌, map, Bool, true, false, Option, none, some, ltb, ◌==◌, if◌then◌else◌,
  length, drop,
}
use tanzlaurel.Base.Errors.{ok, err}
use tanzlaurel.Flourish.Crdt.Rga.{contains}
use tanzlaurel.Withered.Protocol.Messages.{
  parse_room_id, parse_room_header, room_msg_type_join, room_msg_type_leave, room_msg_type_app_data,
}
use tanzlaurel.Withered.Sessions.Endpoint.{Message}

-- `LocalSessionRegistry`
unfoldable pub add : ℕ → List ℕ → List ℕ
add id sessions = if contains id sessions then sessions else id ∷ sessions

unfoldable pub remove : ℕ → List ℕ → List ℕ
remove id [] = []
remove id (x ∷ xs) = let rest = remove id xs in if x == id then rest else x ∷ rest

-- `Application`; a tick may yield data for all sessions, or nothing (also when it fails).
pub record Application (A : Type 0) : Type 0 where
  pub on_join : ℕ → A → A
  pub on_leave : ℕ → A → A
  pub handle_message : ℕ → List ℕ → A → A
  pub tick : A → A × Option (List ℕ)

pub data RoomSend : Type 0 where
  send_unknown : RoomSend
  send_broadcast : List ℕ → RoomSend
  send_to : ℕ → List ℕ → RoomSend

pub record Room (A : Type 0) : Type 0 where
  pub registry : List ℕ
  pub application : A
  pub send_ch : List RoomSend

-- What goes out: the receiver's session and the data.
abbrev pub Sent : Type 0
Sent = List (ℕ × List ℕ)

-- `PubSubBroadcaster.Broadcast`
unfoldable pub broadcast : List ℕ → List ℕ → Sent
broadcast registry body = map (λ id. (id, body)) registry

module _ {A : Type 0} where
  -- The answer is whether there was room in the channel. A cancelled context, with which nothing is
  -- sent any more, is left out.
  unfoldable pub enqueue_send : RoomSend → Room A → Room A × Bool
  enqueue_send msg r =
      if ltb (length r.send_ch) 1024
      then (record r { send_ch = r.send_ch ++ (msg ∷ []) }, true)
      else (r, false)

  unfoldable pub handle_send_message : Room A → RoomSend → Sent
  handle_send_message r send_unknown = []
  handle_send_message r (send_broadcast body) = broadcast r.registry body
  handle_send_message r (send_to id body) = (id, body) ∷ []

  unfoldable pub handle_sends : Room A → List RoomSend → Sent
  handle_sends r [] = []
  handle_sends r (m ∷ ms) = handle_send_message r m ++ handle_sends r ms

module _ {A : Type 0} (app : Application A) where
  unfoldable pub dispatch : Room A → ℕ → ℕ → List ℕ → Room A
  dispatch r session_id room_msg_type app_payload =
      if room_msg_type == room_msg_type_join
      then record r {
        registry = add session_id r.registry;
        application = app.on_join session_id r.application;
      }
      else if room_msg_type == room_msg_type_leave
      then record r {
        registry = remove session_id r.registry;
        application = app.on_leave session_id r.application;
      }
      else if room_msg_type == room_msg_type_app_data
      then record r { application = app.handle_message session_id app_payload r.application }
      else r

  unfoldable pub handle_message : Room A → Message → Room A
  handle_message r msg = elim (parse_room_id msg.body) [
    | err e ↦ r
    | ok (room_id, n1) ↦ elim (parse_room_header (drop n1 msg.body)) [
      | err e ↦ r
      | ok (room_msg_type, n2) ↦ dispatch r msg.session_id room_msg_type (drop (n1 + n2) msg.body)
    ]
  ]

  unfoldable pub handle_messages : Room A → List Message → Room A
  handle_messages r [] = r
  handle_messages r (m ∷ ms) = handle_messages (handle_message r m) ms

  -- One turn of the loop of `Run`: the messages that came in, then what was queued to be sent, then
  -- the application's tick.
  unfoldable pub run_tick : Room A → List Message → Room A × Sent
  run_tick r inbox =
      let r1 = handle_messages r inbox in
      let queued = handle_sends r1 r1.send_ch in
      let (application, answer) = app.tick r1.application in
      (
        record r1 { send_ch = []; application = application },
        queued ++ elim answer [ none ↦ [] | some body ↦ broadcast r1.registry body ],
      )
