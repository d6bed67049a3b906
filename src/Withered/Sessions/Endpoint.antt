-- ===== src/Withered/Sessions/Endpoint.antt =====
-- session_endpoint.go: what the handlers of an endpoint do to its state, and what they send. The
-- loops that call them only move data between channels. Log lines are left out.
use tanzlaurel.Base.{
  ℕ, ◌+◌, List, [], ◌∷◌, Bool, true, ltb, ◌==◌, if◌then◌else◌, length, take, drop,
}
use tanzlaurel.Base.Errors.{ok, err}
use tanzlaurel.Withered.Protocol.Messages.{
  parse_transport_header, parse_room_id, parse_room_header, encode_room_message, msg_type_pong,
  msg_type_room_message, room_msg_type_join, room_msg_type_leave,
}
use tanzlaurel.Withered.Sessions.Session.{Session, touch_pong}
use tanzlaurel.Withered.Sessions.Session

-- A room id and a topic are strings, here their bytes. The empty room id stands for no room.
abbrev pub room_topic : List ℕ → List ℕ
room_topic room_id = b'r' ∷ b'o' ∷ b'o' ∷ b'm' ∷ b':' ∷ room_id

pub record Message : Type 0 where
  pub session_id : ℕ
  pub body : List ℕ

pub data EventKind : Type 0 where
  unknown ev_pong ev_close : EventKind

-- What a handler does beside changing the endpoint.
pub data Effect : Type 0 where
  publish : List ℕ → Message → Effect
  control : EventKind → Effect

pub record Endpoint : Type 0 where
  pub session : Session
  pub room_id : List ℕ
  pub cancelled : Bool
  pub connection_closed : Bool
  pub closed : Bool

-- The part of `handleData` behind the parsers, for a room message.
unfoldable pub route : Endpoint → List ℕ → List ℕ → ℕ → Endpoint × List Effect
route se payload room_id room_msg_type =
    let sent =
      publish (room_topic room_id) (record { session_id = se.session.id; body = payload }) ∷ [] in
    if room_msg_type == room_msg_type_join
    then (record se { room_id = room_id }, sent)
    else if room_msg_type == room_msg_type_leave
    then (record se { room_id = [] }, sent)
    else (se, sent)

unfoldable pub handle_payload : Endpoint → ℕ → List ℕ → Endpoint × List Effect
handle_payload se msg_type payload =
    if msg_type == msg_type_pong
    then (se, control ev_pong ∷ [])
    else if msg_type == msg_type_room_message
    then elim (parse_room_id payload) [
      | err e ↦ (se, [])
      | ok (room_id, n) ↦ elim (parse_room_header (drop n payload)) [
        | err e ↦ (se, [])
        | ok (room_msg_type, m) ↦ route se payload room_id room_msg_type
      ]
    ]
    else (se, [])

unfoldable pub handle_data : Endpoint → List ℕ → Endpoint × List Effect
handle_data se buf = elim (parse_transport_header buf) [
  | err e ↦ (se, [])
  | ok (msg_type, total_len, hdr_len) ↦
      if ltb (length buf) (hdr_len + total_len)
      then (se, [])
      else handle_payload se msg_type (take total_len (drop hdr_len buf))
]

-- The body of the `Leave` that `close` publishes: the message behind its transport header.
unfoldable pub leave_body : List ℕ → List ℕ
leave_body room_id =
    let leave_payload = encode_room_message room_id room_msg_type_leave [] in
    elim (parse_transport_header leave_payload) [
      | err e ↦ leave_payload
      | ok (msg_type, total_len, hdr_len) ↦ drop hdr_len leave_payload
    ]

unfoldable pub close : Endpoint → Endpoint × List Effect
close se = if se.closed then (se, []) else (
  record {
    session = (Session.close se.session).0;
    room_id = [];
    cancelled = true;
    connection_closed = true;
    closed = true;
  },
  elim se.room_id [
    | [] ↦ []
    | b ∷ bs ↦
        publish (room_topic (b ∷ bs))
          (record { session_id = se.session.id; body = leave_body (b ∷ bs) })
        ∷ []
  ],
)

unfoldable pub handle_control_event : ℕ → Endpoint → EventKind → Endpoint × List Effect
handle_control_event now se ev_close = close se
handle_control_event now se ev_pong = (record se { session = touch_pong now se.session }, [])
handle_control_event now se unknown = (se, [])
