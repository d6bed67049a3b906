-- ===== src/Withered/Sessions/Delivery.antt =====
-- From the bytes that a client sends to what its room does.
use tanzlaurel.Base.{
  ℕ, ◌+◌, ◌≤◌, ◌≡◌, ◌≢◌, false, not, ◌||◌, ◌&&◌, ==_iff, refl, sym, ap, ◌∙◌, List, [], ◌∷◌, ◌++◌,
  ◌==◌, if◌then◌else◌, length, take, drop, take-append, ge→ltb, arith, Bool-cases, inl, inr,
}
use mathlib.Core.List.{append-nil}
use tanzlaurel.Base.Errors.{ok}
use tanzlaurel.Withered.Protocol.Varint.{varint_len}
use tanzlaurel.Withered.Protocol.Messages.{
  parse_transport_header, encode_room_message, room_payload, room_msg_type_join,
  room_msg_type_leave, msg_type_room_message,
}
use tanzlaurel.Withered.Protocol.Parsing.{
  IsVarint, parse-encode_room_message, parse-room_payload, length-encode_room_message,
}
use tanzlaurel.Withered.Sessions.Endpoint.{
  Endpoint, Message, publish, room_topic, handle_data, handle_payload, route, leave_body, close,
}
use tanzlaurel.Withered.Sessions.Room.{Application, Room, dispatch, handle_message, add, remove}
use tanzlaurel.Flourish.Crdt.Rga.{contains}

-- The encoding of a room message can be announced by varints.
pub record Fits (room_id : List ℕ) (kind : ℕ) (app : List ℕ) : Type 0 where
  pub id_fits : IsVarint (length room_id)
  pub kind_fits : IsVarint kind
  pub payload_fits : IsVarint (length (room_payload room_id kind app))

contains-add :
    (k id : ℕ) (sessions : List ℕ) → contains k (add id sessions) ≡ (k == id || contains k sessions)
unfolding add contains
contains-add k id sessions = elim (Bool-cases (contains id sessions)) [
  | inr new ↦ rw new refl
  | inl there ↦ elim (Bool-cases (k == id)) [
    | inl e ↦ let same = (==_iff k id).0 e in rw (there, e, same) there
    | inr e ↦ rw (there, e) refl
  ]
]

contains-remove :
    (k id : ℕ) (sessions : List ℕ)
    → contains k (remove id sessions) ≡ (not (k == id) && contains k sessions)
unfolding remove contains
contains-remove k id [] = ground arith
contains-remove k id (x ∷ xs) = let h = contains-remove k id xs in ground (arith, h)

unwrap :
    (se : Endpoint) (buf : List ℕ) (n header_size : ℕ) (payload : List ℕ)
    → parse_transport_header buf ≡ ok (msg_type_room_message, n, header_size)
    → header_size + n ≤ length buf
    → take n (drop header_size buf) ≡ payload
    → handle_data se buf ≡ handle_payload se msg_type_room_message payload
unfolding handle_data
unwrap se buf n header_size payload header long body =
    rw (handle_data, header, ge→ltb (length buf) (header_size + n) long, body) refl

route_lem :
    (se : Endpoint) (payload room_id : List ℕ) (kind : ℕ)
    → ((route se payload room_id kind).1
        ≡ publish (room_topic room_id) (record { session_id = se.session.id; body = payload }) ∷ [])
      × ((route se payload room_id kind).0 ≡ record se {
        room_id =
            if kind == room_msg_type_join
            then room_id
            else if kind == room_msg_type_leave
            then []
            else se.room_id;
      })
unfolding route
route_lem se payload room_id kind = elim (Bool-cases (kind == room_msg_type_join)) [
  | inl e ↦ rw (e, route) (refl, refl)
  | inr e ↦ elim (Bool-cases (kind == room_msg_type_leave)) [
    | inl l ↦ rw (e, l, route) (refl, refl)
    | inr l ↦ rw (e, l, route) (refl, refl)
  ]
]

module _ (room_id : List ℕ) (kind : ℕ) (app : List ℕ) (fits : Fits room_id kind app) where
  accept :
      (se : Endpoint)
      → handle_payload se msg_type_room_message (room_payload room_id kind app)
        ≡ route se (room_payload room_id kind app) room_id kind
  unfolding handle_payload
  accept se =
      let (id, header, rest) = parse-room_payload room_id kind app fits.id_fits fits.kind_fits in
      rw (handle_payload, id, header) refl

  routed :
      (se : Endpoint)
      → handle_data se (encode_room_message room_id kind app)
        ≡ route se (room_payload room_id kind app) room_id kind
  routed se =
      let payload = room_payload room_id kind app in
      let n = length payload in
      let message = encode_room_message room_id kind app in
      let (header, behind) = parse-encode_room_message room_id kind app [] fits.payload_fits in
      let whole : message ++ [] ≡ message = append-nil message in
      let payload_whole : payload ++ [] ≡ payload = append-nil payload in
      let header' : parse_transport_header message
          ≡ ok (msg_type_room_message, n, 1 + varint_len n) =
        ap parse_transport_header (sym whole) ∙ header in
      let behind' : drop (1 + varint_len n) message ≡ payload =
        ap (drop (1 + varint_len n)) (sym whole) ∙ behind ∙ payload_whole in
      let long : 1 + varint_len n + n ≤ length message =
        omega (arith, length-encode_room_message room_id kind app fits.payload_fits) in
      let all : take n payload ≡ payload =
        ap (take n) (sym payload_whole) ∙ take-append payload [] in
      unwrap se message n (1 + varint_len n) payload header' long (ap (take n) behind' ∙ all)
      ∙ accept se

  -- An endpoint that reads a room message whose lengths fit varints publishes its payload,
  -- unchanged and under its own session, to the topic of the room; a join makes the room its own,
  -- a leave makes it have none, and nothing else of the endpoint changes.
  pub handle_data-publishes :
      (se : Endpoint)
      → let answer = handle_data se (encode_room_message room_id kind app) in
        (answer.1
          ≡ publish
              (room_topic room_id)
              (record { session_id = se.session.id; body = room_payload room_id kind app })
            ∷ [])
        × (answer.0 ≡ record se {
          room_id =
              if kind == room_msg_type_join
              then room_id
              else if kind == room_msg_type_leave
              then []
              else se.room_id;
        })
  handle_data-publishes se =
      rw (routed se) (route_lem se (room_payload room_id kind app) room_id kind)

  handle_message-dispatch_lem :
      {A : Type 0} (application : Application A) (r : Room A) (session_id : ℕ)
      → handle_message application r
          (record { session_id = session_id; body = room_payload room_id kind app })
        ≡ dispatch application r session_id kind app
  unfolding handle_message
  handle_message-dispatch_lem application r session_id =
      let (id, header, rest) = parse-room_payload room_id kind app fits.id_fits fits.kind_fits in
      rw (id, header, rest, handle_message)

  -- On the payload of a room message whose lengths fit varints a room acts by the kind of the
  -- message. A join adds the session that sent it to the sessions of the room, and a leave takes it
  -- away; any other message leaves them as they are. The application is told of a join, of a leave, or
  -- gets the part of the message that is its own, and of other kinds it hears nothing. What is queued
  -- to be sent stays.
  pub handle_message-dispatch :
      {A : Type 0} (application : Application A) (r : Room A) (session_id : ℕ)
      → let r' =
          handle_message application r
            (record { session_id = session_id; body = room_payload room_id kind app }) in
        ((k : ℕ)
          → contains k r'.registry ≡ (
              if kind == 0
              then k == session_id || contains k r.registry
              else if kind == 1
              then not (k == session_id) && contains k r.registry
              else contains k r.registry))
        × (r'.application ≡ (
            if kind == 0
            then application.on_join session_id r.application
            else if kind == 1
            then application.on_leave session_id r.application
            else if kind == 2
            then application.handle_message session_id app r.application
            else r.application))
        × (r'.send_ch ≡ r.send_ch)
  unfolding dispatch
  handle_message-dispatch application r session_id =
      rw (handle_message-dispatch_lem application r session_id) (elim (Bool-cases (kind == 0)) [
        | inl j ↦ rw j ((λ k. contains-add k session_id r.registry), refl, refl)
        | inr j ↦ elim (Bool-cases (kind == 1)) [
          | inl l ↦ rw (j, l) ((λ k. contains-remove k session_id r.registry), refl, refl)
          | inr l ↦ elim (Bool-cases (kind == 2)) [
            | inl d ↦ rw (j, l, d) ((λ k. refl), refl, refl)
            | inr d ↦ rw (j, l, d) ((λ k. refl), refl, refl)
          ]
        ]
      ])

close-publishes :
    (se : Endpoint) (id : List ℕ)
    → se.closed ≡ false
    → se.room_id ≡ id
    → id ≢ []
    → (close se).1
      ≡ publish (room_topic id) (record { session_id = se.session.id; body = leave_body id }) ∷ []
unfolding close
close-publishes se [] live here some_room = absurd (some_room refl)
close-publishes se (b ∷ bs) live here some_room = rw (live, here, close) refl

close-close : (se : Endpoint) → se.closed ≡ false → close (close se).0 ≡ ((close se).0, [])
unfolding close
close-close se live = rw (live, close) refl

module _ (room_id : List ℕ) (fits : Fits room_id room_msg_type_leave []) where
  leave_body-room_payload : leave_body room_id ≡ room_payload room_id room_msg_type_leave []
  unfolding leave_body
  leave_body-room_payload =
      let payload = room_payload room_id room_msg_type_leave [] in
      let n = length payload in
      let message = encode_room_message room_id room_msg_type_leave [] in
      let (header, behind) =
        parse-encode_room_message room_id room_msg_type_leave [] [] fits.payload_fits in
      let whole : message ++ [] ≡ message = append-nil message in
      let header' : parse_transport_header message
          ≡ ok (msg_type_room_message, n, 1 + varint_len n) =
        ap parse_transport_header (sym whole) ∙ header in
      rw (header', leave_body)
        (ap (drop (1 + varint_len n)) (sym whole) ∙ behind ∙ append-nil payload)

  -- Closing an endpoint that is open and in a room, whose id fits a room message, publishes a
  -- leave message to that room, and closing it again does nothing. On that message the room drops
  -- the session and tells its application so.
  pub close-leaves :
      {A : Type 0} (application : Application A) (r : Room A) (se : Endpoint)
      → se.closed ≡ false
      → se.room_id ≡ room_id
      → room_id ≢ []
      → let message : Message = record {
        session_id = se.session.id;
        body = room_payload room_id room_msg_type_leave [];
      } in
        ((close se).1 ≡ publish (room_topic room_id) message ∷ [])
        × (close (close se).0 ≡ ((close se).0, []))
        × (handle_message application r message ≡ record r {
          registry = remove se.session.id r.registry;
          application = application.on_leave se.session.id r.application;
        })
  unfolding dispatch
  close-leaves application r se live here some_room = (
    rw (sym leave_body-room_payload) (close-publishes se room_id live here some_room),
    close-close se live,
    handle_message-dispatch_lem room_id room_msg_type_leave [] fits application r se.session.id,
  )
