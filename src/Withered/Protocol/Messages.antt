-- ===== src/Withered/Protocol/Messages.antt =====
-- protocol.go: the headers, the parsers and the encoders. A room id is its list of bytes.
use tanzlaurel.Base.{ℕ, ◌+◌, List, [], ◌++◌, ltb, if◌then◌else◌, length, take, drop}
use tanzlaurel.Base.Errors.{Result, ok, err, ◌>>=◌}
use tanzlaurel.Withered.Protocol.Varint.{Error, invalid_room_id, read_varint, append_varint}

-- `MsgType`
abbrev pub msg_type_room_message : ℕ
msg_type_room_message = 0

abbrev pub msg_type_ping : ℕ
msg_type_ping = 1

abbrev pub msg_type_pong : ℕ
msg_type_pong = 2

abbrev pub msg_type_assign : ℕ
msg_type_assign = 3

-- `RoomMsgType`
abbrev pub room_msg_type_join : ℕ
room_msg_type_join = 0

abbrev pub room_msg_type_leave : ℕ
room_msg_type_leave = 1

abbrev pub room_msg_type_app_data : ℕ
room_msg_type_app_data = 2

-- The message type, the length of the payload, and the bytes taken.
unfoldable pub parse_transport_header : List ℕ → Result Error (ℕ × ℕ × ℕ)
parse_transport_header buf = do
  (mt, n1) ← read_varint buf
  (tl, n2) ← read_varint (drop n1 buf)
  ok (mt, tl, n1 + n2)

-- `end` stays below 2 ^ 62 + 8, so the `int` sum does not wrap.
unfoldable pub parse_room_id : List ℕ → Result Error (List ℕ × ℕ)
parse_room_id buf = do
  (len, n1) ← read_varint buf
  if ltb (length buf) (n1 + len) then err invalid_room_id else ok (take len (drop n1 buf), n1 + len)

unfoldable pub parse_room_header : List ℕ → Result Error (ℕ × ℕ)
parse_room_header buf = read_varint buf

unfoldable pub encode_ping : List ℕ
encode_ping = append_varint (append_varint [] msg_type_ping) 0

unfoldable pub encode_pong : List ℕ
encode_pong = append_varint (append_varint [] msg_type_pong) 0

unfoldable pub encode_assign : List ℕ → List ℕ
encode_assign session_id = append_varint (append_varint [] msg_type_assign) 16 ++ session_id

-- The part of `EncodeRoomMessage` behind the transport header.
unfoldable pub room_payload : List ℕ → ℕ → List ℕ → List ℕ
room_payload room_id room_msg_type app_payload =
    append_varint (append_varint [] (length room_id) ++ room_id) room_msg_type ++ app_payload

unfoldable pub encode_room_message : List ℕ → ℕ → List ℕ → List ℕ
encode_room_message room_id room_msg_type app_payload =
    let payload = room_payload room_id room_msg_type app_payload in
    append_varint (append_varint [] msg_type_room_message) (length payload) ++ payload
