-- ===== src/Withered/Protocol/Parsing.antt =====
-- The parsers read back what the encoders of protocol.go write.
use tanzlaurel.Base.{
  ℕ, ◌+◌, ◌%◌, ◌^◌, ◌≤◌, ◌<◌, ◌≡◌, refl, sym, ap, ◌∙◌, List, [], ◌++◌, length, drop, arith,
  length-append, ge→ltb, drop-append, take-append, drop-add,
}
use mathlib.Core.List.{append_assoc, append-nil}
use tanzlaurel.Base.Errors.{ok}
use tanzlaurel.Withered.Protocol.Varint.{read_varint, append_varint, varint_len}
use tanzlaurel.Withered.Protocol.RoundTrip.{
  read-append_len, append-varint_behind, length-append_varint,
}
use tanzlaurel.Withered.Protocol.Messages.{
  parse_transport_header, parse_room_id, parse_room_header, room_payload, encode_room_message,
  msg_type_room_message,
}

-- What a varint can hold.
abbrev pub IsVarint : ℕ → Type 0
IsVarint v = v < 2 ^ 62

read-varint_back :
    (v : ℕ) (rest : List ℕ)
    → IsVarint v
    → read_varint (append_varint [] v ++ rest) ≡ ok (v, varint_len v)
read-varint_back v rest h =
    let small : v % 2 ^ 62 ≡ v = omega arith in read-append_len v rest (omega arith) ∙ rw small

drop-varint :
    (v : ℕ) (rest : List ℕ) → IsVarint v → drop (varint_len v) (append_varint [] v ++ rest) ≡ rest
drop-varint v rest h =
    ap (λ (k : ℕ). drop k (append_varint [] v ++ rest))
      (sym (length-append_varint v (omega arith)).0)
    ∙ drop-append (append_varint [] v) rest

one_byte : varint_len 0 ≡ 1
unfolding varint_len
one_byte = refl

module _ (room_id : List ℕ) (kind : ℕ) (app : List ℕ) where
  payload_size : ℕ
  payload_size = length (room_payload room_id kind app)

  -- The encoders append field to field.
  message_fields :
      (rest : List ℕ)
      → IsVarint payload_size
      → encode_room_message room_id kind app ++ rest
        ≡ append_varint [] 0
          ++ (append_varint [] payload_size ++ (room_payload room_id kind app ++ rest))
  unfolding encode_room_message payload_size
  message_fields rest h =
      rw (append-varint_behind (append_varint [] 0) payload_size (omega arith)) (simp append_assoc)

  payload_fields :
      IsVarint kind
      → room_payload room_id kind app
        ≡ append_varint [] (length room_id) ++ (room_id ++ (append_varint [] kind ++ app))
  unfolding room_payload
  payload_fields h =
      rw (append-varint_behind (append_varint [] (length room_id) ++ room_id) kind (omega arith))
        (simp append_assoc)

  -- If the length of the payload fits a varint, the transport header of a room message gives its
  -- type and that length, and the payload stands behind it.
  pub parse-encode_room_message :
      (rest : List ℕ)
      → IsVarint (length (room_payload room_id kind app))
      → let n = length (room_payload room_id kind app) in
        (parse_transport_header (encode_room_message room_id kind app ++ rest)
          ≡ ok (msg_type_room_message, n, 1 + varint_len n))
        × (drop (1 + varint_len n) (encode_room_message room_id kind app ++ rest)
            ≡ room_payload room_id kind app ++ rest)
  unfolding payload_size parse_transport_header
  parse-encode_room_message rest h =
      let n = length (room_payload room_id kind app) in
      let body = room_payload room_id kind app ++ rest in
      let one : drop 1 (append_varint [] 0 ++ (append_varint [] n ++ body))
          ≡ append_varint [] n ++ body =
        ap (λ (k : ℕ). drop k (append_varint [] 0 ++ (append_varint [] n ++ body))) (sym one_byte)
        ∙ drop-varint 0 (append_varint [] n ++ body) (omega arith) in
      (
        rw (message_fields rest h, read-varint_back 0 (append_varint [] n ++ body) (omega arith))
            (rw (one_byte, one, read-varint_back n body h)),
        rw
            (
              message_fields rest h,
              drop-add (append_varint [] 0 ++ (append_varint [] n ++ body)) 1 (varint_len n),
              one,
            )
            (drop-varint n body h),
      )

  pub length-encode_room_message :
      IsVarint (length (room_payload room_id kind app))
      → length (encode_room_message room_id kind app)
        ≡ 1
          + varint_len (length (room_payload room_id kind app))
          + length (room_payload room_id kind app)
  unfolding payload_size
  length-encode_room_message h =
      let n = length (room_payload room_id kind app) in
      let fields = sym (append-nil (encode_room_message room_id kind app)) ∙ message_fields [] h in
      let size = ap (λ (xs : List ℕ). length xs) fields in
      omega (
        arith,
        size,
        length-append (append_varint [] 0)
            (append_varint [] n ++ (room_payload room_id kind app ++ [])),
        length-append (append_varint [] n) (room_payload room_id kind app ++ []),
        length-append (room_payload room_id kind app) [],
        (length-append_varint 0 (omega arith)).0,
        (length-append_varint n (omega arith)).0,
        one_byte,
      )

  -- If the length of the room id and the kind of message fit a varint, the room id, the kind and
  -- the application's part are read back from the payload.
  pub parse-room_payload :
      IsVarint (length room_id)
      → IsVarint kind
      → let n1 = varint_len (length room_id) + length room_id in
        (parse_room_id (room_payload room_id kind app) ≡ ok (room_id, n1))
        × (parse_room_header (drop n1 (room_payload room_id kind app)) ≡ ok (kind, varint_len kind))
        × (drop (n1 + varint_len kind) (room_payload room_id kind app) ≡ app)
  unfolding parse_room_id parse_room_header
  parse-room_payload h hk =
      let n = length room_id in
      let tail = append_varint [] kind ++ app in
      let first : drop (varint_len n) (append_varint [] n ++ (room_id ++ tail)) ≡ room_id ++ tail =
        drop-varint n (room_id ++ tail) h in
      let second : drop (varint_len n + n) (append_varint [] n ++ (room_id ++ tail)) ≡ tail =
        drop-add (append_varint [] n ++ (room_id ++ tail)) (varint_len n) n
        ∙ ap (drop n) first
        ∙ drop-append room_id tail in
      let fits : varint_len n + n ≤ length (append_varint [] n ++ (room_id ++ tail)) = omega (
        arith,
        length-append (append_varint [] n) (room_id ++ tail),
        length-append room_id tail,
        (length-append_varint n (omega arith)).0,
      ) in
      rw (payload_fields hk) (
        rw (read-varint_back n (room_id ++ tail) h)
            (rw (ge→ltb _ _ fits, first, take-append room_id tail)),
        rw second (read-varint_back kind app hk),
        drop-add (append_varint [] n ++ (room_id ++ tail)) (varint_len n + n) (varint_len kind)
            ∙ ap (drop (varint_len kind)) second
            ∙ drop-varint kind app hk,
      )
