-- ===== src/Withered/Protocol/Payload.antt =====
-- withered/server/application/protocol/protocol.go: the application's payloads. A float32 is its bit
-- pattern, which `math.Float32bits` and `math.Float32frombits` pass through unchanged.
use Prim.Native.Nat.{bit_and}
use tanzlaurel.Base.{
  ℕ, zero, suc, ◌+◌, ◌*◌, ◌/◌, ◌^◌, List, [], ◌∷◌, ◌++◌, ltb, ◌==◌, if◌then◌else◌, length, take,
  drop,
}
use tanzlaurel.Base.Errors.{Result, ok, err, ◌>>=◌}
use tanzlaurel.Withered.Protocol.Varint.{byte_at, byte}

pub data PayloadError : Type 0 where
  invalid_payload_size invalid_position_2d_data invalid_position_size invalid_bone_data_size :
      PayloadError
  invalid_actor_2d_spawn_size invalid_actor_2d_update_size : PayloadError
  invalid_actor_3d_spawn_size invalid_actor_3d_update_size invalid_input_payload_size : PayloadError

-- `byteOrder.Uint32(data[i:i+4])` and `PutUint32`, little endian.
abbrev pub uint32_at : List ℕ → ℕ → ℕ
uint32_at buf i =
    byte_at buf i
    + byte_at buf (i + 1) * 2 ^ 8
    + byte_at buf (i + 2) * 2 ^ 16
    + byte_at buf (i + 3) * 2 ^ 24

abbrev pub uint32_bytes : ℕ → List ℕ
uint32_bytes v = byte v ∷ byte (v / 2 ^ 8) ∷ byte (v / 2 ^ 16) ∷ byte (v / 2 ^ 24) ∷ []

pub record PayloadHeader : Type 0 where
  pub data_type : ℕ
  pub sub_type : ℕ

abbrev pub payload_header_size : ℕ
payload_header_size = 2

unfoldable pub parse_payload_header : List ℕ → Result PayloadError PayloadHeader
parse_payload_header buf =
    if ltb (length buf) payload_header_size
    then err invalid_payload_size
    else ok (record { data_type = byte_at buf 0; sub_type = byte_at buf 1 })

unfoldable pub encode_payload_header : PayloadHeader → List ℕ
encode_payload_header p = p.data_type ∷ p.sub_type ∷ []

pub record Position2d : Type 0 where
  pub x : ℕ
  pub y : ℕ

unfoldable pub parse_position_2d : List ℕ → Result PayloadError Position2d
parse_position_2d buf =
    if ltb (length buf) 8
    then err invalid_position_2d_data
    else ok (record { x = uint32_at buf 0; y = uint32_at buf 4 })

unfoldable pub encode_position_2d : Position2d → List ℕ
encode_position_2d p = uint32_bytes p.x ++ uint32_bytes p.y

pub record Position : Type 0 where
  pub x : ℕ
  pub y : ℕ
  pub z : ℕ
  pub qx : ℕ
  pub qy : ℕ
  pub qz : ℕ
  pub qw : ℕ

unfoldable pub parse_position : List ℕ → Result PayloadError Position
parse_position buf =
    if ltb (length buf) 28
    then err invalid_position_size
    else ok (record {
      x = uint32_at buf 0;
      y = uint32_at buf 4;
      z = uint32_at buf 8;
      qx = uint32_at buf 12;
      qy = uint32_at buf 16;
      qz = uint32_at buf 20;
      qw = uint32_at buf 24;
    })

unfoldable pub encode_position : Position → List ℕ
encode_position p =
    uint32_bytes p.x
    ++ (uint32_bytes p.y
        ++ (uint32_bytes p.z
            ++ (uint32_bytes p.qx
                ++ (uint32_bytes p.qy ++ (uint32_bytes p.qz ++ uint32_bytes p.qw)))))

pub record BoneData : Type 0 where
  pub bone_id : ℕ
  pub qx : ℕ
  pub qy : ℕ
  pub qz : ℕ
  pub qw : ℕ

unfoldable pub parse_bone_data : List ℕ → Result PayloadError BoneData
parse_bone_data buf =
    if ltb (length buf) 17
    then err invalid_bone_data_size
    else ok (record {
      bone_id = byte_at buf 0;
      qx = uint32_at buf 1;
      qy = uint32_at buf 5;
      qz = uint32_at buf 9;
      qw = uint32_at buf 13;
    })

unfoldable pub encode_bone_data : BoneData → List ℕ
encode_bone_data b =
    b.bone_id ∷ uint32_bytes b.qx ++ (uint32_bytes b.qy ++ (uint32_bytes b.qz ++ uint32_bytes b.qw))

-- `Actor2DSpawn` and `Actor2DUpdate` hold a position and nothing else.
unfoldable pub parse_actor_2d_spawn : List ℕ → Result PayloadError Position2d
parse_actor_2d_spawn buf =
    if ltb (length buf) 8 then err invalid_actor_2d_spawn_size else parse_position_2d buf

unfoldable pub parse_actor_2d_update : List ℕ → Result PayloadError Position2d
parse_actor_2d_update buf =
    if ltb (length buf) 8 then err invalid_actor_2d_update_size else parse_position_2d buf

unfoldable pub parse_actor_3d_spawn : List ℕ → Result PayloadError Position
parse_actor_3d_spawn buf =
    if ltb (length buf) 28 then err invalid_actor_3d_spawn_size else parse_position buf

pub record Actor3dUpdate : Type 0 where
  pub bitmask : List ℕ
  pub position : Position
  pub bones : List BoneData

-- `for b != 0 { count += int(b & 1); b >>= 1 }`: a byte is 0 after eight rounds.
unfoldable pub count_bits : ℕ → ℕ → ℕ
count_bits zero b = 0
count_bits (suc rounds) b = if b == 0 then 0 else bit_and b 1 + count_bits rounds (b / 2)

unfoldable pub count_set_bits : List ℕ → ℕ
count_set_bits [] = 0
count_set_bits (b ∷ bs) = count_bits 8 b + count_set_bits bs

-- The loop over the bones; `buf` is what stands at `offset`.
unfoldable pub parse_bones : ℕ → List ℕ → Result PayloadError (List BoneData)
parse_bones zero buf = ok []
parse_bones (suc n) buf =
    if ltb (length buf) 17
    then err invalid_actor_3d_update_size
    else parse_bone_data buf >>= λ bone. parse_bones n (drop 17 buf) >>= λ bones. ok (bone ∷ bones)

unfoldable pub parse_actor_3d_update : List ℕ → Result PayloadError Actor3dUpdate
parse_actor_3d_update buf =
    if ltb (length buf) 44
    then err invalid_actor_3d_update_size
    else parse_position (drop 16 buf) >>= λ position.
        parse_bones (count_set_bits (take 16 buf)) (drop 44 buf) >>= λ bones.
        ok (record { bitmask = take 16 buf; position = position; bones = bones })

unfoldable pub encode_bones : List BoneData → List ℕ
encode_bones [] = []
encode_bones (b ∷ bs) = encode_bone_data b ++ encode_bones bs

unfoldable pub encode_actor_3d_update : Actor3dUpdate → List ℕ
encode_actor_3d_update a = a.bitmask ++ (encode_position a.position ++ encode_bones a.bones)

unfoldable pub parse_input_payload : List ℕ → Result PayloadError ℕ
parse_input_payload buf =
    if ltb (length buf) 4 then err invalid_input_payload_size else ok (uint32_at buf 0)

unfoldable pub encode_input_payload : ℕ → List ℕ
encode_input_payload key_mask = uint32_bytes key_mask
