-- ===== src/Withered/Game/Snapshots.antt =====
-- withered/server/application/codec.go: the bytes of a snapshot of the world.
use Prim.Native.Nat.{bit_or}
use tanzlaurel.Base.{
  ℕ, ◌/◌, ◌^◌, List, [], ◌∷◌, ◌++◌, Option, none, some, leb, if◌then◌else◌, length,
}
use tanzlaurel.Withered.Protocol.Varint.{byte}
use tanzlaurel.Withered.Protocol.Payload.{uint32_bytes, encode_payload_header}
use tanzlaurel.Withered.Sessions.Session.{has}
use tanzlaurel.Withered.Game.World.{ShootingWorld, Vector}

abbrev pub data_type_snapshot : ℕ
data_type_snapshot = 5

-- `AppendUint16`, little endian.
abbrev pub uint16_bytes : ℕ → List ℕ
uint16_bytes v = byte v ∷ byte (v / 2 ^ 8) ∷ []

-- `MPos` and the six others.
abbrev pub m_pos : ℕ
m_pos = 1

abbrev pub m_vel : ℕ
m_vel = 2

abbrev pub m_hp : ℕ
m_hp = 4

abbrev pub m_life : ℕ
m_life = 8

abbrev pub m_ttl : ℕ
m_ttl = 16

abbrev pub m_own : ℕ
m_own = 32

abbrev pub m_tag : ℕ
m_tag = 64

-- `if _, ok := m[id]; ok { mask |= bit }`
unfoldable pub mark {ℓ} : {A : Type ℓ} → Option A → ℕ → ℕ → ℕ
mark none bit mask = mask
mark (some a) bit mask = bit_or mask bit

unfoldable pub mask_of : ShootingWorld → ℕ → ℕ
mask_of w id = mark (w.tag id) m_tag (
    mark (w.owner id) m_own (
      mark (w.ttl id) m_ttl (
        mark (w.life_state id) m_life
          (mark (w.health id) m_hp (mark (w.velocity id) m_vel (mark (w.position id) m_pos 0))))))

-- A component that is read with its zero value when it is missing.
abbrev pub or_zero : Option ℕ → ℕ
or_zero none = 0
or_zero (some v) = v

abbrev pub vector_bytes : Option Vector → List ℕ
vector_bytes none = uint32_bytes 0 ++ uint32_bytes 0
vector_bytes (some v) = uint32_bytes v.x ++ uint32_bytes v.y

-- `if mask&bit != 0 { … }`
abbrev pub section : ℕ → ℕ → List ℕ → List ℕ
section mask bit body = if has mask bit then body else []

unfoldable pub encode_entity : ShootingWorld → ℕ → List ℕ
encode_entity w id =
    let mask = mask_of w id in
    uint16_bytes id
    ++ (mask ∷ [])
    ++ section mask m_pos (vector_bytes (w.position id))
    ++ section mask m_vel (vector_bytes (w.velocity id))
    ++ section mask m_hp (or_zero (w.health id) ∷ [])
    ++ section mask m_life (or_zero (w.life_state id) ∷ [])
    ++ section mask m_ttl (uint16_bytes (or_zero (w.ttl id)))
    ++ section mask m_own (uint16_bytes (or_zero (w.owner id)))
    ++ section mask m_tag (or_zero (w.tag id) ∷ [])

-- `slices.Sort`
unfoldable pub insert_sorted : ℕ → List ℕ → List ℕ
insert_sorted x [] = x ∷ []
insert_sorted x (y ∷ ys) = if leb x y then x ∷ y ∷ ys else y ∷ insert_sorted x ys

unfoldable pub sort : List ℕ → List ℕ
sort [] = []
sort (x ∷ xs) = insert_sorted x (sort xs)

unfoldable pub encode_entities : ShootingWorld → List ℕ → List ℕ
encode_entities w [] = []
encode_entities w (id ∷ ids) = encode_entity w id ++ encode_entities w ids

unfoldable pub encode_withered_snapshot : ShootingWorld → List ℕ
encode_withered_snapshot w =
    let ids = sort w.entities in uint16_bytes (length ids) ++ encode_entities w ids

unfoldable pub encode_snapshot : ShootingWorld → List ℕ
encode_snapshot w =
    encode_payload_header (record { data_type = data_type_snapshot; sub_type = 0 })
    ++ encode_withered_snapshot w
