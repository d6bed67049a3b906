-- ===== src/Withered/Protocol/PayloadLaws.antt =====
-- What the parsers of the application's payloads make of the encodings.
use tanzlaurel.Base.{
  ℕ, ◌+◌, ◌*◌, ◌/◌, ◌%◌, ◌^◌, ◌≤◌, ◌<◌, ◌≡◌, refl, sym, ap, ◌∙◌, List, [], ◌∷◌, ◌++◌, length,
  length-append, take, drop, arith, All, ge→ltb, take-append, drop-append, drop-add,
}
use mathlib.Core.List.{append_assoc}
use tanzlaurel.Base.Errors.{ok}
use tanzlaurel.Withered.Protocol.Payload.{
  Position2d, Position, BoneData, Actor3dUpdate, parse_position_2d, encode_position_2d,
  parse_position, encode_position, parse_bone_data, encode_bone_data, parse_bones, encode_bones,
  parse_actor_3d_update, encode_actor_3d_update, count_set_bits,
}

abbrev pub IsU32 : ℕ → Type 0
IsU32 v = v < 2 ^ 32

abbrev pub IsBone : BoneData → Type 0
IsBone b = IsU32 b.qx × IsU32 b.qy × IsU32 b.qz × IsU32 b.qw

abbrev pub IsPosition : Position → Type 0
IsPosition p = IsU32 p.x × IsU32 p.y × IsU32 p.z × IsU32 p.qx × IsU32 p.qy × IsU32 p.qz × IsU32 p.qw

word :
    (v : ℕ)
    → IsU32 v
    → v % 256 + v / 2 ^ 8 % 256 * 2 ^ 8 + v / 2 ^ 16 % 256 * 2 ^ 16 + v / 2 ^ 24 % 256 * 2 ^ 24 ≡ v
word v h = omega arith

parse-bone :
    (b : BoneData) (rest : List ℕ) → IsBone b → parse_bone_data (encode_bone_data b ++ rest) ≡ ok b
unfolding parse_bone_data encode_bone_data
parse-bone b rest h =
    rw (ge→ltb (length (encode_bone_data b ++ rest)) 17 (omega arith))
      (rw (word b.qx h.0, word b.qy h.1, word b.qz h.2, word b.qw h.3))

pub parse-position :
    (p : Position) (rest : List ℕ)
    → IsPosition p
    → parse_position (encode_position p ++ rest) ≡ ok p
unfolding parse_position encode_position
parse-position p rest h = rw (ge→ltb (length (encode_position p ++ rest)) 28 (omega arith)) (
    rw (
      word p.x h.0,
      word p.y h.1,
      word p.z h.2,
      word p.qx h.3,
      word p.qy h.4,
      word p.qz h.5,
      word p.qw h.6,
    ))

-- A 2D position of 32-bit words is read back from what was written, whatever follows.
pub parse-position_2d :
    (p : Position2d) (rest : List ℕ)
    → IsU32 p.x
    → IsU32 p.y
    → parse_position_2d (encode_position_2d p ++ rest) ≡ ok p
unfolding parse_position_2d encode_position_2d
parse-position_2d p rest hx hy =
    rw (ge→ltb (length (encode_position_2d p ++ rest)) 8 (omega arith))
      (rw (word p.x hx, word p.y hy))

parse-bones :
    (bs : List BoneData) (rest : List ℕ)
    → All IsBone bs
    → parse_bones (length bs) (encode_bones bs ++ rest) ≡ ok bs
unfolding parse_bones encode_bones
parse-bones [] rest h = refl
parse-bones (b ∷ bs) rest h = rw (
  append_assoc (encode_bone_data b) (encode_bones bs) rest,
  ge→ltb (length (encode_bone_data b ++ (encode_bones bs ++ rest))) 17
      (long b (encode_bones bs ++ rest)),
  parse-bone b (encode_bones bs ++ rest) h.0,
  behind b (encode_bones bs ++ rest),
  parse-bones bs rest h.1,
)
  where
    long : (b : BoneData) (rest : List ℕ) → 17 ≤ length (encode_bone_data b ++ rest)
    long b rest = unfold encode_bone_data in omega arith

    behind : (b : BoneData) (rest : List ℕ) → drop 17 (encode_bone_data b ++ rest) ≡ rest
    behind b rest = unfold encode_bone_data in refl

-- An update of a 3D actor with 32-bit words is read back from what was written, whatever follows,
-- if its bit mask has 16 bytes and as many bits as there are bones.
pub parse-actor_3d_update :
    (a : Actor3dUpdate) (rest : List ℕ)
    → length a.bitmask ≡ 16
    → count_set_bits a.bitmask ≡ length a.bones
    → IsPosition a.position
    → All IsBone a.bones
    → parse_actor_3d_update (encode_actor_3d_update a ++ rest) ≡ ok a
unfolding parse_actor_3d_update encode_actor_3d_update
parse-actor_3d_update a rest h16 count hp hb = rw (
  append_assoc a.bitmask fields rest,
  append_assoc (encode_position a.position) (encode_bones a.bones) rest,
  ge→ltb (length (a.bitmask ++ tail)) 44 long,
  behind_mask,
  parse-position a.position bones hp,
  mask,
  count,
  behind_position,
  parse-bones a.bones rest hb,
)
  where
    fields : List ℕ
    fields = encode_position a.position ++ encode_bones a.bones

    bones : List ℕ
    bones = encode_bones a.bones ++ rest

    tail : List ℕ
    tail = encode_position a.position ++ bones

    mask : take 16 (a.bitmask ++ tail) ≡ a.bitmask
    mask = ap (λ (n : ℕ). take n (a.bitmask ++ tail)) (sym h16) ∙ take-append a.bitmask tail

    behind_mask : drop 16 (a.bitmask ++ tail) ≡ tail
    behind_mask = ap (λ (n : ℕ). drop n (a.bitmask ++ tail)) (sym h16) ∙ drop-append a.bitmask tail

    behind_position : drop 44 (a.bitmask ++ tail) ≡ bones
    behind_position =
        drop-add (a.bitmask ++ tail) 16 28
        ∙ ap (drop 28) behind_mask
        ∙ unfold encode_position in refl

    long : 44 ≤ length (a.bitmask ++ tail)
    long =
        let n : length tail ≡ 28 + length bones = unfold encode_position in omega arith in
        omega (arith, length-append a.bitmask tail, h16, n)
