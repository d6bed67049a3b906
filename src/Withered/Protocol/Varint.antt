-- ===== src/Withered/Protocol/Varint.antt =====
-- varint.go: QUIC variable-length integers. A byte slice is a list of numbers below 256.
use Prim.Native.Nat.{bit_and, bit_or}
use tanzlaurel.Base.{
  ℕ, zero, suc, ◌*◌, ◌/◌, ◌%◌, ◌^◌, ◌<◌, List, [], ◌∷◌, ◌++◌, ltb, leb, ◌==◌, if◌then◌else◌, length,
  get_elem?, none, some,
}
use tanzlaurel.Base.Errors.{Result, ok, err}

pub data Error : Type 0 where
  varint_too_short invalid_room_id : Error

abbrev pub IsByte : ℕ → Type 0
IsByte b = b < 256

abbrev pub IsU64 : ℕ → Type 0
IsU64 v = v < 2 ^ 64

-- `buf[i]`; every use below is behind a check of the length, so the 0 is never read.
abbrev pub byte_at : List ℕ → ℕ → ℕ
byte_at buf i = elim (get_elem? buf i) [ none ↦ 0 | some b ↦ b ]

-- `x << k` on a uint64, and the conversion `byte(x)`.
abbrev pub shl : ℕ → ℕ → ℕ
shl x k = x * 2 ^ k % 2 ^ 64

abbrev pub byte : ℕ → ℕ
byte x = x % 256

-- The bytes of `buf` from index `i` on, shifted and joined under `acc`, as in
-- `acc | uint64(buf[i])<<16 | uint64(buf[i+1])<<8 | uint64(buf[i+2])`, for `n` bytes.
unfoldable pub join : ℕ → ℕ → ℕ → List ℕ → ℕ
join acc zero i buf = acc
join acc (suc n) i buf = join (bit_or acc (shl (byte_at buf i) (8 * n))) n (suc i) buf

-- The `switch length`.
unfoldable pub payload : ℕ → List ℕ → ℕ
payload len buf =
    let head = bit_and (byte_at buf 0) 0x3f in
    if len == 1
    then head
    else if len == 2
    then join (shl head 8) 1 1 buf
    else if len == 4
    then join (shl head 24) 3 1 buf
    else join (shl head 56) 7 1 buf

-- The value, and the number of bytes that it took.
unfoldable pub read_varint : List ℕ → Result Error (ℕ × ℕ)
read_varint [] = err varint_too_short
read_varint (b0 ∷ rest) =
    let len = 2 ^ (b0 / 2 ^ 6) in
    if ltb (length (b0 ∷ rest)) len then err varint_too_short else ok (payload len (b0 ∷ rest), len)

unfoldable pub append_varint : List ℕ → ℕ → List ℕ
append_varint buf value =
    if leb value 63
    then buf ++ (byte value ∷ [])
    else if leb value 16383
    then buf ++ (byte (bit_or 0x40 (value / 2 ^ 8)) ∷ byte value ∷ [])
    else if leb value 1073741823
    then buf
      ++ (byte (bit_or 0x80 (value / 2 ^ 24))
          ∷ byte (value / 2 ^ 16)
          ∷ byte (value / 2 ^ 8)
          ∷ byte value
          ∷ [])
    else buf
      ++ (byte (bit_or 0xc0 (value / 2 ^ 56))
          ∷ byte (value / 2 ^ 48)
          ∷ byte (value / 2 ^ 40)
          ∷ byte (value / 2 ^ 32)
          ∷ byte (value / 2 ^ 24)
          ∷ byte (value / 2 ^ 16)
          ∷ byte (value / 2 ^ 8)
          ∷ byte value
          ∷ [])

unfoldable pub varint_len : ℕ → ℕ
varint_len value =
    if leb value 63 then 1 else if leb value 16383 then 2 else if leb value 1073741823 then 4 else 8
