-- ===== src/Withered/Protocol/RoundTrip.antt =====
-- What `ReadVarint` makes of the bytes that `AppendVarint` writes.
use Prim.Native.Nat.{bit_or}
use tanzlaurel.Base.{
  ℕ, zero, suc, ◌+◌, ◌*◌, ◌/◌, ◌%◌, ◌^◌, ◌≤◌, ◌<◌, ◌≡◌, refl, ap, ◌∙◌, List, [], ◌∷◌, ◌++◌, inl,
  inr, ◌⊎◌, All, dec_le, length, length-append, arith, le→leb, gt→leb, ge→ltb,
}
use native.Mathlib.Nat.{pow-suc}
use native.Mathlib.Numerals.{towards_suc}
use tanzlaurel.Base.Bits.{bit_or-add, and_0x3f, or_0x40, or_0x80, or_0xc0}
use tanzlaurel.Base.Errors.{ok}
use tanzlaurel.Withered.Protocol.Varint.{
  IsByte, IsU64, byte_at, shl, join, payload, byte, read_varint, append_varint, varint_len,
}

pow_pos : (k : ℕ) → 0 < 2 ^ k
pow_pos zero = omega arith
pow_pos (suc k) = omega (arith, pow_pos k, pow-suc 2 k)

-- Joining a byte under what is there: `x << (k + 8) | b << k`.
or_below : (x b k : ℕ) → b < 256 → bit_or (x * 2 ^ (k + 8)) (b * 2 ^ k) ≡ (x * 256 + b) * 2 ^ k
or_below x b k h =
    bit_or-add (k + 8) x (b * 2 ^ k) (rw pow_eight (grind (arith, pow_pos k)))
    ∙ rw pow_eight (omega arith)
  where
    pow_eight : 2 ^ (k + 8) ≡ 256 * 2 ^ k
    pow_eight = simp towards_suc (omega arith)

-- The header byte gives the length, and the input is long enough.
read-payload :
    (len b0 : ℕ) (rest : List ℕ)
    → 2 ^ (b0 / 2 ^ 6) ≡ len
    → len ≤ length (b0 ∷ rest)
    → read_varint (b0 ∷ rest) ≡ ok (payload len (b0 ∷ rest), len)
unfolding read_varint
read-payload len b0 rest e le = rw (e, ge→ltb (length (b0 ∷ rest)) len le)

shl_byte : (b n : ℕ) → b < 256 → n < 7 → shl b (8 * n) ≡ b * 2 ^ (8 * n)
shl_byte b zero h hn = omega arith
shl_byte b (suc zero) h hn = omega arith
shl_byte b (suc (suc zero)) h hn = omega arith
shl_byte b (suc (suc (suc zero))) h hn = omega arith
shl_byte b (suc (suc (suc (suc zero)))) h hn = omega arith
shl_byte b (suc (suc (suc (suc (suc zero))))) h hn = omega arith
shl_byte b (suc (suc (suc (suc (suc (suc zero)))))) h hn = omega arith
shl_byte b (suc (suc (suc (suc (suc (suc (suc n))))))) h hn = absurd (omega arith)

join_step :
    (x n i : ℕ) (buf : List ℕ) {b : ℕ}
    → byte_at buf i ≡ b
    → b < 256
    → n < 7
    → join (x * 2 ^ (8 * n + 8)) (suc n) i buf ≡ join ((x * 256 + b) * 2 ^ (8 * n)) n (suc i) buf
unfolding join
join_step x n i buf {b} e h hn = rw (e, shl_byte b n h hn, or_below x b (8 * n) h)

-- The number that the bytes `bs` write under `acc`, most significant first.
unfoldable pub big_endian : ℕ → List ℕ → ℕ
big_endian acc [] = acc
big_endian acc (b ∷ bs) = big_endian (acc * 256 + b) bs

-- The bytes of `buf` from `i` on are `bs`.
abbrev HasBytes : List ℕ → ℕ → List ℕ → Type 0
HasBytes buf i [] = Unit {0}
HasBytes buf i (b ∷ bs) = (byte_at buf i ≡ b) × HasBytes buf (suc i) bs

HasBytes-cons :
    (y : ℕ) (buf bs : List ℕ) (i : ℕ) → HasBytes buf i bs → HasBytes (y ∷ buf) (suc i) bs
HasBytes-cons y buf [] i h = tt
HasBytes-cons y buf (b ∷ bs) i h = (h.0, HasBytes-cons y buf bs (suc i) h.1)

HasBytes-append : (bs rest : List ℕ) → HasBytes (bs ++ rest) 0 bs
HasBytes-append [] rest = tt
HasBytes-append (b ∷ bs) rest = (refl, HasBytes-cons b (bs ++ rest) bs 0 (HasBytes-append bs rest))

join-big_endian :
    (bs : List ℕ) (x i : ℕ) (buf : List ℕ)
    → HasBytes buf i bs
    → All IsByte bs
    → length bs < 8
    → join (x * 2 ^ (8 * length bs)) (length bs) i buf ≡ big_endian x bs
unfolding big_endian
join-big_endian [] x i buf h bytes lt = unfold join in omega arith
join-big_endian (b ∷ bs) x i buf h bytes lt =
    let more : 8 * suc (length bs) ≡ 8 * length bs + 8 = omega arith in
    rw more (
      join_step x (length bs) i buf h.0 bytes.0 (omega arith)
      ∙ join-big_endian bs (x * 256 + b) (suc i) buf h.1 bytes.1 (omega arith))

-- The four arms of the `switch` are one loop.
four : (p : ℕ) → p < 4 → (p ≡ 0) ⊎ (p ≡ 1) ⊎ (p ≡ 2) ⊎ (p ≡ 3)
four p lt = grind arith

pow_small : (p : ℕ) → p < 4 → 2 ^ p ≤ 8
pow_small p lt = elim (four p lt) [
  | inl e ↦ rw e (omega arith)
  | inr (inl e) ↦ rw e (omega arith)
  | inr (inr (inl e)) ↦ rw e (omega arith)
  | inr (inr (inr e)) ↦ rw e (omega arith)
]

payload-join :
    (n b0 : ℕ) (buf : List ℕ)
    → b0 < 256
    → 2 ^ (b0 / 64) ≡ suc n
    → payload (suc n) (b0 ∷ buf) ≡ join (b0 % 64 * 2 ^ (8 * n)) n 1 (b0 ∷ buf)
unfolding payload
payload-join n b0 buf h e = elim (four (b0 / 64) (omega arith)) [
  | inl p ↦
      let e' : 2 ^ 0 ≡ suc n = rw p at e in
      let q : n ≡ 0 = omega arith in rw (q, and_0x3f b0 h) (unfold join in omega arith)
  | inr (inl p) ↦
      let e' : 2 ^ 1 ≡ suc n = rw p at e in
      let q : n ≡ 1 = omega arith in
      rw (q, and_0x3f b0 h) (ap (λ (x : ℕ). join x 1 1 (b0 ∷ buf)) (omega arith))
  | inr (inr (inl p)) ↦
      let e' : 2 ^ 2 ≡ suc n = rw p at e in
      let q : n ≡ 3 = omega arith in
      rw (q, and_0x3f b0 h) (ap (λ (x : ℕ). join x 3 1 (b0 ∷ buf)) (omega arith))
  | inr (inr (inr p)) ↦
      let e' : 2 ^ 3 ≡ suc n = rw p at e in
      let q : n ≡ 7 = omega arith in
      rw (q, and_0x3f b0 h) (ap (λ (x : ℕ). join x 7 1 (b0 ∷ buf)) (omega arith))
]

-- On any bytes that begin with a header byte for the length of what follows: the number is read
-- from the low six bits of the header byte and the bytes behind it, big endian, and the rest is
-- not looked at.
pub read-big_endian :
    (b0 : ℕ) (bs rest : List ℕ)
    → All IsByte (b0 ∷ bs)
    → 2 ^ (b0 / 64) ≡ suc (length bs)
    → read_varint (b0 ∷ bs ++ rest) ≡ ok (big_endian (b0 % 64) bs, suc (length bs))
read-big_endian b0 bs rest bytes e =
    read-payload (suc (length bs)) b0 (bs ++ rest) e (omega (arith, length-append bs rest))
    ∙ ap (λ (v : ℕ). ok (v, suc (length bs)))
        (payload-join (length bs) b0 (bs ++ rest) bytes.0 e
          ∙ join-big_endian bs (b0 % 64) 1 (b0 ∷ bs ++ rest)
              (HasBytes-cons b0 (bs ++ rest) bs 0 (HasBytes-append bs rest)) bytes.1
              (omega (arith, pow_small (b0 / 64) (omega arith))))

-- The bytes of `AppendVarint`, in plain arithmetic.
abbrev Writes : ℕ → Type 0
Writes v =
    (b0 : ℕ) × (bs : List ℕ) × ((buf : List ℕ) → append_varint buf v ≡ buf ++ (b0 ∷ bs))
    × All IsByte (b0 ∷ bs)
    × (suc (length bs) ≡ varint_len v)
    × (2 ^ (b0 / 64) ≡ suc (length bs))
    × (big_endian (b0 % 64) bs ≡ v % 2 ^ 62)

pow_eq : (p k : ℕ) → p ≡ k → 2 ^ p ≡ 2 ^ k
pow_eq p k e = ap (λ (n : ℕ). 2 ^ n) e

append-Writes : (v : ℕ) → IsU64 v → Writes v
unfolding append_varint varint_len big_endian
append-Writes v h = elim (dec_le v 63) [
  | yes one ↦
      let t = le→leb v 63 one in
      (
        v % 256,
        [],
        (λ buf. rw t),
        omega arith,
        rw t,
        pow_eq (v % 256 / 64) 0 (omega arith),
        omega arith,
      )
  | no more ↦ elim (dec_le v 16383) [
    | yes two ↦
        let f = gt→leb v 63 (omega arith) in
        let t = le→leb v 16383 two in
        let head : byte (bit_or 0x40 (v / 2 ^ 8)) ≡ 64 + v / 256 =
          rw (or_0x40 (v / 256) (omega arith)) (omega arith) in
        (
          64 + v / 256,
          v % 256 ∷ [],
          (λ buf. rw (f, t, head)),
          omega arith,
          rw (f, t),
          pow_eq ((64 + v / 256) / 64) 1 (omega arith),
          omega arith,
        )
    | no more2 ↦ elim (dec_le v 1073741823) [
      | yes four_bytes ↦
          let f = gt→leb v 63 (omega arith) in
          let f2 = gt→leb v 16383 (omega arith) in
          let t = le→leb v 1073741823 four_bytes in
          let head : byte (bit_or 0x80 (v / 2 ^ 24)) ≡ 128 + v / 2 ^ 24 =
            rw (or_0x80 (v / 2 ^ 24) (omega arith)) (omega arith) in
          (
            128 + v / 2 ^ 24,
            v / 2 ^ 16 % 256 ∷ v / 2 ^ 8 % 256 ∷ v % 256 ∷ [],
            (λ buf. rw (f, f2, t, head)),
            omega arith,
            rw (f, f2, t),
            pow_eq ((128 + v / 2 ^ 24) / 64) 2 (omega arith),
            omega arith,
          )
      | no more3 ↦
          let f = gt→leb v 63 (omega arith) in
          let f2 = gt→leb v 16383 (omega arith) in
          let f3 = gt→leb v 1073741823 (omega arith) in
          let head : byte (bit_or 0xc0 (v / 2 ^ 56)) ≡ 192 + v / 2 ^ 56 % 64 =
            rw (or_0xc0 (v / 2 ^ 56) (omega arith)) (omega arith) in
          (
            192 + v / 2 ^ 56 % 64,
            v / 2 ^ 48 % 256
                ∷ v / 2 ^ 40 % 256
                ∷ v / 2 ^ 32 % 256
                ∷ v / 2 ^ 24 % 256
                ∷ v / 2 ^ 16 % 256
                ∷ v / 2 ^ 8 % 256
                ∷ v % 256
                ∷ [],
            (λ buf. rw (f, f2, f3, head)),
            omega arith,
            rw (f, f2, f3),
            pow_eq ((192 + v / 2 ^ 56 % 64) / 64) 3 (omega arith),
            eight v,
          )
    ]
  ]
]
  where
    eight :
        (w : ℕ)
        → big_endian ((192 + w / 2 ^ 56 % 64) % 64) (
            w / 2 ^ 48 % 256
            ∷ w / 2 ^ 40 % 256
            ∷ w / 2 ^ 32 % 256
            ∷ w / 2 ^ 24 % 256
            ∷ w / 2 ^ 16 % 256
            ∷ w / 2 ^ 8 % 256
            ∷ w % 256
            ∷ [])
          ≡ w % 2 ^ 62
    eight w = omega arith

pub read-append_len :
    (v : ℕ) (rest : List ℕ)
    → IsU64 v
    → read_varint (append_varint [] v ++ rest) ≡ ok (v % 2 ^ 62, varint_len v)
read-append_len v rest h =
    let (b0, bs, writes, bytes, len, power, value) = append-Writes v h in
    rw (writes []) (read-big_endian b0 bs rest bytes power ∙ rw (value, len))

-- `AppendVarint` keeps the buffer and writes behind it.
pub append-varint_behind :
    (buf : List ℕ) (v : ℕ) → IsU64 v → append_varint buf v ≡ buf ++ append_varint [] v
append-varint_behind buf v h =
    let (b0, bs, writes, _, _, _, _) = append-Writes v h in rw (writes buf, writes [])

-- `VarintLen` is the number of bytes that `AppendVarint` writes, and each is a byte.
pub length-append_varint :
    (v : ℕ)
    → IsU64 v
    → (length (append_varint [] v) ≡ varint_len v) × All IsByte (append_varint [] v)
length-append_varint v h =
    let (b0, bs, writes, bytes, len, _, _) = append-Writes v h in rw (writes []) (len, bytes)

-- For every uint64, whatever it is written behind and whatever follows it: `AppendVarint` keeps the
-- buffer and writes bytes behind it, reading from there takes exactly the bytes written, as many as
-- `VarintLen` says, and yields the value modulo 2 ^ 62: the value itself up to the largest that a
-- varint holds.
pub read-append :
    (buf : List ℕ) (v : ℕ) (rest : List ℕ)
    → IsU64 v
    → (bytes : List ℕ) × (append_varint buf v ≡ buf ++ bytes)
      × All IsByte bytes
      × (read_varint (bytes ++ rest) ≡ ok (v % 2 ^ 62, length bytes))
      × (length bytes ≡ varint_len v)
read-append buf v rest h =
    let (len, bytes) = length-append_varint v h in
    (
      append_varint [] v,
      append-varint_behind buf v h,
      bytes,
      read-append_len v rest h ∙ rw len refl,
      len,
    )
