-- ===== src/Tap/G711.antt =====
-- phraseguard/tap.py: the G.711 tables, decode_g711 and the sum under the root of rms_g711.
use Prim.Native.Nat.{bit_and, bit_xor}
use voip.Prelude.{
  ℕ, zero, suc, ◌+◌, ◌-◌, ◌*◌, ◌/◌, ◌%◌, ◌^◌, Bool, List, [], ◌∷◌, ◌++◌, map, ◌==◌, if◌then◌else◌,
  get_or,
}

-- A sample of linear audio.
pub data ℤ : Type 0 where
  pos : ℕ → ℤ
  negsuc : ℕ → ℤ

unfoldable pub negate : ℕ → ℤ
negate zero = pos zero
negate (suc n) = negsuc n

-- v * v
unfoldable pub square : ℤ → ℕ
square (pos n) = n * n
square (negsuc n) = (n + 1) * (n + 1)

abbrev pub Bytes : Type 0
Bytes = List ℕ

abbrev pub sign_bit : ℕ → Bool
sign_bit v = bit_and v 0x80 == 0

abbrev pub exponent : ℕ → ℕ
exponent v = bit_and (v / 16) 0x07

abbrev pub mantissa : ℕ → ℕ
mantissa v = bit_and v 0x0f

-- One entry of _ULAW. `~u & 0xFF` is the complement of a byte.
unfoldable pub ulaw : ℕ → ℤ
unfolding negate
ulaw u =
    let v = bit_xor u 0xff in
    let s = (mantissa v * 8 + 0x84) * 2 ^ exponent v - 0x84 in
    if sign_bit v then pos s else negate s

-- One entry of _ALAW.
unfoldable pub alaw : ℕ → ℤ
unfolding negate
alaw a =
    let v = bit_xor a 0x55 in
    let s =
      if exponent v == 0
      then mantissa v * 16 + 8
      else (mantissa v * 16 + 0x108) * 2 ^ (exponent v - 1) in
    if sign_bit v then pos s else negate s

-- range(n), from the number `i` on
unfoldable pub range_from : ℕ → ℕ → List ℕ
range_from i zero = []
range_from i (suc n) = i ∷ range_from (i + 1) n

-- _ALAW or _ULAW
unfoldable pub table : Bool → List ℤ
unfolding ulaw alaw range_from
table is_alaw = map (if is_alaw then alaw else ulaw) (range_from 0 256)

-- struct.pack("<h", v)
unfoldable pub pack_int16 : ℤ → Bytes
pack_int16 (pos n) = n % 256 ∷ n / 256 ∷ []
pack_int16 (negsuc n) = (65535 - n) % 256 ∷ (65535 - n) / 256 ∷ []

-- _ALAW_PCM or _ULAW_PCM
unfoldable pub table_pcm : Bool → List Bytes
unfolding table pack_int16
table_pcm is_alaw = map pack_int16 (table is_alaw)

-- decode_g711: an element of `payload` is a byte, so that the look-up is never out of range.
unfoldable pub decode_g711 : Bool → Bytes → Bytes
unfolding table_pcm
decode_g711 is_alaw [] = []
decode_g711 is_alaw (b ∷ payload) = get_or (table_pcm is_alaw) b [] ++ decode_g711 is_alaw payload

-- The total `t` of rms_g711, whose square root over the length is the result.
unfoldable pub square_sum : Bool → Bytes → ℕ
unfolding table square
square_sum is_alaw [] = 0
square_sum is_alaw (b ∷ payload) =
    square (get_or (table is_alaw) b (pos 0)) + square_sum is_alaw payload
