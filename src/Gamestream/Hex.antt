-- ===== src/Gamestream/Hex.antt =====
-- `bytes_to_hex` and `hex_to_bytes` of libgamestream/client.c.
pub mod RoundTrip
use moonlight_embedded_for_d.Base.{
  ℕ, suc, ◌+◌, ◌-◌, ◌*◌, ◌/◌, ◌%◌, ◌&&◌, List, [], ◌∷◌, Option, none, some, Text, leb, ltb,
  if◌then◌else◌,
}

-- One digit of `%02x`.
unfoldable pub hex_digit : ℕ → ℕ
hex_digit n = if ltb n 10 then b'0' + n else b'a' + (n - 10)

-- The bytes are `unsigned char`, so `%02x` writes two digits for each.
unfoldable pub bytes_to_hex : List ℕ → Text
unfolding hex_digit
bytes_to_hex [] = []
bytes_to_hex (b ∷ bs) = hex_digit (b / 16) ∷ hex_digit (b % 16) ∷ bytes_to_hex bs

-- The value of a hexadecimal digit, as `%x` reads it.
unfoldable pub hex_value : ℕ → Option ℕ
hex_value c =
    if leb b'0' c && leb c b'9'
    then some (c - b'0')
    else if leb b'a' c && leb c b'f'
    then some (c - b'a' + 10)
    else if leb b'A' c && leb c b'F'
    then some (c - b'A' + 10)
    else none

-- `sscanf("%2hhx")` at two characters; `old` stays where no digit is read. (It would also take a
-- sign, a `0x` or leading blanks, which no sender of hexadecimal writes.)
unfoldable pub read_byte : ℕ → ℕ → ℕ → ℕ
unfolding hex_value
read_byte a b old = elim (hex_value a) [
  | none ↦ old
  | some h ↦ elim (hex_value b) [ none ↦ h | some l ↦ h * 16 + l ]
]

-- `hex_to_bytes`. The input is the first `len` characters, the list `out` what the output buffer
-- holds. A write past the buffer is dropped: `hex_to_bytes_count` says how many there are.
unfoldable pub hex_to_bytes : Text → List ℕ → List ℕ
unfolding read_byte
hex_to_bytes [] out = out
hex_to_bytes (a ∷ s) [] = []
hex_to_bytes (a ∷ []) (o ∷ out) = read_byte a 0 o ∷ out
hex_to_bytes (a ∷ b ∷ s) (o ∷ out) = read_byte a b o ∷ hex_to_bytes s out

-- The number of rounds of the loop of `hex_to_bytes`, each of which may write one byte.
unfoldable pub hex_to_bytes_count : ℕ → ℕ
hex_to_bytes_count len = (len + 1) / 2
