-- ===== src/Gamestream/Hex/RoundTrip.antt =====
-- Hexadecimal text read back.
use moonlight_embedded_for_d.Base.{ℕ, ◌/◌, ◌%◌, ◌<◌, ◌≡◌, refl, List, [], ◌∷◌, some, arith, length}
use moonlight_embedded_for_d.Gamestream.Hex.{
  hex_digit, bytes_to_hex, hex_value, read_byte, hex_to_bytes,
}

-- Every entry is a byte.
abbrev pub AllBytes : List ℕ → Type 0
AllBytes [] = Unit {0}
AllBytes (b ∷ bs) = (b < 256) × AllBytes bs

hex_value-hex_digit : (n : ℕ) → n < 16 → hex_value (hex_digit n) ≡ some n
unfolding hex_value hex_digit
hex_value-hex_digit n h = ground arith

read_byte-hex_digit :
    (b old : ℕ) → b < 256 → read_byte (hex_digit (b / 16)) (hex_digit (b % 16)) old ≡ b
unfolding read_byte
read_byte-hex_digit b old h =
    rw
      (
        hex_value-hex_digit (b / 16) (omega arith),
        hex_value-hex_digit (b % 16) (omega arith),
        read_byte,
      )
      (omega arith)

-- Bytes that are written as hexadecimal text and read into a buffer of their number come back,
-- whatever the buffer held.
pub hex_to_bytes-bytes_to_hex :
    (bs out : List ℕ)
    → AllBytes bs
    → length out ≡ length bs
    → hex_to_bytes (bytes_to_hex bs) out ≡ bs
unfolding hex_to_bytes bytes_to_hex
hex_to_bytes-bytes_to_hex [] [] h e = refl
hex_to_bytes-bytes_to_hex [] (o ∷ out) h e = absurd (omega arith)
hex_to_bytes-bytes_to_hex (b ∷ bs) [] h e = absurd (omega arith)
hex_to_bytes-bytes_to_hex (b ∷ bs) (o ∷ out) h e =
    rw (read_byte-hex_digit b o h.0, hex_to_bytes-bytes_to_hex bs out h.1 (omega arith))
