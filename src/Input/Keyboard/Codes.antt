-- ===== src/Input/Keyboard/Codes.antt =====
-- The table of src/input/keyboard.h: the virtual key of each code of the kernel.
use moonlight_embedded_for_d.Base.{ℕ, List, [], ◌∷◌, length, ◌≡◌, refl}

unfoldable pub key_codes : List ℕ
key_codes =
    0 ∷ 0x1B ∷ 0x31 ∷ 0x32 ∷ 0x33 ∷ 0x34 ∷ 0x35 ∷ 0x36 ∷ 0x37 ∷ 0x38 ∷ 0x39 ∷ 0x30 ∷ 0xBD ∷ 0xBB
    ∷ 0x08 ∷ 0x09 ∷ 0x51 ∷ 0x57 ∷ 0x45 ∷ 0x52 ∷ 0x54 ∷ 0x59 ∷ 0x55 ∷ 0x49 ∷ 0x4F ∷ 0x50 ∷ 0xDB
    ∷ 0xDD ∷ 0x0D ∷ 0xA2 ∷ 0x41 ∷ 0x53 ∷ 0x44 ∷ 0x46 ∷ 0x47 ∷ 0x48 ∷ 0x4A ∷ 0x4B ∷ 0x4C ∷ 0xBA
    ∷ 0xDE ∷ 0xC0 ∷ 0xA0 ∷ 0xDC ∷ 0x5A ∷ 0x58 ∷ 0x43 ∷ 0x56 ∷ 0x42 ∷ 0x4E ∷ 0x4D ∷ 0xBC ∷ 0xBE
    ∷ 0xBF ∷ 0xA1 ∷ 0x6A ∷ 0xA4 ∷ 0x20 ∷ 0x14 ∷ 0x70 ∷ 0x71 ∷ 0x72 ∷ 0x73 ∷ 0x74 ∷ 0x75 ∷ 0x76
    ∷ 0x77 ∷ 0x78 ∷ 0x79 ∷ 0x90 ∷ 0x91 ∷ 0x67 ∷ 0x68 ∷ 0x69 ∷ 0x6D ∷ 0x64 ∷ 0x65 ∷ 0x66 ∷ 0x6B
    ∷ 0x61 ∷ 0x62 ∷ 0x63 ∷ 0x60 ∷ 0x6E ∷ 0 ∷ 0 ∷ 0 ∷ 0x7A ∷ 0x7B ∷ 0 ∷ 0xF1 ∷ 0xF2 ∷ 0 ∷ 0 ∷ 0 ∷ 0
    ∷ 0x0D ∷ 0xA3 ∷ 0x6F ∷ 0x2C ∷ 0xA5 ∷ 0 ∷ 0x24 ∷ 0x26 ∷ 0x21 ∷ 0x25 ∷ 0x27 ∷ 0x23 ∷ 0x28 ∷ 0x22
    ∷ 0x2D ∷ 0x2E ∷ 0 ∷ 0 ∷ 0 ∷ 0 ∷ 0 ∷ 0 ∷ 0 ∷ 0x13 ∷ 0 ∷ 0 ∷ 0 ∷ 0 ∷ 0 ∷ 0x5B ∷ 0x5C ∷ 0 ∷ []

abbrev pub key_count : ℕ
key_count = 128

key_codes-length : length key_codes ≡ key_count
unfolding key_codes
key_codes-length = refl
