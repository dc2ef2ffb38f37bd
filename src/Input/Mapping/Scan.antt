-- ===== src/Input/Mapping/Scan.antt =====
-- How src/input/mapping.c takes a line apart: `strtok_r` and the formats of its `sscanf`s.
pub mod Printed
use moonlight_embedded_for_d.Base.{
  ℕ, ◌==◌, ℤ, Bool, true, false, ◌||◌, Option, none, some, List, [], ◌∷◌, Text, is_digit,
  signed_value, if◌then◌else◌,
}
use moonlight_embedded_for_d.Config.Files.{skip_spaces, read_word}

-- A token before others, unless it is empty.
unfoldable pub add_token : Text → List Text → List Text
add_token [] tokens = tokens
add_token (c ∷ s) tokens = (c ∷ s) ∷ tokens

-- The text before the first comma, and the tokens behind it.
unfoldable pub split_commas : Text → Text × List Text
unfolding add_token
split_commas [] = ([], [])
split_commas (c ∷ s) =
    let (token, tokens) = split_commas s in
    if c == b',' then ([], add_token token tokens) else (c ∷ token, tokens)

-- What the calls of `strtok_r` with a comma return, one after the other.
unfoldable pub tokens : Text → List Text
unfolding split_commas add_token
tokens s = let (token, rest) = split_commas s in add_token token rest

-- `%[^:]`: the text before the first colon, and what is left.
unfoldable pub read_key : Text → Text × Text
read_key [] = ([], [])
read_key (c ∷ s) =
    let (key, rest) = read_key s in if c == b':' then ([], c ∷ s) else (c ∷ key, rest)

-- `%s`, on what is not empty.
unfoldable pub word_after : Text → Text → Option (Text × Text)
word_after key [] = none
word_after key (c ∷ value) = some (key, c ∷ value)

-- `%m[^:]:%ms` behind the key.
unfoldable pub scan_pair : Text × Text → Option (Text × Text)
unfolding word_after read_word skip_spaces
scan_pair ([], rest) = none
scan_pair (c ∷ key, []) = none
scan_pair (c ∷ key, d ∷ rest) = word_after (c ∷ key) (read_word (skip_spaces rest)).0

-- `sscanf(option, "%m[^:]:%ms", &key, &orig_value) == 2`
unfoldable pub scan_option : Text → Option (Text × Text)
unfolding scan_pair read_key
scan_option option = scan_pair (read_key option)

unfoldable pub skip_digits : Text → Text
unfolding is_digit
skip_digits [] = []
skip_digits (c ∷ s) = let rest = skip_digits s in if is_digit c then rest else c ∷ s

unfoldable pub has_digit : Text → Bool
unfolding is_digit
has_digit [] = false
has_digit (c ∷ s) = is_digit c

unfoldable pub is_sign : ℕ → Bool
is_sign c = c == b'-' || c == b'+'

-- `%d` on a text without spaces, and what is left.
unfoldable pub scan_int : Text → Option (ℤ × Text)
unfolding skip_digits has_digit is_sign signed_value
scan_int [] = none
scan_int (c ∷ s) =
    if is_sign c
    then if has_digit s then some (signed_value (c ∷ s), skip_digits s) else none
    else if is_digit c
    then some (signed_value (c ∷ s), skip_digits (c ∷ s))
    else none

-- A letter and `%d`.
unfoldable pub scan_after : ℕ → Text → Option (ℤ × Text)
unfolding scan_int
scan_after letter [] = none
scan_after letter (c ∷ s) = if c == letter then scan_int s else none

-- `%c`, with 0 at the end of the text.
abbrev pub flag_of : Text → ℕ
flag_of [] = 0
flag_of (c ∷ s) = c

abbrev pub pair_up : ℤ → Option (ℤ × Text) → Option (ℤ × ℤ)
pair_up n none = none
pair_up n (some (d, end)) = some (n, d)

-- `.%d` behind the number of a hat.
unfoldable pub scan_direction : Option (ℤ × Text) → Option (ℤ × ℤ)
unfolding scan_after
scan_direction none = none
scan_direction (some (n, rest)) = pair_up n (scan_after b'.' rest)
