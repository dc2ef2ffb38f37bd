-- ===== src/Input/Mapping/Parse.antt =====
-- `mapping_parse` and `mapping_load` of src/input/mapping.c.
pub mod Printed
pub mod RoundTrip
use moonlight_embedded_for_d.Base.{
  ℕ, ◌==◌, ℤ, Bool, true, false, ◌||◌, Option, none, some, List, [], ◌∷◌, Text, chars, str_eq, take,
  if◌then◌else◌,
}
use moonlight_embedded_for_d.Input.Axes.{to_i16}
use moonlight_embedded_for_d.Input.Mapping.{Mapping, unmapped}
use moonlight_embedded_for_d.Input.Mapping.Scan.{
  tokens, scan_option, scan_after, flag_of, scan_direction, is_sign,
}

-- `b%d` under a key.
unfoldable pub set_button : Text → ℤ → Mapping → Mapping
unfolding str_eq
set_button key n m =
    if str_eq (chars "a") key
    then record m { btn_a = n }
    else if str_eq (chars "y") key
    then record m { btn_y = n }
    else if str_eq (chars "x") key
    then record m { btn_x = n }
    else if str_eq (chars "b") key
    then record m { btn_b = n }
    else if str_eq (chars "back") key
    then record m { btn_back = n }
    else if str_eq (chars "start") key
    then record m { btn_start = n }
    else if str_eq (chars "guide") key
    then record m { btn_guide = n }
    else if str_eq (chars "dpup") key
    then record m { btn_dpup = n }
    else if str_eq (chars "dpdown") key
    then record m { btn_dpdown = n }
    else if str_eq (chars "dpleft") key
    then record m { btn_dpleft = n }
    else if str_eq (chars "dpright") key
    then record m { btn_dpright = n }
    else if str_eq (chars "leftstick") key
    then record m { btn_leftstick = n }
    else if str_eq (chars "rightstick") key
    then record m { btn_rightstick = n }
    else if str_eq (chars "leftshoulder") key
    then record m { btn_leftshoulder = n }
    else if str_eq (chars "rightshoulder") key
    then record m { btn_rightshoulder = n }
    else if str_eq (chars "lefttrigger") key
    then record m { btn_lefttrigger = n }
    else if str_eq (chars "righttrigger") key
    then record m { btn_righttrigger = n }
    else if str_eq (chars "misc1") key
    then record m { btn_misc1 = n }
    else if str_eq (chars "paddle1") key
    then record m { btn_paddle1 = n }
    else if str_eq (chars "paddle2") key
    then record m { btn_paddle2 = n }
    else if str_eq (chars "paddle3") key
    then record m { btn_paddle3 = n }
    else if str_eq (chars "paddle4") key
    then record m { btn_paddle4 = n }
    else if str_eq (chars "touchpad") key
    then record m { btn_touchpad = n }
    else m

-- `a%d%c` under a key, with the sign in front of the value.
unfoldable pub set_axis : Text → ℤ → ℕ → ℕ → Mapping → Mapping
unfolding str_eq
set_axis key n flag half_axis m =
    if str_eq (chars "leftx") key
    then record m { abs_leftx = n; reverse_leftx = flag == b'~' }
    else if str_eq (chars "lefty") key
    then record m { abs_lefty = n; reverse_lefty = flag == b'~' }
    else if str_eq (chars "rightx") key
    then record m { abs_rightx = n; reverse_rightx = flag == b'~' }
    else if str_eq (chars "righty") key
    then record m { abs_righty = n; reverse_righty = flag == b'~' }
    else if str_eq (chars "lefttrigger") key
    then record m { abs_lefttrigger = n; halfaxis_lefttrigger = half_axis }
    else if str_eq (chars "righttrigger") key
    then record m { abs_righttrigger = n; halfaxis_righttrigger = half_axis }
    else if str_eq (chars "dpright") key
    then record m { abs_dpright = n; halfaxis_dpright = half_axis }
    else if str_eq (chars "dpleft") key
    then record m { abs_dpleft = n; halfaxis_dpleft = half_axis }
    else if str_eq (chars "dpup") key
    then record m { abs_dpup = n; halfaxis_dpup = half_axis }
    else if str_eq (chars "dpdown") key
    then record m { abs_dpdown = n; halfaxis_dpdown = half_axis }
    else m

-- `h%d.%d` under a key.
unfoldable pub set_hat_key : Text → ℤ → ℤ → Mapping → Mapping
unfolding str_eq
set_hat_key key n direction m =
    if str_eq (chars "dpright") key
    then record m { hat_dpright = n; hat_dir_dpright = direction }
    else if str_eq (chars "dpleft") key
    then record m { hat_dpleft = n; hat_dir_dpleft = direction }
    else if str_eq (chars "dpup") key
    then record m { hat_dpup = n; hat_dir_dpup = direction }
    else if str_eq (chars "dpdown") key
    then record m { hat_dpdown = n; hat_dir_dpdown = direction }
    else m

-- The first of the formats that fits a value. Numbers are stored as `short`.
unfoldable pub set_value :
    Text → ℕ → Option (ℤ × Text) → Option (ℤ × Text) → Option (ℤ × ℤ) → Mapping → Mapping
unfolding set_button set_axis set_hat_key
set_value key half_axis (some (n, rest)) as_axis as_hat m = set_button key (to_i16 n) m
set_value key half_axis none (some (n, rest)) as_hat m =
    set_axis key (to_i16 n) (flag_of rest) half_axis m
set_value key half_axis none none (some (n, d)) m = set_hat_key key (to_i16 n) (to_i16 d) m
set_value key half_axis none none none m = m

-- A key and its value, without the sign.
unfoldable pub set_option : Text → ℕ → Text → Mapping → Mapping
unfolding str_eq set_value scan_after scan_direction
set_option key half_axis value m =
    if str_eq (chars "platform") key
    then record m { platform = take 32 value }
    else set_value key half_axis (scan_after b'b' value) (scan_after b'a' value)
        (scan_direction (scan_after b'h' value)) m

unfoldable pub with_option : Option (Text × Text) → Mapping → Mapping
unfolding set_option is_sign
with_option none m = m
with_option (some (key, [])) m = set_option key 0 [] m
with_option (some (key, c ∷ value)) m =
    if is_sign c then set_option key c value m else set_option key 0 (c ∷ value) m

-- The loop over the options.
unfoldable pub parse_options : List Text → Mapping → Mapping
unfolding with_option scan_option
parse_options [] m = m
parse_options (option ∷ options) m = parse_options options (with_option (scan_option option) m)

unfoldable pub parse_tokens : List Text → Option Mapping
unfolding parse_options
parse_tokens [] = none
parse_tokens (guid ∷ []) = none
parse_tokens (guid ∷ name ∷ options) =
    some (parse_options options (unmapped (take 32 guid) (take 256 name)))

unfoldable pub mapping_parse : Text → Option Mapping
unfolding parse_tokens tokens
mapping_parse mapping = parse_tokens (tokens mapping)

abbrev pub prepend : Option Mapping → List Mapping → List Mapping
prepend none mappings = mappings
prepend (some map) mappings = map ∷ mappings

-- `mapping_load` on the lines of a file, after the mappings that were read before.
unfoldable pub mapping_load : List Text → List Mapping → List Mapping
unfolding mapping_parse
mapping_load [] mappings = mappings
mapping_load (line ∷ lines) mappings = mapping_load lines (prepend (mapping_parse line) mappings)
