-- ===== src/Config/Options.antt =====
-- `get_path` and `parse_argument` of src/config.c.
use moonlight_embedded_for_d.Base.{
  ℕ, ◌==◌, leb, ltb, pos, Bool, true, false, ◌&&◌, ◌||◌, List, [], ◌∷◌, ◌++◌, Option, none, some,
  Text, chars, length, atoi, str_case_eq, is_digit, show_int, to_u16, if◌then◌else◌,
}
use moonlight_embedded_for_d.Config.{
  Remote, cfg_auto, cfg_remote, cfg_local, Channels, surround_51, surround_71, Codec, unspecified,
  h264, hevc, av1, Config, System, Parsed, parsed, cannot_open, quits,
}

-- The pieces of `s` between colons, `piece` being the one begun, last byte first.
unfoldable pub split_colons : Text → Text → List Text
split_colons piece [] = piece ∷ []
split_colons piece (c ∷ s) =
    if c == b':' then piece ∷ split_colons [] s else split_colons (piece ++ (c ∷ [])) s

-- `path[0]` once a directory is copied to `path`, which held `old` there.
unfoldable pub first_byte : ℕ → Text → ℕ
first_byte old [] = old
first_byte old (c ∷ s) = c

-- The loop of `get_path`: `old` is the first byte of the path that was tried last.
unfoldable pub search_dirs : (Text → Bool) → Text → ℕ → List Text → Option Text
unfolding first_byte
search_dirs access name old [] = none
search_dirs access name old (dir ∷ dirs) =
    let path =
      dir ++ ((if first_byte old dir == b'/' then chars "/moonlight/" else chars "/") ++ name) in
    if access path then some path else search_dirs access name (first_byte b'/' dir) dirs

abbrev pub or_else : Option Text → Text → Text
or_else none t = t
or_else (some s) t = s

unfoldable pub get_path : System → Text → Option Text → Option Text
unfolding split_colons search_dirs
get_path sys name extra_data_dirs =
    let extra = or_else extra_data_dirs (chars "/usr/share:/usr/local/share") in
    let dirs =
      chars ".:"
      ++ (or_else sys.xdg_config_dir sys.home
          ++ (chars ":" ++ (sys.home ++ (chars "//.config:" ++ (extra ++ chars "/"))))) in
    if sys.access name then some name else search_dirs sys.access name 0 (split_colons [] dirs)

-- `-remote`
unfoldable pub remote_of : Text → Remote → Remote
remote_of value old =
    if str_case_eq value (chars "auto")
    then cfg_auto
    else if str_case_eq value (chars "true") || str_case_eq value (chars "yes")
    then cfg_remote
    else if str_case_eq value (chars "false") || str_case_eq value (chars "no")
    then cfg_local
    else old

-- `-surround`
unfoldable pub surround_of : Text → Channels → Channels
surround_of value old =
    if str_case_eq value (chars "5.1")
    then surround_51
    else if str_case_eq value (chars "7.1")
    then surround_71
    else old

-- `-codec`
unfoldable pub codec_of : Text → Codec → Codec
codec_of value old =
    if str_case_eq value (chars "auto")
    then unspecified
    else if str_case_eq value (chars "h264")
    then h264
    else if str_case_eq value (chars "h265") || str_case_eq value (chars "hevc")
    then hevc
    else if str_case_eq value (chars "av1")
    then av1
    else old

unfoldable pub all_digits : Text → Bool
all_digits [] = true
all_digits (c ∷ s) = is_digit c && all_digits s

-- `%04d`, for a number that is not negative.
unfoldable pub pad_four : Text → Text
pad_four [] = chars "0000"
pad_four (a ∷ []) = chars "000" ++ (a ∷ [])
pad_four (a ∷ b ∷ []) = chars "00" ++ (a ∷ b ∷ [])
pad_four (a ∷ b ∷ c ∷ []) = b'0' ∷ a ∷ b ∷ c ∷ []
pad_four s = s

-- `-pin`
unfoldable pub pin_of : Text → Text → Text
unfolding all_digits pad_four
pin_of value old =
    if ltb 0 (length value) && leb (length value) 4 && all_digits value
    then pad_four (show_int (atoi value))
    else old

-- An option with a number, or none: the picture and the stream.
unfoldable pub stream_argument : ℕ → Text → Config → Config
unfolding remote_of surround_of codec_of
stream_argument c value config =
    if c == b'a'
    then record config { width = pos 1280; height = pos 720 }
    else if c == b'b'
    then record config { width = pos 1920; height = pos 1080 }
    else if c == b'0'
    then record config { width = pos 3840; height = pos 2160 }
    else if c == b'c'
    then record config { width = atoi value }
    else if c == b'd'
    then record config { height = atoi value }
    else if c == b'g'
    then record config { bitrate = atoi value }
    else if c == b'h'
    then record config { packet_size = atoi value }
    else if c == b's'
    then record config { streaming_remotely = remote_of value config.streaming_remotely }
    else if c == b'u'
    then record config { audio_configuration = surround_of value config.audio_configuration }
    else if c == b'v'
    then record config { fps = atoi value }
    else if c == b'x'
    then record config { codec = codec_of value config.codec }
    else if c == b'7'
    then record config { hdr = true }
    else config

-- What the program does beside the stream.
unfoldable pub session_argument : ℕ → Text → Config → Config
unfolding pin_of
session_argument c value config =
    if c == b'i'
    then record config { app = value }
    else if c == b'l'
    then record config { sops = false }
    else if c == b'm'
    then record config { audio_device = some value }
    else if c == b'n'
    then record config { localaudio = true }
    else if c == b'p'
    then record config { platform = value }
    else if c == b'q'
    then record config { config_file = some value }
    else if c == b'r'
    then record config { key_dir = value }
    else if c == b't'
    then record config { fullscreen = false }
    else if c == b'y'
    then record config { unsupported = false }
    else if c == b'1'
    then record config { quitappafter = true }
    else if c == b'2'
    then record config { viewonly = true }
    else if c == b'3'
    then record config { rotate = atoi value }
    else if c == b'z'
    then record config { debug_level = 1 }
    else if c == b'Z'
    then record config { debug_level = 2 }
    else if c == b'4'
    then record config { mouse_emulation = false }
    else if c == b'5'
    then record config { pin = pin_of value config.pin }
    else if c == b'6'
    then record config { port = to_u16 (atoi value) }
    else config

-- `-input`; MAX_INPUTS is 6.
unfoldable pub add_input : Text → Config → Parsed
add_input value config =
    if leb 6 (length config.inputs)
    then quits
    else parsed (record config { inputs = config.inputs ++ (value ∷ []); input_added = true })

-- `-mapping`
unfoldable pub set_mapping : Option Text → Config → Parsed
set_mapping none config = quits
set_mapping (some path) config = parsed (record config { mapping = some path })

-- The exit of `-config` on a file that cannot be opened.
unfoldable pub or_quit : Parsed → Parsed
or_quit cannot_open = quits
or_quit p = p

-- An argument without an option: the action, then the address.
unfoldable pub add_word : Text → Option Text → Option Text → Config → Parsed
add_word value none address config = parsed (record config { action = some value })
add_word value (some action) none config = parsed (record config { address = some value })
add_word value (some action) (some address) config = quits

-- `parse_argument`, given `config_file_parse`. An option that takes no value has the empty one.
unfoldable pub parse_argument : System → (Text → Config → Parsed) → ℕ → Text → Config → Parsed
unfolding stream_argument session_argument add_input set_mapping or_quit add_word get_path
parse_argument sys file_parse c value config =
    if c == b'j'
    then add_input value config
    else if c == b'k'
    then set_mapping (get_path sys value sys.xdg_data_dirs) config
    else if c == b'o'
    then or_quit (file_parse value config)
    else if c == 1
    then add_word value config.action config.address config
    else parsed (session_argument c value (stream_argument c value config))
