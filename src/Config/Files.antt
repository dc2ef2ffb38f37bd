-- ===== src/Config/Files.antt =====
-- `config_file_parse`, `config_save` and the reading part of `config_parse` of src/config.c.
use moonlight_embedded_for_d.Base.{
  ℕ, zero, suc, ◌==◌, ℤ, pos, negsuc, ◌==ℤ◌, Bool, true, false, not, List, [], ◌∷◌, ◌++◌, Option,
  none, some, Text, chars, str_eq, is_space, show_int, if◌then◌else◌,
}
use moonlight_embedded_for_d.Config.{
  Config, System, Parsed, parsed, cannot_open, quits, too_deep, Encryption, default_config,
}
use moonlight_embedded_for_d.Config.Options.{parse_argument, get_path}

-- `struct option`, without the fields that are never set.
pub record LongOption : Type 0 where
  pub name : Text
  pub required_argument : Bool
  pub val : ℕ

abbrev pub with_value : Text → ℕ → LongOption
with_value name val = record { name = name; required_argument = true; val = val }

abbrev pub flag : Text → ℕ → LongOption
flag name val = record { name = name; required_argument = false; val = val }

abbrev pub long_options : List LongOption
long_options =
    flag (chars "720") b'a'
    ∷ flag (chars "1080") b'b'
    ∷ flag (chars "4k") b'0'
    ∷ with_value (chars "width") b'c'
    ∷ with_value (chars "height") b'd'
    ∷ with_value (chars "bitrate") b'g'
    ∷ with_value (chars "packetsize") b'h'
    ∷ with_value (chars "app") b'i'
    ∷ with_value (chars "input") b'j'
    ∷ with_value (chars "mapping") b'k'
    ∷ flag (chars "nosops") b'l'
    ∷ with_value (chars "audio") b'm'
    ∷ flag (chars "localaudio") b'n'
    ∷ with_value (chars "config") b'o'
    ∷ with_value (chars "platform") b'p'
    ∷ with_value (chars "save") b'q'
    ∷ with_value (chars "keydir") b'r'
    ∷ with_value (chars "remote") b's'
    ∷ flag (chars "windowed") b't'
    ∷ with_value (chars "surround") b'u'
    ∷ with_value (chars "fps") b'v'
    ∷ with_value (chars "codec") b'x'
    ∷ flag (chars "nounsupported") b'y'
    ∷ flag (chars "quitappafter") b'1'
    ∷ flag (chars "viewonly") b'2'
    ∷ with_value (chars "rotate") b'3'
    ∷ flag (chars "verbose") b'z'
    ∷ flag (chars "debug") b'Z'
    ∷ flag (chars "nomouseemulation") b'4'
    ∷ with_value (chars "pin") b'5'
    ∷ with_value (chars "port") b'6'
    ∷ flag (chars "hdr") b'7'
    ∷ []

-- White space in a format of `sscanf` skips white space.
unfoldable pub skip_spaces : Text → Text
skip_spaces [] = []
skip_spaces (c ∷ s) = if is_space c then skip_spaces s else c ∷ s

-- `%ms`, after the white space: what has no white space, and the rest.
unfoldable pub read_word : Text → Text × Text
read_word [] = ([], [])
read_word (c ∷ s) =
    let (word, rest) = read_word s in if is_space c then ([], c ∷ s) else (c ∷ word, rest)

-- `%m[^\n]`: what stands before the end of the line.
unfoldable pub read_line : Text → Text
read_line [] = []
read_line (c ∷ s) = if c == 10 then [] else c ∷ read_line s

-- ` = `, after which a value is read, which is not empty.
unfoldable pub read_value : Text → Option Text
unfolding skip_spaces read_line
read_value [] = none
read_value (c ∷ s) =
    if c == b'='
    then elim (read_line (skip_spaces s)) [ [] ↦ none | d ∷ value ↦ some (d ∷ value) ]
    else none

unfoldable pub with_key : Text → Option Text → Option (Text × Text)
with_key key none = none
with_key key (some value) = some (key, value)

-- `%ms = %m[^\n]` from the key's end on.
unfoldable pub scan_rest : Text × Text → Option (Text × Text)
unfolding skip_spaces read_value with_key
scan_rest ([], rest) = none
scan_rest (c ∷ key, rest) = with_key (c ∷ key) (read_value (skip_spaces rest))

-- `sscanf(line, "%ms = %m[^\n]", &key, &value) == 2`
unfoldable pub scan_setting : Text → Option (Text × Text)
unfolding skip_spaces read_word scan_rest
scan_setting line = scan_rest (read_word (skip_spaces line))

abbrev pub and_then : Parsed → (Config → Parsed) → Parsed
and_then (parsed config) f = f config
and_then cannot_open f = cannot_open
and_then quits f = quits
and_then too_deep f = too_deep

-- A file of the system that cannot be opened is passed over.
unfoldable pub or_keep : Config → Parsed → Parsed
or_keep config cannot_open = parsed config
or_keep config p = p

module _ (sys : System) where
  -- The loop over `long_options`.
  unfoldable pub option_setting :
      (Text → Config → Parsed) → List LongOption → Text → Text → Config → Parsed
  option_setting file_parse [] key value config = parsed config
  option_setting file_parse (option ∷ options) key value config =
      and_then
        (if not (str_eq option.name key)
          then parsed config
          else if option.required_argument
          then parse_argument sys file_parse option.val value config
          else if str_eq (chars "true") value
          then parse_argument sys file_parse option.val [] config
          else parsed config)
        (option_setting file_parse options key value)

  -- One line of a file, as `sscanf` took it apart.
  unfoldable pub parse_setting : (Text → Config → Parsed) → Option (Text × Text) → Config → Parsed
  unfolding option_setting
  parse_setting file_parse none config = parsed config
  parse_setting file_parse (some (key, value)) config =
      if str_eq key (chars "address")
      then parsed (record config { address = some value })
      else if str_eq key (chars "sops")
      then parsed (record config { sops = str_eq (chars "true") value })
      else option_setting file_parse long_options key value config

  -- The loop over the lines.
  unfoldable pub parse_lines : (Text → Config → Parsed) → List Text → Config → Parsed
  unfolding parse_setting scan_setting
  parse_lines file_parse [] config = parsed config
  parse_lines file_parse (line ∷ lines) config =
      and_then (parse_setting file_parse (scan_setting line) config) (parse_lines file_parse lines)

  -- `config_file_parse`; the fuel bounds how deep files may name each other by `config`.
  unfoldable pub config_file_parse : ℕ → Text → Config → Parsed
  config_file_parse zero filename config = too_deep
  config_file_parse (suc fuel) filename config =
      let file_parse = config_file_parse fuel in
      elim (sys.lines filename) [
        | none ↦ cannot_open
        | some lines ↦ parse_lines file_parse lines config
      ]

  -- The options that `getopt_long_only` found, each with its value.
  unfoldable pub parse_arguments : (Text → Config → Parsed) → List (ℕ × Text) → Config → Parsed
  parse_arguments file_parse [] config = parsed config
  parse_arguments file_parse ((c, value) ∷ rest) config =
      and_then (parse_argument sys file_parse c value config) (parse_arguments file_parse rest)

  -- The file `moonlight.conf` of the system, where there is one.
  unfoldable pub read_conf_file : ℕ → Option Text → Config → Parsed
  unfolding or_keep
  read_conf_file fuel none config = parsed config
  read_conf_file fuel (some path) config = or_keep config (config_file_parse fuel path config)

  -- The one argument, where it names a file, or the options.
  unfoldable pub read_command_line : ℕ → Option Text → List (ℕ × Text) → Config → Parsed
  read_command_line fuel none arguments config =
      parse_arguments (config_file_parse fuel) arguments config
  read_command_line fuel (some path) arguments config =
      config_file_parse fuel path (record config { action = some (chars "stream") })

  -- `config_parse` as far as the options: `file` is the one argument, where it names a file.
  unfoldable pub read_options : ℕ → Encryption → Option Text → List (ℕ × Text) → Parsed
  unfolding get_path default_config read_conf_file read_command_line
  read_options fuel encryption file arguments =
      and_then
        (read_conf_file fuel (get_path sys (chars "moonlight.conf") (some (chars "/etc"))) (
          default_config encryption
            (get_path sys (chars "gamecontrollerdb.txt") sys.xdg_data_dirs)))
        (read_command_line fuel file arguments)

-- `write_config_string`
abbrev pub setting : Text → Text → Text
setting key value = key ++ (chars " = " ++ (value ++ (10 ∷ [])))

abbrev pub write_int : Text → ℤ → ℤ → List Text
write_int key n default_n = if not (n ==ℤ default_n) then setting key (show_int n) ∷ [] else []

abbrev pub write_bool : Text → Bool → Bool → List Text
write_bool key b default_b =
    if b
    then (if default_b then [] else setting key (chars "true") ∷ [])
    else if default_b
    then setting key (chars "false") ∷ []
    else []

-- `config_save`: the lines that it writes.
unfoldable pub config_save : Config → List Text
config_save c =
    write_int (chars "width") c.width (pos 1280)
    ++ (write_int (chars "height") c.height (pos 720)
        ++ (write_int (chars "fps") c.fps (pos 60)
            ++ (write_int (chars "bitrate") c.bitrate (negsuc 0)
                ++ (write_int (chars "packetsize") c.packet_size (pos 1024)
                    ++ (write_bool (chars "sops") c.sops true
                        ++ (write_bool (chars "localaudio") c.localaudio false
                            ++ (write_bool (chars "quitappafter") c.quitappafter false
                                ++ (write_bool (chars "viewonly") c.viewonly false
                                    ++ (write_int (chars "rotate") c.rotate (pos 0)
                                        ++ (if not (str_eq c.app (chars "Steam"))
                                            then setting (chars "app") c.app ∷ []
                                            else []))))))))))
