-- ===== src/Config.antt =====
-- src/config.c: the options, from the command line and from files, and the file that is saved.
-- What the process ends with by `exit` is a result. `getopt_long_only` is a parameter.
pub mod Options
pub mod Files
pub mod Line
pub mod Reading
pub mod Saved
pub mod Inputs
pub mod Defaults
mod Tests
use moonlight_embedded_for_d.Base.{
  ℕ, ℤ, pos, negsuc, Bool, true, false, List, [], ◌∷◌, Option, none, some, Text, chars,
}

-- `streamingRemotely`
pub data Remote : Type 0 where
  cfg_auto cfg_remote cfg_local : Remote

-- `audioConfiguration`
pub data Channels : Type 0 where
  stereo surround_51 surround_71 : Channels

-- `enum codecs`
pub data Codec : Type 0 where
  unspecified h264 hevc av1 : Codec

-- `encryptionFlags`
pub data Encryption : Type 0 where
  everything audio_only nothing : Encryption

-- `CONFIGURATION`, the part of its `stream` that config.c sets, and `inputAdded`.
pub record Config : Type 0 where
  pub width : ℤ
  pub height : ℤ
  pub fps : ℤ
  pub bitrate : ℤ
  pub packet_size : ℤ
  pub streaming_remotely : Remote
  pub audio_configuration : Channels
  pub encryption : Encryption
  pub debug_level : ℕ
  pub app : Text
  pub action : Option Text
  pub address : Option Text
  pub mapping : Option Text
  pub platform : Text
  pub audio_device : Option Text
  pub config_file : Option Text
  pub key_dir : Text
  pub sops : Bool
  pub localaudio : Bool
  pub fullscreen : Bool
  pub rotate : ℤ
  pub unsupported : Bool
  pub quitappafter : Bool
  pub viewonly : Bool
  pub mouse_emulation : Bool
  pub inputs : List Text
  pub codec : Codec
  pub hdr : Bool
  pub pin : Text
  pub port : ℕ
  pub input_added : Bool

-- What the functions ask of the system: `access(path, R_OK)`, the variables of the environment, the
-- home directory of the user, and the lines of a file as `getline` returns them.
pub record System : Type 0 where
  pub access : Text → Bool
  pub xdg_config_dir : Option Text
  pub xdg_data_dirs : Option Text
  pub home : Text
  pub lines : Text → Option (List Text)

-- How reading ends: with a configuration, because a file cannot be opened, by `exit`, or not at all,
-- in files that name each other.
pub data Parsed : Type 0 where
  parsed : Config → Parsed
  cannot_open quits too_deep : Parsed

-- What `config_parse` sets before it reads anything.
unfoldable pub default_config : Encryption → Option Text → Config
default_config encryption mapping = record {
  width = pos 1280;
  height = pos 720;
  fps = pos 60;
  bitrate = negsuc 0;
  packet_size = pos 1392;
  streaming_remotely = cfg_auto;
  audio_configuration = stereo;
  encryption = encryption;
  debug_level = 0;
  app = chars "Steam";
  action = none;
  address = none;
  mapping = mapping;
  platform = chars "auto";
  audio_device = none;
  config_file = none;
  key_dir = [];
  sops = true;
  localaudio = false;
  fullscreen = true;
  rotate = pos 0;
  unsupported = true;
  quitappafter = false;
  viewonly = false;
  mouse_emulation = true;
  inputs = [];
  codec = unspecified;
  hdr = false;
  pin = [];
  port = 47989;
  input_added = false;
}
