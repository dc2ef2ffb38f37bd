-- ===== src/Config/Tests.antt =====
-- src/config.c on a concrete file.
use moonlight_embedded_for_d.Base.{
  suc, ◌/◌, ◌/ℤ◌, to_i32, ℕ, Text, List, [], ◌∷◌, pos, negsuc, ◌≡◌, ◌≢◌, refl, ap, pos_part, arith,
  true, false, none, some, chars, is_space, ℤ, ◌*◌, ◌*ℤ◌,
}
use moonlight_embedded_for_d.Config.{Config, System, parsed, audio_only, default_config}
use moonlight_embedded_for_d.Config.Defaults.{Places, default_dir, complete}
use moonlight_embedded_for_d.Config.Defaults.Complete.{complete-complete}
use moonlight_embedded_for_d.Config.Files.{config_save, config_file_parse, read_options}
use moonlight_embedded_for_d.Config.Inputs.{FitsInputs, read_options-FitsInputs}
use moonlight_embedded_for_d.Config.Line.{is_value, one_line}
use moonlight_embedded_for_d.Config.Saved.{restored, IsInitial, config_file_parse-config_save}

abbrev initial : Config
unfolding default_config
initial = default_config audio_only none

abbrev chosen : Config
chosen = record initial {
  width = pos 1920;
  height = pos 1080;
  packet_size = pos 1392;
  sops = false;
  viewonly = true;
  rotate = negsuc 89;
  app = chars "Desk top";
}

abbrev saved_system : System
saved_system = record {
  access = λ path. false;
  xdg_config_dir = none;
  xdg_data_dirs = none;
  home = chars "/root";
  lines = λ path. some (config_save chosen);
}

initial-IsInitial : IsInitial initial
unfolding default_config initial
initial-IsInitial = record {
  width_is = refl;
  height_is = refl;
  fps_is = refl;
  bitrate_is = refl;
  sops_is = refl;
  localaudio_is = refl;
  quitappafter_is = refl;
  viewonly_is = refl;
  rotate_is = refl;
  app_is = refl;
}

packets_apart : chosen.packet_size ≡ pos 1024 → ◌≡◌ {A = ℕ} 1392 1024
packets_apart e = ap pos_part e

packets_differ : chosen.packet_size ≢ pos 1024
packets_differ e = absurd (omega (arith, packets_apart e))

app_readable : is_value chosen.app ≡ true
unfolding is_value one_line is_space
app_readable = refl

config_file_parse-config_save_example :
    config_file_parse saved_system 1 (chars "moonlight.conf") initial
    ≡ parsed (restored chosen initial)
config_file_parse-config_save_example =
    config_file_parse-config_save saved_system 0 (chars "moonlight.conf") chosen initial refl
      initial-IsInitial packets_differ app_readable

-- A command line that asks for seven inputs.
abbrev greedy : List (ℕ × Text)
greedy =
    (b'j', chars "0")
    ∷ (b'j', chars "1")
    ∷ (b'j', chars "2")
    ∷ (b'j', chars "3")
    ∷ (b'j', chars "4")
    ∷ (b'j', chars "5")
    ∷ (b'j', chars "6")
    ∷ []

read_options-FitsInputs_example : FitsInputs (read_options saved_system 3 audio_only none greedy)
read_options-FitsInputs_example = read_options-FitsInputs saved_system 3 audio_only none greedy

abbrev at_home : Places
at_home = record {
  xdg_cache_dir = none;
  home = some (chars "/home/x");
  userdata = false;
  userdisk = false;
  pw_dir = none;
}

-- What `(int)(rate * (fps / 30.0))` is on numbers that a double holds exactly.
abbrev truncated : ℕ → ℤ → ℤ
unfolding ◌/ℤ◌
truncated rate (pos fps) = pos (rate * fps / 30)
truncated rate (negsuc fps) = negsuc 0 *ℤ (pos (rate * suc fps) /ℤ pos 30)

completes_chosen :
    complete truncated at_home chosen
    ≡ record chosen { key_dir = chars "/home/x/.cache/moonlight"; bitrate = pos 20000 }
unfolding complete default_dir ◌*ℤ◌ to_i32 initial truncated
completes_chosen = refl

complete-complete_example : (complete truncated at_home chosen).bitrate ≢ negsuc 0
unfolding initial truncated
complete-complete_example =
    (complete-complete truncated at_home at_home chosen (omega arith)
      (λ rate fps e. ground (arith, e))).1
