-- ===== src/Config/Saved.antt =====
-- `config_save` and `config_file_parse` of src/config.c together.
use moonlight_embedded_for_d.Base.{
  ℕ, suc, ℤ, pos, negsuc, ◌≡◌, ◌≢◌, refl, sym, ap, ◌∙◌, Bool, true, false, not, [], ◌∷◌, some, Text,
  chars, str_eq, eq_of_str_eq, is_space, if◌then◌else◌, by_test,
}
use moonlight_embedded_for_d.Config.{Config, System, Parsed, parsed}
use moonlight_embedded_for_d.Config.Options.{parse_argument, stream_argument, session_argument}
use moonlight_embedded_for_d.Config.Files.{
  option_setting, parse_setting, parse_lines, config_file_parse, setting, write_int, write_bool,
  config_save,
}
use moonlight_embedded_for_d.Config.Line.{is_key, is_value, no_spaces}
use moonlight_embedded_for_d.Config.Reading.{
  not-false, parse_lines-step, one_setting, int_line, bool_line,
}

-- What a saved file says, put into a configuration.
abbrev pub restored : Config → Config → Config
restored c b = record b {
  width = c.width;
  height = c.height;
  fps = c.fps;
  bitrate = c.bitrate;
  packet_size = c.packet_size;
  sops = c.sops;
  localaudio = c.localaudio;
  quitappafter = c.quitappafter;
  viewonly = c.viewonly;
  rotate = c.rotate;
  app = c.app;
}

-- The values that a saved file leaves out.
pub record IsInitial (b : Config) : Type 0 where
  pub width_is : b.width ≡ pos 1280
  pub height_is : b.height ≡ pos 720
  pub fps_is : b.fps ≡ pos 60
  pub bitrate_is : b.bitrate ≡ negsuc 0
  pub sops_is : b.sops ≡ true
  pub localaudio_is : b.localaudio ≡ false
  pub quitappafter_is : b.quitappafter ≡ false
  pub viewonly_is : b.viewonly ≡ false
  pub rotate_is : b.rotate ≡ pos 0
  pub app_is : b.app ≡ chars "Steam"

module _ (sys : System) (fp : Text → Config → Parsed) where
  app_line :
      (app : Text) (b : Config)
      → b.app ≡ chars "Steam"
      → is_value app ≡ true
      → parse_lines sys fp
          (if not (str_eq app (chars "Steam")) then setting (chars "app") app ∷ [] else [])
          b
        ≡ parsed (record b { app = app })
  unfolding parse_lines parse_setting option_setting parse_argument stream_argument session_argument
      str_eq is_key no_spaces is_space
  app_line app b h hv =
      by_test (λ lines. parse_lines sys fp lines b ≡ parsed (record b { app = app }))
        (not (str_eq app (chars "Steam"))) (λ e. one_setting sys fp (chars "app") app b refl hv)
        (λ e.
          ap (λ a. parsed (record b { app = a }))
            (h ∙ sym (eq_of_str_eq app (chars "Steam") (not-false _ e))))

  width_line :
      (n : ℤ) (b : Config)
      → b.width ≡ pos 1280
      → parse_lines sys fp (write_int (chars "width") n (pos 1280)) b
        ≡ parsed (record b { width = n })
  unfolding parse_setting option_setting parse_argument stream_argument session_argument str_eq
      is_key no_spaces is_space
  width_line n b h =
      int_line sys fp (chars "width") n (pos 1280) (λ m. record b { width = m }) b refl (λ v. refl)
        (λ e. ap (λ m. record b { width = m }) (h ∙ sym e))

  height_line :
      (n : ℤ) (b : Config)
      → b.height ≡ pos 720
      → parse_lines sys fp (write_int (chars "height") n (pos 720)) b
        ≡ parsed (record b { height = n })
  unfolding parse_setting option_setting parse_argument stream_argument session_argument str_eq
      is_key no_spaces is_space
  height_line n b h =
      int_line sys fp (chars "height") n (pos 720) (λ m. record b { height = m }) b refl (λ v. refl)
        (λ e. ap (λ m. record b { height = m }) (h ∙ sym e))

  fps_line :
      (n : ℤ) (b : Config)
      → b.fps ≡ pos 60
      → parse_lines sys fp (write_int (chars "fps") n (pos 60)) b ≡ parsed (record b { fps = n })
  unfolding parse_setting option_setting parse_argument stream_argument session_argument str_eq
      is_key no_spaces is_space
  fps_line n b h =
      int_line sys fp (chars "fps") n (pos 60) (λ m. record b { fps = m }) b refl (λ v. refl)
        (λ e. ap (λ m. record b { fps = m }) (h ∙ sym e))

  bitrate_line :
      (n : ℤ) (b : Config)
      → b.bitrate ≡ negsuc 0
      → parse_lines sys fp (write_int (chars "bitrate") n (negsuc 0)) b
        ≡ parsed (record b { bitrate = n })
  unfolding parse_setting option_setting parse_argument stream_argument session_argument str_eq
      is_key no_spaces is_space
  bitrate_line n b h =
      int_line sys fp (chars "bitrate") n (negsuc 0) (λ m. record b { bitrate = m }) b refl
        (λ v. refl) (λ e. ap (λ m. record b { bitrate = m }) (h ∙ sym e))

  packet_size_line :
      (n : ℤ) (b : Config)
      → n ≢ pos 1024
      → parse_lines sys fp (write_int (chars "packetsize") n (pos 1024)) b
        ≡ parsed (record b { packet_size = n })
  unfolding parse_setting option_setting parse_argument stream_argument session_argument str_eq
      is_key no_spaces is_space
  packet_size_line n b h =
      int_line sys fp (chars "packetsize") n (pos 1024) (λ m. record b { packet_size = m }) b refl
        (λ v. refl) (λ e. absurd (h e))

  rotate_line :
      (n : ℤ) (b : Config)
      → b.rotate ≡ pos 0
      → parse_lines sys fp (write_int (chars "rotate") n (pos 0)) b
        ≡ parsed (record b { rotate = n })
  unfolding parse_setting option_setting parse_argument stream_argument session_argument str_eq
      is_key no_spaces is_space
  rotate_line n b h =
      int_line sys fp (chars "rotate") n (pos 0) (λ m. record b { rotate = m }) b refl (λ v. refl)
        (λ e. ap (λ m. record b { rotate = m }) (h ∙ sym e))

  sops_line :
      (v : Bool) (b : Config)
      → b.sops ≡ true
      → parse_lines sys fp (write_bool (chars "sops") v true) b ≡ parsed (record b { sops = v })
  unfolding parse_setting option_setting parse_argument stream_argument session_argument str_eq
      is_key no_spaces is_space
  sops_line v b h =
      bool_line sys fp (chars "sops") v true (λ u. record b { sops = u }) b refl refl refl
        (λ e. ap (λ u. record b { sops = u }) (h ∙ sym e))

  localaudio_line :
      (v : Bool) (b : Config)
      → b.localaudio ≡ false
      → parse_lines sys fp (write_bool (chars "localaudio") v false) b
        ≡ parsed (record b { localaudio = v })
  unfolding parse_setting option_setting parse_argument stream_argument session_argument str_eq
      is_key no_spaces is_space
  localaudio_line v b h =
      bool_line sys fp (chars "localaudio") v false (λ u. record b { localaudio = u }) b refl refl
        (ap (λ u. parsed (record b { localaudio = u })) h)
        (λ e. ap (λ u. record b { localaudio = u }) (h ∙ sym e))

  quitappafter_line :
      (v : Bool) (b : Config)
      → b.quitappafter ≡ false
      → parse_lines sys fp (write_bool (chars "quitappafter") v false) b
        ≡ parsed (record b { quitappafter = v })
  unfolding parse_setting option_setting parse_argument stream_argument session_argument str_eq
      is_key no_spaces is_space
  quitappafter_line v b h =
      bool_line sys fp (chars "quitappafter") v false (λ u. record b { quitappafter = u }) b refl
        refl (ap (λ u. parsed (record b { quitappafter = u })) h)
        (λ e. ap (λ u. record b { quitappafter = u }) (h ∙ sym e))

  viewonly_line :
      (v : Bool) (b : Config)
      → b.viewonly ≡ false
      → parse_lines sys fp (write_bool (chars "viewonly") v false) b
        ≡ parsed (record b { viewonly = v })
  unfolding parse_setting option_setting parse_argument stream_argument session_argument str_eq
      is_key no_spaces is_space
  viewonly_line v b h =
      bool_line sys fp (chars "viewonly") v false (λ u. record b { viewonly = u }) b refl refl
        (ap (λ u. parsed (record b { viewonly = u })) h)
        (λ e. ap (λ u. record b { viewonly = u }) (h ∙ sym e))

  saved_lines :
      (c b : Config)
      → IsInitial b
      → c.packet_size ≢ pos 1024
      → is_value c.app ≡ true
      → parse_lines sys fp (config_save c) b ≡ parsed (restored c b)
  unfolding config_save
  saved_lines c b h hp ha =
      let b1 : Config = record b { width = c.width } in
      let b2 : Config = record b1 { height = c.height } in
      let b3 : Config = record b2 { fps = c.fps } in
      let b4 : Config = record b3 { bitrate = c.bitrate } in
      let b5 : Config = record b4 { packet_size = c.packet_size } in
      let b6 : Config = record b5 { sops = c.sops } in
      let b7 : Config = record b6 { localaudio = c.localaudio } in
      let b8 : Config = record b7 { quitappafter = c.quitappafter } in
      let b9 : Config = record b8 { viewonly = c.viewonly } in
      let b10 : Config = record b9 { rotate = c.rotate } in
      parse_lines-step sys fp _ _ b b1 (width_line c.width b h.width_is)
      ∙ parse_lines-step sys fp _ _ b1 b2 (height_line c.height b1 h.height_is)
      ∙ parse_lines-step sys fp _ _ b2 b3 (fps_line c.fps b2 h.fps_is)
      ∙ parse_lines-step sys fp _ _ b3 b4 (bitrate_line c.bitrate b3 h.bitrate_is)
      ∙ parse_lines-step sys fp _ _ b4 b5 (packet_size_line c.packet_size b4 hp)
      ∙ parse_lines-step sys fp _ _ b5 b6 (sops_line c.sops b5 h.sops_is)
      ∙ parse_lines-step sys fp _ _ b6 b7 (localaudio_line c.localaudio b6 h.localaudio_is)
      ∙ parse_lines-step sys fp _ _ b7 b8 (quitappafter_line c.quitappafter b7 h.quitappafter_is)
      ∙ parse_lines-step sys fp _ _ b8 b9 (viewonly_line c.viewonly b8 h.viewonly_is)
      ∙ parse_lines-step sys fp _ _ b9 b10 (rotate_line c.rotate b9 h.rotate_is)
      ∙ app_line c.app b10 h.app_is ha

-- What `config_save` wrote, `config_file_parse` reads back: on a configuration with the initial
-- values in the fields that are saved, every one of those fields takes its saved value and no other
-- field changes. Conditions: the packet size is not 1024, and the name of the application is one
-- line that is not empty and does not begin with a space.
pub config_file_parse-config_save :
    (sys : System) (fuel : ℕ) (filename : Text) (c b : Config)
    → sys.lines filename ≡ some (config_save c)
    → IsInitial b
    → c.packet_size ≢ pos 1024
    → is_value c.app ≡ true
    → config_file_parse sys (suc fuel) filename b ≡ parsed (restored c b)
unfolding config_file_parse
config_file_parse-config_save sys fuel filename c b e h hp ha =
    rw (e, config_file_parse) (saved_lines sys (config_file_parse sys fuel) c b h hp ha)
