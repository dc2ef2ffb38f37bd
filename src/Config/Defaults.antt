-- ===== src/Config/Defaults.antt =====
-- The end of `config_parse` of src/config.c: the key directory and the bit rate.
pub mod Complete
use moonlight_embedded_for_d.Base.{
  ℕ, ◌*◌, ℤ, pos, negsuc, ◌==ℤ◌, ◌*ℤ◌, to_i32, leb_ℤ, Bool, true, false, Option, none, some, List,
  [], ◌∷◌, ◌++◌, Text, chars, str_eq, take, if◌then◌else◌,
}
use moonlight_embedded_for_d.Config.{Config}

-- The environment, the directories that can be written, and the home in the password file.
pub record Places : Type 0 where
  pub xdg_cache_dir : Option Text
  pub home : Option Text
  pub userdata : Bool
  pub userdisk : Bool
  pub pw_dir : Option Text

-- `key_dir` has 4096 bytes.
abbrev pub in_key_dir : Text → Text
in_key_dir s = take 4095 s

abbrev pub cached : Text → Text
cached dir = in_key_dir (dir ++ (chars "/.cache" ++ chars "/moonlight"))

unfoldable pub password_dir : Option Text → Text
password_dir none = in_key_dir (chars "/tmp" ++ chars "/moonlight")
password_dir (some dir) = cached dir

unfoldable pub shared_dir : Places → Text
unfolding password_dir
shared_dir p =
    if p.userdata
    then cached (chars "/userdata")
    else if p.userdisk
    then cached (chars "/userdisk")
    else password_dir p.pw_dir

unfoldable pub home_dir : Option Text → Places → Text
unfolding shared_dir str_eq
home_dir none p = shared_dir p
home_dir (some dir) p = if str_eq dir (chars "/") then shared_dir p else cached dir

unfoldable pub default_dir : Option Text → Places → Text
unfolding home_dir
default_dir none p = home_dir p.home p
default_dir (some dir) p = in_key_dir (dir ++ chars "/moonlight")

abbrev pub with_key_dir : Places → Config → Text → Config
with_key_dir p c [] = record c { key_dir = default_dir p.xdg_cache_dir p }
with_key_dir p c (d ∷ dir) = c

-- The bit rate for 30 frames a second.
unfoldable pub base_rate : ℤ → ℕ
base_rate pixels =
    if leb_ℤ pixels (pos (640 * 360))
    then 1000
    else if leb_ℤ pixels (pos (854 * 480))
    then 1500
    else if leb_ℤ pixels (pos (1366 * 768))
    then 5000
    else if leb_ℤ pixels (pos (1920 * 1200))
    then 10000
    else if leb_ℤ pixels (pos (2560 * 1600))
    then 20000
    else 40000

-- `per_fps rate fps` is `(int)(rate * (fps / 30.0))`. The product of two `int`s wraps.
unfoldable pub with_bitrate : (ℕ → ℤ → ℤ) → Config → Config
unfolding base_rate
with_bitrate per_fps c =
    if c.bitrate ==ℤ negsuc 0
    then record c { bitrate = per_fps (base_rate (to_i32 (c.width *ℤ c.height))) c.fps }
    else c

unfoldable pub complete : (ℕ → ℤ → ℤ) → Places → Config → Config
unfolding with_bitrate
complete per_fps p c = with_bitrate per_fps (with_key_dir p c c.key_dir)
