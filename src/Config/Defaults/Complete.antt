-- ===== src/Config/Defaults/Complete.antt =====
-- A configuration at the end of `config_parse` of src/config.c.
use moonlight_embedded_for_d.Base.{
  ℕ, ℤ, pos, negsuc, ◌==ℤ◌, ◌*ℤ◌, to_i32, ◌≤ℤ◌, ◌≡◌, ◌≢◌, refl, sym, ap, ◌∙◌, Option, none, some,
  [], ◌∷◌, ◌++◌, Text, chars, str_eq, arith, by_test,
}
use moonlight_embedded_for_d.Config.{Config}
use moonlight_embedded_for_d.Config.Defaults.{
  Places, password_dir, shared_dir, home_dir, default_dir, in_key_dir, with_key_dir, base_rate,
  with_bitrate, complete,
}

-- A text that is not empty.
record IsFilled (s : Text) : Type 0 where
  filled : s ≢ []

append-IsFilled : (s : Text) (c : ℕ) (t : Text) → IsFilled (in_key_dir (s ++ (c ∷ t)))
append-IsFilled [] c t = record { filled = λ e. ground (arith, e) }
append-IsFilled (d ∷ s) c t = record { filled = λ e. ground (arith, e) }

default_dir-IsFilled : (xdg : Option Text) (p : Places) → IsFilled (default_dir xdg p)
unfolding default_dir
default_dir-IsFilled (some dir) p = append-IsFilled dir b'/' (chars "moonlight")
default_dir-IsFilled none p = home p.home
  where
    password : (dir : Option Text) → IsFilled (password_dir dir)
    password none = append-IsFilled (chars "/tmp") b'/' (chars "moonlight")
    password (some dir) = append-IsFilled dir b'/' (chars ".cache/moonlight")

    shared : IsFilled (shared_dir p)
    shared =
        by_test IsFilled p.userdata
          (λ e. append-IsFilled (chars "/userdata") b'/' (chars ".cache/moonlight"))
          (λ e.
            by_test IsFilled p.userdisk
              (λ f. append-IsFilled (chars "/userdisk") b'/' (chars ".cache/moonlight"))
              (λ f. password p.pw_dir))

    home : (dir : Option Text) → IsFilled (home_dir dir p)
    home none = shared
    home (some dir) =
        by_test IsFilled (str_eq dir (chars "/")) (λ e. shared)
          (λ e. append-IsFilled dir b'/' (chars ".cache/moonlight"))

with_key_dir-IsFilled :
    (p : Places) (c : Config) (dir : Text)
    → c.key_dir ≡ dir
    → IsFilled (with_key_dir p c dir).key_dir
with_key_dir-IsFilled p c [] h = default_dir-IsFilled p.xdg_cache_dir p
with_key_dir-IsFilled p c (d ∷ dir) h = record { filled = λ e. ground (arith, sym h ∙ e) }

with_key_dir-fps : (p : Places) (c : Config) (dir : Text) → (with_key_dir p c dir).fps ≡ c.fps
with_key_dir-fps p c [] = refl
with_key_dir-fps p c (d ∷ dir) = refl

with_bitrate-keeps :
    (per_fps : ℕ → ℤ → ℤ) (c : Config) → (with_bitrate per_fps c).key_dir ≡ c.key_dir
unfolding with_bitrate
with_bitrate-keeps per_fps c =
    by_test (λ (d : Config). d.key_dir ≡ c.key_dir) (c.bitrate ==ℤ negsuc 0)
      {x = record c { bitrate = per_fps (base_rate (to_i32 (c.width *ℤ c.height))) c.fps }}
      (λ e. refl) (λ e. refl)

with_bitrate-set :
    (per_fps : ℕ → ℤ → ℤ) (c : Config)
    → pos 0 ≤ℤ c.fps
    → ((rate fps : ℕ) → per_fps rate (pos fps) ≢ negsuc 0)
    → (with_bitrate per_fps c).bitrate ≢ negsuc 0
unfolding with_bitrate
with_bitrate-set per_fps c f h =
    by_test (λ (d : Config). d.bitrate ≢ negsuc 0) (c.bitrate ==ℤ negsuc 0)
      {x = record c { bitrate = per_fps (base_rate (to_i32 (c.width *ℤ c.height))) c.fps }}
      (λ e. set _ c.fps f) (λ e f. ground (arith, e, f))
  where
    set : (rate : ℕ) (fps : ℤ) → pos 0 ≤ℤ fps → per_fps rate fps ≢ negsuc 0
    set rate (pos n) f = h rate n
    set rate (negsuc n) f = absurd (ground (arith, f))

with_key_dir-filled :
    (p : Places) (c : Config) (dir : Text) → IsFilled dir → with_key_dir p c dir ≡ c
with_key_dir-filled p c [] h = absurd (h.filled refl)
with_key_dir-filled p c (d ∷ dir) h = refl

with_bitrate-kept :
    (per_fps : ℕ → ℤ → ℤ) (c : Config) → c.bitrate ≢ negsuc 0 → with_bitrate per_fps c ≡ c
unfolding with_bitrate
with_bitrate-kept per_fps c h =
    by_test (λ d. d ≡ c) (c.bitrate ==ℤ negsuc 0) (λ e. absurd (h (ground (arith, e)))) (λ e. refl)

-- At the end of `config_parse` there is a key directory and a bit rate, whatever the options and the
-- environment say, and to complete the configuration once more changes nothing. Conditions: the
-- frame rate is not negative, and the conversion to `int` of a product that is not negative is not
-- -1.
pub complete-complete :
    (per_fps : ℕ → ℤ → ℤ) (p q : Places) (c : Config)
    → pos 0 ≤ℤ c.fps
    → ((rate fps : ℕ) → per_fps rate (pos fps) ≢ negsuc 0)
    → ((complete per_fps p c).key_dir ≢ [])
      × ((complete per_fps p c).bitrate ≢ negsuc 0)
      × (complete per_fps q (complete per_fps p c) ≡ complete per_fps p c)
unfolding complete
complete-complete per_fps p q c f h =
    let keyed = with_key_dir p c c.key_dir in
    let dir = with_key_dir-IsFilled p c c.key_dir refl in
    let same = with_bitrate-keeps per_fps keyed in
    let rate = with_bitrate-set per_fps keyed (rw (with_key_dir-fps p c c.key_dir) f) h in
    (
      (λ e. dir.filled (sym same ∙ e)),
      rate,
      ap (with_bitrate per_fps) (
            with_key_dir-filled q (with_bitrate per_fps keyed) (with_bitrate per_fps keyed).key_dir
              (record { filled = λ e. dir.filled (sym same ∙ e) }))
          ∙ with_bitrate-kept per_fps (with_bitrate per_fps keyed) rate,
    )
