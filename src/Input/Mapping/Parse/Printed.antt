-- ===== src/Input/Mapping/Parse/Printed.antt =====
-- The options that src/input/mapping.c prints, one by one: what `mapping_parse` makes of each.
use moonlight_embedded_for_d.Base.{
  ℕ, ℤ, pos, negsuc, leb_ℤ, ◌≡◌, refl, ap, ◌∙◌, Bool, true, false, not, ◌&&◌, some, [], ◌∷◌, ◌++◌,
  Text, chars, str_eq, show_int, is_space, if◌then◌else◌, arith, false_ne_true, Bool-cases, inl,
  inr,
}
use moonlight_embedded_for_d.Config.Line.{no_spaces}
use moonlight_embedded_for_d.Input.Axes.{to_i16}
use moonlight_embedded_for_d.Input.Mapping.{Mapping}
use moonlight_embedded_for_d.Input.Mapping.Scan.{tokens, scan_after, scan_direction, is_sign}
use moonlight_embedded_for_d.Input.Mapping.Scan.Printed.{
  lacks, lacks-append, no_spaces-append, tokens-token, scan_option-option, scan_int-show_int,
  scan_int-end, show_int-no_spaces, show_int-lacks,
}
use moonlight_embedded_for_d.Input.Mapping.Parse.{
  set_button, set_axis, set_hat_key, set_value, set_option, with_option, parse_options,
}
use moonlight_embedded_for_d.Input.Mapping.Print.{option_text, print_btn, print_abs, print_hat}

-- A key that stands in an option, other than `platform`.
unfoldable pub is_option_key : Text → Bool
unfolding lacks str_eq
is_option_key [] = false
is_option_key (k ∷ key) =
    lacks b':' (k ∷ key) && (lacks b',' (k ∷ key) && not (str_eq (chars "platform") (k ∷ key)))

-- An index that was printed, read back as `short`; -1 where nothing was printed.
unfoldable pub printed : ℤ → ℤ
printed code = if leb_ℤ (pos 0) code then to_i16 code else negsuc 0

pub one_option :
    (key : Text) (d : ℕ) (value rest : Text) (m : Mapping)
    → is_option_key key ≡ true
    → no_spaces (d ∷ value) ≡ true
    → lacks b',' (d ∷ value) ≡ true
    → parse_options (tokens (option_text key (d ∷ value) ++ (b',' ∷ rest))) m
      ≡ parse_options (tokens rest) (with_option (some (key, d ∷ value)) m)
unfolding is_option_key parse_options
one_option [] d value rest m h w k = absurd (false_ne_true h)
one_option (c ∷ key) d value rest m h w k =
    ap (λ ts. parse_options ts m)
      (tokens-token c (key ++ (b':' ∷ (d ∷ value))) rest
        (lacks-append b',' (c ∷ key) (b':' ∷ (d ∷ value)) (ground (arith, h)) (colon k)))
    ∙ ap (λ o. parse_options (tokens rest) (with_option o m))
        (scan_option-option c key d value (ground (arith, h)) w)
  where
    colon : lacks b',' (d ∷ value) ≡ true → lacks b',' (b':' ∷ (d ∷ value)) ≡ true
    colon e = ground (arith, e)

other_key : (key : Text) → is_option_key key ≡ true → str_eq (chars "platform") key ≡ false
unfolding is_option_key
other_key [] h = absurd (false_ne_true h)
other_key (c ∷ key) h = ground (arith, h)

with_option-btn :
    (key : Text) (n : ℤ) (m : Mapping)
    → is_option_key key ≡ true
    → with_option (some (key, b'b' ∷ show_int n)) m ≡ set_button key (to_i16 n) m
unfolding with_option set_option set_value scan_after is_sign
with_option-btn key n m h = rw (other_key key h, scan_int-end n) refl

with_option-abs :
    (key : Text) (n : ℤ) (m : Mapping)
    → is_option_key key ≡ true
    → with_option (some (key, b'a' ∷ show_int n)) m ≡ set_axis key (to_i16 n) 0 0 m
unfolding with_option set_option set_value scan_after is_sign
with_option-abs key n m h = rw (other_key key h, scan_int-end n) refl

with_option-hat :
    (key : Text) (n d : ℤ) (m : Mapping)
    → is_option_key key ≡ true
    → with_option (some (key, b'h' ∷ (show_int n ++ (b'.' ∷ show_int d)))) m
      ≡ set_hat_key key (to_i16 n) (to_i16 d) m
unfolding with_option set_option set_value scan_after scan_direction is_sign
with_option-hat key n d m h =
    rw (other_key key h, scan_int-show_int n (b'.' ∷ show_int d) refl, scan_int-end d) refl

pub btn_step :
    (key : Text) (code : ℤ) (rest : Text) (put : Mapping → ℤ → Mapping) (m : Mapping)
    → is_option_key key ≡ true
    → ((n : ℤ) → set_button key n m ≡ put m n)
    → m ≡ put m (negsuc 0)
    → parse_options (tokens (print_btn key code rest)) m
      ≡ parse_options (tokens rest) (put m (printed code))
unfolding print_btn printed no_spaces is_space lacks
btn_step key code rest put m h sets stays = elim (Bool-cases (leb_ℤ (pos 0) code)) [
  | inl e ↦ rw e (
      one_option key b'b' (show_int code) rest m h (show_int-no_spaces code) (show_int-lacks code)
      ∙ ap (parse_options (tokens rest)) (with_option-btn key code m h ∙ sets (to_i16 code)))
  | inr e ↦ rw e (ap (parse_options (tokens rest)) stays)
]

pub abs_step :
    (key : Text) (code : ℤ) (rest : Text) (put : Mapping → ℤ → Mapping) (m : Mapping)
    → is_option_key key ≡ true
    → ((n : ℤ) → set_axis key n 0 0 m ≡ put m n)
    → m ≡ put m (negsuc 0)
    → parse_options (tokens (print_abs key code rest)) m
      ≡ parse_options (tokens rest) (put m (printed code))
unfolding print_abs printed no_spaces is_space lacks
abs_step key code rest put m h sets stays = elim (Bool-cases (leb_ℤ (pos 0) code)) [
  | inl e ↦ rw e (
      one_option key b'a' (show_int code) rest m h (show_int-no_spaces code) (show_int-lacks code)
      ∙ ap (parse_options (tokens rest)) (with_option-abs key code m h ∙ sets (to_i16 code)))
  | inr e ↦ rw e (ap (parse_options (tokens rest)) stays)
]

-- The direction of a hat that was printed.
unfoldable pub printed_dir : ℤ → ℤ → ℤ
printed_dir code dir = if leb_ℤ (pos 0) code then to_i16 dir else negsuc 0

pub hat_step :
    (key : Text) (code dir : ℤ) (rest : Text) (put : Mapping → ℤ → ℤ → Mapping) (m : Mapping)
    → is_option_key key ≡ true
    → ((n d : ℤ) → set_hat_key key n d m ≡ put m n d)
    → m ≡ put m (negsuc 0) (negsuc 0)
    → parse_options (tokens (print_hat key code dir rest)) m
      ≡ parse_options (tokens rest) (put m (printed code) (printed_dir code dir))
unfolding print_hat printed printed_dir no_spaces is_space lacks
hat_step key code dir rest put m h sets stays = elim (Bool-cases (leb_ℤ (pos 0) code)) [
  | inl e ↦ rw e (
      one_option key b'h' (show_int code ++ (b'.' ∷ show_int dir)) rest m h
        (no_spaces-append (show_int code) (b'.' ∷ show_int dir) (show_int-no_spaces code)
          (show_int-no_spaces dir))
        (lacks-append b',' (show_int code) (b'.' ∷ show_int dir) (show_int-lacks code)
          (show_int-lacks dir))
      ∙ ap (parse_options (tokens rest))
          (with_option-hat key code dir m h ∙ sets (to_i16 code) (to_i16 dir)))
  | inr e ↦ rw e (ap (parse_options (tokens rest)) stays)
]
