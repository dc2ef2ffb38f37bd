-- ===== src/Input/Mapping/Parse/RoundTrip.antt =====
-- `mapping_parse` on what `mapping_print` wrote, both of src/input/mapping.c.
use moonlight_embedded_for_d.Base.{
  ◌≡◌, refl, ap, ◌∙◌, Bool, true, false, some, [], ◌∷◌, ◌++◌, Text, chars, take, is_space,
  false_ne_true,
}
use moonlight_embedded_for_d.Input.Mapping.{Mapping, unmapped}
use moonlight_embedded_for_d.Input.Mapping.Scan.{tokens}
use moonlight_embedded_for_d.Input.Mapping.Scan.Printed.{lacks, tokens-token}
use moonlight_embedded_for_d.Input.Mapping.Parse.{
  set_button, set_axis, set_hat_key, with_option, parse_options, parse_tokens, mapping_parse,
}
use moonlight_embedded_for_d.Input.Mapping.Parse.Printed.{
  is_option_key, printed, printed_dir, btn_step, abs_step, hat_step,
}
use moonlight_embedded_for_d.Input.Mapping.Print.{print_options, mapping_print}

-- A text that `strtok_r` takes whole: not empty, and without a comma.
unfoldable pub is_token : Text → Bool
unfolding lacks
is_token [] = false
is_token (c ∷ s) = lacks b',' (c ∷ s)

-- What a printed mapping is read back as: the directions on axes, the reversed axes and the halves of
-- axes are not printed.
abbrev pub reread : Mapping → Mapping
reread m = record (unmapped (take 32 m.guid) (take 256 m.name)) {
  platform = chars "Linux";
  btn_a = printed m.btn_a;
  btn_b = printed m.btn_b;
  btn_x = printed m.btn_x;
  btn_y = printed m.btn_y;
  btn_start = printed m.btn_start;
  btn_guide = printed m.btn_guide;
  btn_back = printed m.btn_back;
  btn_leftstick = printed m.btn_leftstick;
  btn_rightstick = printed m.btn_rightstick;
  btn_leftshoulder = printed m.btn_leftshoulder;
  btn_rightshoulder = printed m.btn_rightshoulder;
  btn_dpup = printed m.btn_dpup;
  btn_dpleft = printed m.btn_dpleft;
  btn_dpdown = printed m.btn_dpdown;
  btn_dpright = printed m.btn_dpright;
  hat_dpup = printed m.hat_dpup;
  hat_dir_dpup = printed_dir m.hat_dpup m.hat_dir_dpup;
  hat_dpleft = printed m.hat_dpleft;
  hat_dir_dpleft = printed_dir m.hat_dpleft m.hat_dir_dpleft;
  hat_dpdown = printed m.hat_dpdown;
  hat_dir_dpdown = printed_dir m.hat_dpdown m.hat_dir_dpdown;
  hat_dpright = printed m.hat_dpright;
  hat_dir_dpright = printed_dir m.hat_dpright m.hat_dir_dpright;
  abs_leftx = printed m.abs_leftx;
  abs_lefty = printed m.abs_lefty;
  abs_rightx = printed m.abs_rightx;
  abs_righty = printed m.abs_righty;
  abs_lefttrigger = printed m.abs_lefttrigger;
  abs_righttrigger = printed m.abs_righttrigger;
  btn_lefttrigger = printed m.btn_lefttrigger;
  btn_righttrigger = printed m.btn_righttrigger;
  btn_misc1 = printed m.btn_misc1;
  btn_paddle1 = printed m.btn_paddle1;
  btn_paddle2 = printed m.btn_paddle2;
  btn_paddle3 = printed m.btn_paddle3;
  btn_paddle4 = printed m.btn_paddle4;
  btn_touchpad = printed m.btn_touchpad;
}

last_option :
    (m : Mapping)
    → parse_options (tokens (chars "platform:Linux\n")) m ≡ record m { platform = chars "Linux" }
unfolding parse_options tokens with_option is_space
last_option m = refl

options_reread :
    (m : Mapping)
    → parse_options (tokens (print_options m)) (unmapped (take 32 m.guid) (take 256 m.name))
      ≡ reread m
unfolding print_options set_button set_axis set_hat_key is_option_key
options_reread m =
    btn_step (chars "a") m.btn_a _ (λ b v. record b { btn_a = v }) _ refl (λ n. refl) refl
    ∙ btn_step (chars "b") m.btn_b _ (λ b v. record b { btn_b = v }) _ refl (λ n. refl) refl
    ∙ btn_step (chars "x") m.btn_x _ (λ b v. record b { btn_x = v }) _ refl (λ n. refl) refl
    ∙ btn_step (chars "y") m.btn_y _ (λ b v. record b { btn_y = v }) _ refl (λ n. refl) refl
    ∙ btn_step (chars "start") m.btn_start _ (λ b v. record b { btn_start = v }) _ refl (λ n. refl)
        refl
    ∙ btn_step (chars "guide") m.btn_guide _ (λ b v. record b { btn_guide = v }) _ refl (λ n. refl)
        refl
    ∙ btn_step (chars "back") m.btn_back _ (λ b v. record b { btn_back = v }) _ refl (λ n. refl)
        refl
    ∙ btn_step (chars "leftstick") m.btn_leftstick _ (λ b v. record b { btn_leftstick = v }) _ refl
        (λ n. refl) refl
    ∙ btn_step (chars "rightstick") m.btn_rightstick _ (λ b v. record b { btn_rightstick = v }) _
        refl (λ n. refl) refl
    ∙ btn_step (chars "leftshoulder") m.btn_leftshoulder _
        (λ b v. record b { btn_leftshoulder = v }) _ refl (λ n. refl) refl
    ∙ btn_step (chars "rightshoulder") m.btn_rightshoulder _
        (λ b v. record b { btn_rightshoulder = v }) _ refl (λ n. refl) refl
    ∙ btn_step (chars "dpup") m.btn_dpup _ (λ b v. record b { btn_dpup = v }) _ refl (λ n. refl)
        refl
    ∙ btn_step (chars "dpleft") m.btn_dpleft _ (λ b v. record b { btn_dpleft = v }) _ refl
        (λ n. refl) refl
    ∙ btn_step (chars "dpdown") m.btn_dpdown _ (λ b v. record b { btn_dpdown = v }) _ refl
        (λ n. refl) refl
    ∙ btn_step (chars "dpright") m.btn_dpright _ (λ b v. record b { btn_dpright = v }) _ refl
        (λ n. refl) refl
    ∙ hat_step (chars "dpup") m.hat_dpup m.hat_dir_dpup _
        (λ b v d. record b { hat_dpup = v; hat_dir_dpup = d }) _ refl (λ n d. refl) refl
    ∙ hat_step (chars "dpleft") m.hat_dpleft m.hat_dir_dpleft _
        (λ b v d. record b { hat_dpleft = v; hat_dir_dpleft = d }) _ refl (λ n d. refl) refl
    ∙ hat_step (chars "dpdown") m.hat_dpdown m.hat_dir_dpdown _
        (λ b v d. record b { hat_dpdown = v; hat_dir_dpdown = d }) _ refl (λ n d. refl) refl
    ∙ hat_step (chars "dpright") m.hat_dpright m.hat_dir_dpright _
        (λ b v d. record b { hat_dpright = v; hat_dir_dpright = d }) _ refl (λ n d. refl) refl
    ∙ abs_step (chars "leftx") m.abs_leftx _ (λ b v. record b { abs_leftx = v }) _ refl (λ n. refl)
        refl
    ∙ abs_step (chars "lefty") m.abs_lefty _ (λ b v. record b { abs_lefty = v }) _ refl (λ n. refl)
        refl
    ∙ abs_step (chars "rightx") m.abs_rightx _ (λ b v. record b { abs_rightx = v }) _ refl
        (λ n. refl) refl
    ∙ abs_step (chars "righty") m.abs_righty _ (λ b v. record b { abs_righty = v }) _ refl
        (λ n. refl) refl
    ∙ abs_step (chars "lefttrigger") m.abs_lefttrigger _ (λ b v. record b { abs_lefttrigger = v }) _
        refl (λ n. refl) refl
    ∙ abs_step (chars "righttrigger") m.abs_righttrigger _
        (λ b v. record b { abs_righttrigger = v }) _ refl (λ n. refl) refl
    ∙ btn_step (chars "lefttrigger") m.btn_lefttrigger _ (λ b v. record b { btn_lefttrigger = v }) _
        refl (λ n. refl) refl
    ∙ btn_step (chars "righttrigger") m.btn_righttrigger _
        (λ b v. record b { btn_righttrigger = v }) _ refl (λ n. refl) refl
    ∙ btn_step (chars "misc1") m.btn_misc1 _ (λ b v. record b { btn_misc1 = v }) _ refl (λ n. refl)
        refl
    ∙ btn_step (chars "paddle1") m.btn_paddle1 _ (λ b v. record b { btn_paddle1 = v }) _ refl
        (λ n. refl) refl
    ∙ btn_step (chars "paddle2") m.btn_paddle2 _ (λ b v. record b { btn_paddle2 = v }) _ refl
        (λ n. refl) refl
    ∙ btn_step (chars "paddle3") m.btn_paddle3 _ (λ b v. record b { btn_paddle3 = v }) _ refl
        (λ n. refl) refl
    ∙ btn_step (chars "paddle4") m.btn_paddle4 _ (λ b v. record b { btn_paddle4 = v }) _ refl
        (λ n. refl) refl
    ∙ btn_step (chars "touchpad") m.btn_touchpad _ (λ b v. record b { btn_touchpad = v }) _ refl
        (λ n. refl) refl
    ∙ last_option _

parse_tokens-two :
    (guid name rest : Text)
    → is_token guid ≡ true
    → is_token name ≡ true
    → parse_tokens (tokens (guid ++ (b',' ∷ (name ++ (b',' ∷ rest)))))
      ≡ some (parse_options (tokens rest) (unmapped (take 32 guid) (take 256 name)))
unfolding is_token parse_tokens
parse_tokens-two [] name rest h k = absurd (false_ne_true h)
parse_tokens-two (c ∷ guid) [] rest h k = absurd (false_ne_true k)
parse_tokens-two (c ∷ guid) (d ∷ name) rest h k =
    ap parse_tokens (tokens-token c guid ((d ∷ name) ++ (b',' ∷ rest)) h)
    ∙ ap (λ ts. parse_tokens ((c ∷ guid) ∷ ts)) (tokens-token d name rest k)

-- What `mapping_print` wrote, `mapping_parse` reads back: the guid, cut at 32 bytes, and the name, cut
-- at 256, every index that is not negative, stored as a `short`, with the direction of a hat, and
-- -1 for the others. Of what is not printed nothing comes back: the reversed axes, the halves of
-- axes and the directions on axes. Conditions: the guid and the name are not empty and have no comma.
pub mapping_parse-mapping_print :
    (m : Mapping)
    → is_token m.guid ≡ true
    → is_token m.name ≡ true
    → mapping_parse (mapping_print m) ≡ some (reread m)
unfolding mapping_parse mapping_print
mapping_parse-mapping_print m h k =
    parse_tokens-two m.guid m.name (print_options m) h k ∙ ap some (options_reread m)
