-- ===== src/Input/Mapping/Tests.antt =====
-- Mappings on concrete texts.
use moonlight_embedded_for_d.Base.{pos, ◌≡◌, refl, true, some, none, chars, is_space}
use moonlight_embedded_for_d.Input.Axes.{to_i16}
use moonlight_embedded_for_d.Input.Mapping.{Mapping, unmapped}
use moonlight_embedded_for_d.Input.Mapping.Parse.{mapping_parse}
use moonlight_embedded_for_d.Input.Mapping.Print.{print_btn, print_abs, print_hat, mapping_print}
use moonlight_embedded_for_d.Input.Mapping.Parse.RoundTrip.{
  is_token, reread, mapping_parse-mapping_print,
}

abbrev a_pad : Mapping
a_pad = record (unmapped (chars "0300") (chars "A pad")) {
  btn_a = pos 3;
  hat_dpup = pos 0;
  hat_dir_dpup = pos 1;
  abs_lefty = pos 1;
}

prints_pad : mapping_print a_pad ≡ chars "0300,A pad,a:b3,dpup:h0.1,lefty:a1,platform:Linux\n"
unfolding mapping_print print_btn print_abs print_hat
prints_pad = refl

reads_reversed :
    mapping_parse (chars "0300,,A pad,lefty:a1~,dpup:-a12,x:")
    ≡ some (record (unmapped (chars "0300") (chars "A pad")) {
      abs_lefty = pos 1;
      reverse_lefty = true;
      abs_dpup = pos 12;
      halfaxis_dpup = b'-';
    })
unfolding mapping_parse is_space to_i16
reads_reversed = refl

no_name : mapping_parse (chars ",0300,") ≡ none
unfolding mapping_parse
no_name = refl

mapping_parse-mapping_print_example : mapping_parse (mapping_print a_pad) ≡ some (reread a_pad)
unfolding is_token
mapping_parse-mapping_print_example = mapping_parse-mapping_print a_pad refl refl
