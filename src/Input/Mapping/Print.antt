-- ===== src/Input/Mapping/Print.antt =====
-- `mapping_print` of src/input/mapping.c.
use moonlight_embedded_for_d.Base.{ℤ, pos, leb_ℤ, ◌∷◌, ◌++◌, Text, chars, show_int, if◌then◌else◌}
use moonlight_embedded_for_d.Input.Mapping.{Mapping}

-- An option, with its key and value, and the text that follows.
abbrev pub option_text : Text → Text → Text
option_text key value = key ++ (b':' ∷ value)

unfoldable pub print_btn : Text → ℤ → Text → Text
unfolding show_int
print_btn key code rest =
    if leb_ℤ (pos 0) code then option_text key (b'b' ∷ show_int code) ++ (b',' ∷ rest) else rest

unfoldable pub print_abs : Text → ℤ → Text → Text
unfolding show_int
print_abs key code rest =
    if leb_ℤ (pos 0) code then option_text key (b'a' ∷ show_int code) ++ (b',' ∷ rest) else rest

unfoldable pub print_hat : Text → ℤ → ℤ → Text → Text
unfolding show_int
print_hat key code dir rest =
    if leb_ℤ (pos 0) code
    then option_text key (b'h' ∷ (show_int code ++ (b'.' ∷ show_int dir))) ++ (b',' ∷ rest)
    else rest

-- What is printed behind the guid and the name.
unfoldable pub print_options : Mapping → Text
print_options m = print_btn (chars "a") m.btn_a (
    print_btn (chars "b") m.btn_b (
      print_btn (chars "x") m.btn_x (
        print_btn (chars "y") m.btn_y (
          print_btn (chars "start") m.btn_start (
            print_btn (chars "guide") m.btn_guide (
              print_btn (chars "back") m.btn_back (
                print_btn (chars "leftstick") m.btn_leftstick (
                  print_btn (chars "rightstick") m.btn_rightstick (
                    print_btn (chars "leftshoulder") m.btn_leftshoulder (
                      print_btn (chars "rightshoulder") m.btn_rightshoulder (
                        print_btn (chars "dpup") m.btn_dpup (
                          print_btn (chars "dpleft") m.btn_dpleft (
                            print_btn (chars "dpdown") m.btn_dpdown (
                              print_btn (chars "dpright") m.btn_dpright (
                                print_hat (chars "dpup") m.hat_dpup m.hat_dir_dpup (
                                  print_hat (chars "dpleft") m.hat_dpleft m.hat_dir_dpleft (
                                    print_hat (chars "dpdown") m.hat_dpdown m.hat_dir_dpdown (
                                      print_hat (chars "dpright") m.hat_dpright m.hat_dir_dpright (
                                        print_abs (chars "leftx") m.abs_leftx (
                                          print_abs (chars "lefty") m.abs_lefty (
                                            print_abs (chars "rightx") m.abs_rightx (
                                              print_abs (chars "righty") m.abs_righty (
                                                print_abs (chars "lefttrigger") m.abs_lefttrigger (
                                                  print_abs (chars "righttrigger")
                                                    m.abs_righttrigger
                                                    (print_btn (chars "lefttrigger")
                                                      m.btn_lefttrigger
                                                      (print_btn (chars "righttrigger")
                                                        m.btn_righttrigger
                                                        (print_btn (chars "misc1") m.btn_misc1 (
                                                          print_btn (chars "paddle1") m.btn_paddle1
                                                            (print_btn (chars "paddle2")
                                                            m.btn_paddle2
                                                            (print_btn (chars "paddle3")
                                                            m.btn_paddle3
                                                            (print_btn (chars "paddle4")
                                                            m.btn_paddle4
                                                            (print_btn (chars "touchpad")
                                                            m.btn_touchpad
                                                            (chars
                                                            "platform:Linux\n")))))))))))))))))))))))))))))))))

unfoldable pub mapping_print : Mapping → Text
unfolding print_options
mapping_print m = m.guid ++ (b',' ∷ (m.name ++ (b',' ∷ print_options m)))
