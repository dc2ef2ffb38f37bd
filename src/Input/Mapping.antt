-- ===== src/Input/Mapping.antt =====
-- Mappings of gamepads: `struct mapping` of src/input/mapping.h. `next` is the list they stand in.
pub mod Scan
pub mod Parse
pub mod Print
pub mod Generated
mod Tests
use moonlight_embedded_for_d.Base.{ℕ, ℤ, negsuc, Bool, false, [], Text}

pub record Mapping : Type 0 where
  pub guid : Text
  pub platform : Text
  pub name : Text
  pub reverse_leftx : Bool
  pub reverse_lefty : Bool
  pub reverse_rightx : Bool
  pub reverse_righty : Bool
  pub halfaxis_lefttrigger : ℕ
  pub halfaxis_righttrigger : ℕ
  pub halfaxis_dpright : ℕ
  pub halfaxis_dpleft : ℕ
  pub halfaxis_dpup : ℕ
  pub halfaxis_dpdown : ℕ
  pub abs_leftx : ℤ
  pub abs_lefty : ℤ
  pub abs_rightx : ℤ
  pub abs_righty : ℤ
  pub hat_dpright : ℤ
  pub hat_dpleft : ℤ
  pub hat_dpup : ℤ
  pub hat_dpdown : ℤ
  pub hat_dir_dpright : ℤ
  pub hat_dir_dpleft : ℤ
  pub hat_dir_dpup : ℤ
  pub hat_dir_dpdown : ℤ
  pub btn_dpup : ℤ
  pub btn_dpdown : ℤ
  pub btn_dpleft : ℤ
  pub btn_dpright : ℤ
  pub abs_dpright : ℤ
  pub abs_dpleft : ℤ
  pub abs_dpup : ℤ
  pub abs_dpdown : ℤ
  pub btn_a : ℤ
  pub btn_x : ℤ
  pub btn_y : ℤ
  pub btn_b : ℤ
  pub btn_back : ℤ
  pub btn_start : ℤ
  pub btn_guide : ℤ
  pub btn_leftstick : ℤ
  pub btn_rightstick : ℤ
  pub btn_leftshoulder : ℤ
  pub btn_rightshoulder : ℤ
  pub btn_misc1 : ℤ
  pub btn_paddle1 : ℤ
  pub btn_paddle2 : ℤ
  pub btn_paddle3 : ℤ
  pub btn_paddle4 : ℤ
  pub btn_touchpad : ℤ
  pub abs_lefttrigger : ℤ
  pub abs_righttrigger : ℤ
  pub btn_lefttrigger : ℤ
  pub btn_righttrigger : ℤ

-- A new mapping of a name and a guid, all of whose indices are -1.
abbrev pub unmapped : Text → Text → Mapping
unmapped guid name = record {
  guid = guid;
  platform = [];
  name = name;
  reverse_leftx = false;
  reverse_lefty = false;
  reverse_rightx = false;
  reverse_righty = false;
  halfaxis_lefttrigger = 0;
  halfaxis_righttrigger = 0;
  halfaxis_dpright = 0;
  halfaxis_dpleft = 0;
  halfaxis_dpup = 0;
  halfaxis_dpdown = 0;
  abs_leftx = negsuc 0;
  abs_lefty = negsuc 0;
  abs_rightx = negsuc 0;
  abs_righty = negsuc 0;
  hat_dpright = negsuc 0;
  hat_dpleft = negsuc 0;
  hat_dpup = negsuc 0;
  hat_dpdown = negsuc 0;
  hat_dir_dpright = negsuc 0;
  hat_dir_dpleft = negsuc 0;
  hat_dir_dpup = negsuc 0;
  hat_dir_dpdown = negsuc 0;
  btn_dpup = negsuc 0;
  btn_dpdown = negsuc 0;
  btn_dpleft = negsuc 0;
  btn_dpright = negsuc 0;
  abs_dpright = negsuc 0;
  abs_dpleft = negsuc 0;
  abs_dpup = negsuc 0;
  abs_dpdown = negsuc 0;
  btn_a = negsuc 0;
  btn_x = negsuc 0;
  btn_y = negsuc 0;
  btn_b = negsuc 0;
  btn_back = negsuc 0;
  btn_start = negsuc 0;
  btn_guide = negsuc 0;
  btn_leftstick = negsuc 0;
  btn_rightstick = negsuc 0;
  btn_leftshoulder = negsuc 0;
  btn_rightshoulder = negsuc 0;
  btn_misc1 = negsuc 0;
  btn_paddle1 = negsuc 0;
  btn_paddle2 = negsuc 0;
  btn_paddle3 = negsuc 0;
  btn_paddle4 = negsuc 0;
  btn_touchpad = negsuc 0;
  abs_lefttrigger = negsuc 0;
  abs_righttrigger = negsuc 0;
  btn_lefttrigger = negsuc 0;
  btn_righttrigger = negsuc 0;
}
