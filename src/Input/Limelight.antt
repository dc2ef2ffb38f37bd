-- ===== src/Input/Limelight.antt =====
-- The calls of moonlight-common-c by which src/input sends to the host, as a history, newest first.
use moonlight_embedded_for_d.Base.{ℕ, ℤ, pos, Bool, true, false, List, [], ◌∷◌}

-- The buttons of `LiSendMouseButtonEvent`.
pub data MouseButton : Type 0 where
  left middle right x1 x2 : MouseButton

-- The event types of `LiSendTouchEvent`.
pub data TouchEvent : Type 0 where
  down move up cancel_all : TouchEvent

-- What `LiSendMultiControllerEvent` tells of a gamepad; the buttons are a mask.
pub record Controls : Type 0 where
  pub buttons : ℕ
  pub left_trigger : ℕ
  pub right_trigger : ℕ
  pub left_stick_x : ℤ
  pub left_stick_y : ℤ
  pub right_stick_x : ℤ
  pub right_stick_y : ℤ

abbrev pub at_rest : Controls
at_rest = record {
  buttons = 0;
  left_trigger = 0;
  right_trigger = 0;
  left_stick_x = pos 0;
  left_stick_y = pos 0;
  right_stick_x = pos 0;
  right_stick_y = pos 0;
}

-- One call. Coordinates are floats of type `F`.
pub data Sent (F : Type 0) : Type 0 where
  button_press : MouseButton → Sent F
  button_release : MouseButton → Sent F
  mouse_position : ℤ → ℤ → Sent F
  mouse_move : ℤ → ℤ → Sent F
  scroll : ℤ → Sent F
  h_scroll : ℤ → Sent F
  touch : TouchEvent → ℤ → F → F → Sent F
  controller : ℤ → ℕ → Controls → Sent F
  controller_arrival : ℤ → ℕ → ℕ → ℕ → ℕ → Sent F
  key_down : ℕ → ℕ → Sent F
  key_up : ℕ → ℕ → Sent F

-- Whether the host holds the left button down after a history.
abbrev pub left_down : {F : Type 0} → List (Sent F) → Bool
left_down [] = false
left_down (button_press left ∷ rest) = true
left_down (button_release left ∷ rest) = false
left_down (e ∷ rest) = left_down rest

-- What the host knows of the gamepad after a history.
abbrev pub host_controls : {F : Type 0} → List (Sent F) → Controls
host_controls [] = at_rest
host_controls (controller id mask controls ∷ rest) = controls
host_controls (e ∷ rest) = host_controls rest
