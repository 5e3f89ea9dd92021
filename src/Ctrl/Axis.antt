-- ===== src/Ctrl/Axis.antt =====
-- ctrl/analogjs.c: a joystick's axes and buttons. An `int` has 16 bits; positions and speeds are
-- multiplied as a `long`, which holds the products.
pub mod Scale
pub mod Bounds
use vanilla_utilities.Base.{
  ℕ, zero, ◌+◌, ◌-◌, ◌*◌, ◌/◌, ◌%◌, ◌^◌, ltb, ◌==◌, get_or, if◌then◌else◌, Bool, true, false, not,
  ◌&&◌, ◌||◌, List, [], ◌∷◌, bit_or, bit_and,
}
use vanilla_utilities.Base.Int.{ℤ, pos, negsuc, int16, ◌+ℤ◌, ◌-ℤ◌, ◌*ℤ◌, ◌/ℤ◌, ltb_ℤ}

-- `struct axis`.
pub record Axis : Type 0 where
  pub min : ℤ
  pub max : ℤ
  pub center : ℤ
  pub deadzone_pct : ℤ

unfoldable pub clamp : Axis → ℤ → ℤ
clamp a v = if ltb_ℤ v a.min then a.min else if ltb_ℤ a.max v then a.max else v

-- `range` of the dead zone.
unfoldable pub dead_range : Axis → ℤ
dead_range a = int16 (int16 (int16 (a.max -ℤ a.min) *ℤ a.deadzone_pct) /ℤ pos 200)

unfoldable pub scale : ℤ → ℤ → ℤ → ℤ
scale speed v range = int16 ((speed *ℤ v) /ℤ range)

unfoldable pub adjust_axis_value : Axis → ℤ → ℤ → ℤ
adjust_axis_value a position speed =
    let v = clamp a position in
    let range = dead_range a in
    if ltb_ℤ (int16 (a.center -ℤ range)) v && ltb_ℤ v (int16 (a.center +ℤ range))
    then pos 0
    else if ltb_ℤ v a.center
    then scale speed (int16 (a.center -ℤ v)) (int16 (a.center -ℤ a.min))
    else scale (int16 (pos 0 -ℤ speed)) (int16 (v -ℤ a.center)) (int16 (a.max -ℤ a.center))

-- IS_PRESSED: a button that is pressed reads as 0. The shifted bit is a word.
pub is_pressed : ℕ → ℤ → Bool
is_pressed buttons (negsuc b) = false
is_pressed buttons (pos b) = ltb 20 b || bit_and buttons (2 ^ b % 2 ^ 16) == 0

-- `ticcmd_t`, as far as the programs here use it. The first two are a `signed char`.
pub record Ticcmd : Type 0 where
  pub forwardmove : ℤ
  pub sidemove : ℤ
  pub angleturn : ℤ
  pub buttons : ℕ
  pub buttons2 : ℕ
  pub inventoryitem : ℕ

unfoldable pub int8 : ℤ → ℤ
int8 (pos n) = let m = n % 2 ^ 8 in if ltb m (2 ^ 7) then pos m else negsuc (2 ^ 8 - 1 - m)
int8 (negsuc n) = let m = n % 2 ^ 8 in if ltb m (2 ^ 7) then negsuc m else pos (2 ^ 8 - 1 - m)

abbrev pub forward_move : Bool → ℤ
forward_move run = pos (if run then 0x32 else 0x19)

abbrev pub side_move : Bool → ℤ
side_move run = pos (if run then 0x28 else 0x18)

-- The configuration.
pub record Config : Type 0 where
  pub x_axis : Axis
  pub y_axis : Axis
  pub always_run : Bool
  pub turn_speed : ℤ
  pub novert : Bool
  pub joyb_fire : ℤ
  pub joyb_strafe : ℤ
  pub joyb_use : ℤ
  pub joyb_speed : ℤ
  pub joyb_forward : ℤ

-- What ReadJoystick and ReadButtons find.
pub record Joystick : Type 0 where
  pub joystickx : ℤ
  pub joysticky : ℤ
  pub buttons : ℕ

pub is_running : Config → Joystick → Bool
is_running c j = c.always_run || is_pressed j.buttons c.joyb_speed

pub turn : Config → Joystick → Ticcmd → Ticcmd
turn c j t =
    let run = is_running c j in
    if is_pressed j.buttons c.joyb_strafe
    then record t {
      sidemove =
          int8 (t.sidemove +ℤ adjust_axis_value c.x_axis j.joystickx (pos 0 -ℤ side_move run));
    }
    else record t {
      angleturn = int16 (t.angleturn +ℤ adjust_axis_value c.x_axis j.joystickx c.turn_speed);
    }

pub walk : Config → Joystick → Ticcmd → Ticcmd
walk c j t =
    let run = is_running c j in
    if is_pressed j.buttons c.joyb_forward
    then record t { forwardmove = int8 (t.forwardmove +ℤ forward_move run) }
    else if not c.novert
    then record t {
      forwardmove =
          int8 (t.forwardmove +ℤ adjust_axis_value c.y_axis j.joysticky (forward_move run));
    }
    else t

-- BT_ATTACK is 1, and BT_USE 2.
pub press : Config → Joystick → Ticcmd → Ticcmd
press c j t =
    let u : Ticcmd =
      (if is_pressed j.buttons c.joyb_fire then record t { buttons = bit_or t.buttons 1 } else t) in
    if is_pressed j.buttons c.joyb_use then record u { buttons = bit_or u.buttons 2 } else u

pub control_callback : Config → Joystick → Ticcmd → Ticcmd
control_callback c j t = press c j (walk c j (turn c j t))
