-- ===== src/Ctrl/Tests.antt =====
-- A joystick, and a demo of one tic.
use vanilla_utilities.Base.{◌≤◌, ◌≡◌, refl, arith, replicate, false, [], ◌∷◌, ◌++◌}
use vanilla_utilities.Base.Int.{pos, negsuc, abs, int16, ◌-ℤ◌, ◌*ℤ◌, ◌/ℤ◌}
use vanilla_utilities.Ctrl.Axis.{adjust_axis_value, clamp, dead_range, scale, Ticcmd}
use vanilla_utilities.Ctrl.Axis.Bounds.{axis, IsCalibrated, adjust_axis_value-bounds}
use vanilla_utilities.Ctrl.Replay.{open_demo, replay_all}
use vanilla_utilities.Ctrl.Replay.Order.{
  DemoTic, AreTics, demo_bytes, with_demo, replay_all-open_demo,
}

calibrated : IsCalibrated 100 900 500 20
calibrated = record {
  left = omega arith;
  right = omega arith;
  counts = omega arith;
  fits = omega arith;
}

adjust_axis_value-bounds_example :
    (abs (adjust_axis_value (axis 100 900 500 20) (pos 33) (pos 50)) ≤ 50)
    × (adjust_axis_value (axis 100 900 500 20) (pos 67) (pos 50) ≡ pos 50)
    × (adjust_axis_value (axis 100 900 500 20) (pos 933) (pos 50) ≡ pos 0 -ℤ pos 50)
    × (adjust_axis_value (axis 100 900 500 20) (pos 512) (pos 50) ≡ pos 0)
    × (adjust_axis_value (axis 100 900 500 20) (pos 488) (pos 50) ≡ pos 0)
adjust_axis_value-bounds_example =
    adjust_axis_value-bounds 100 900 500 20 calibrated (pos 50) (omega arith) 33 12 (omega arith)
      (omega arith) (omega arith)

-- Half the way to the end is half the speed.
half_way : adjust_axis_value (axis 100 900 500 20) (pos 300) (pos 50) ≡ pos 25
unfolding adjust_axis_value clamp dead_range scale int16 ◌-ℤ◌ ◌/ℤ◌ ◌*ℤ◌
half_way = refl

abbrev still : Ticcmd
still = record {
  forwardmove = pos 0;
  sidemove = pos 0;
  angleturn = pos 0;
  buttons = 0;
  buttons2 = 0;
  inventoryitem = 0;
}

-- Forward, to the left, and a turn to the right.
abbrev recorded : DemoTic
recorded = record {
  forward = pos 25;
  side = negsuc 23;
  turn = negsuc 1;
  pressed = 1;
  pressed2 = 0;
  item = 0;
}

recorded-AreTics : AreTics (recorded ∷ [])
unfolding AreTics
recorded-AreTics =
    (record { forward_fits = omega arith; side_fits = omega arith; turn_fits = omega arith }, tt)

-- Three bytes are behind the mark of the end.
replay_all-open_demo_example :
    replay_all false
      (open_demo false (replicate 13 1 ++ demo_bytes false (recorded ∷ []) (9 ∷ 9 ∷ 9 ∷ [])))
      (still ∷ still ∷ [])
    ≡ with_demo false (recorded ∷ []) (still ∷ still ∷ [])
replay_all-open_demo_example =
    replay_all-open_demo false (replicate 13 1) (recorded ∷ []) (9 ∷ 9 ∷ 9 ∷ [])
      (still ∷ still ∷ []) refl recorded-AreTics (omega arith)
