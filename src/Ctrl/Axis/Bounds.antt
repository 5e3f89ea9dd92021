-- ===== src/Ctrl/Axis/Bounds.antt =====
-- How fast a calibrated axis of ctrl/analogjs.c moves the player.
use vanilla_utilities.Base.{
  ℕ, ◌+◌, ◌-◌, ◌*◌, ◌/◌, ◌^◌, ◌<◌, ◌≤◌, ◌≡◌, refl, ap, ◌∙◌, arith, ltb, ◌==◌, if◌then◌else◌, Bool,
  true, false, ◌&&◌, Bool-cases, inl, inr,
}
use vanilla_utilities.Base.Int.{ℤ, pos, int16, ◌+ℤ◌, ◌-ℤ◌, ltb_ℤ, abs, int16_small}
use vanilla_utilities.Ctrl.Axis.{Axis, clamp, dead_range, scale, adjust_axis_value}
use vanilla_utilities.Ctrl.Axis.Scale.{
  sub_pos, mul_pos, div_pos, int16_count, scale_le, scale_whole, scale_none,
}

-- The positions of the axis, the center between the ends, in the joystick's counts.
pub record IsCalibrated (low high middle pct : ℕ) : Type 0 where
  pub left : low < middle
  pub right : middle < high
  pub counts : high < 2 ^ 14
  pub fits : (high - low) * pct < 2 ^ 15

abbrev pub axis : ℕ → ℕ → ℕ → ℕ → Axis
axis low high middle pct = record {
  min = pos low;
  max = pos high;
  center = pos middle;
  deadzone_pct = pos pct;
}

module _ (low high middle pct : ℕ) (v : IsCalibrated low high middle pct) where
  -- Half the width of the dead zone.
  width : ℕ
  width = (high - low) * pct / 200

  width_small : width < 164
  unfolding width
  width_small = let fits = v.fits in omega arith

  dead_range-width : dead_range (axis low high middle pct) ≡ pos width
  unfolding dead_range width
  dead_range-width =
      let l = v.left in
      let r = v.right in
      let c = v.counts in
      let fits = v.fits in
      rw
        (
          sub_pos high low (omega arith),
          int16_count (high - low) (omega arith),
          mul_pos (high - low) pct,
          int16_count ((high - low) * pct) fits,
          div_pos ((high - low) * pct) 200,
        )
        (int16_count ((high - low) * pct / 200) (omega arith))

  -- The position between the ends.
  placed : ℕ → ℕ
  placed x = if ltb x low then low else if ltb high x then high else x

  clamp-placed : (x : ℕ) → clamp (axis low high middle pct) (pos x) ≡ pos (placed x)
  unfolding clamp placed
  clamp-placed x = ground arith

  placed_between : (x : ℕ) → (low ≤ placed x) × (placed x ≤ high)
  unfolding placed
  placed_between x = let l = v.left in let r = v.right in (ground arith, ground arith)

  -- Is a position in the dead zone?
  is_dead : ℕ → Bool
  is_dead u = ltb middle (u + width) && ltb u (middle + width)

  left_edge : (u : ℕ) → ltb_ℤ (int16 (pos middle -ℤ pos width)) (pos u) ≡ ltb middle (u + width)
  unfolding ◌-ℤ◌
  left_edge u =
      let r = v.right in
      let c = v.counts in
      let w = width_small in
      let small : int16 (pos middle -ℤ pos width) ≡ pos middle -ℤ pos width =
        int16_small (pos middle -ℤ pos width) (ground arith) in
      rw small (ground arith)

  right_edge : (u : ℕ) → ltb_ℤ (pos u) (int16 (pos middle +ℤ pos width)) ≡ ltb u (middle + width)
  unfolding ◌+ℤ◌
  right_edge u =
      let r = v.right in
      let c = v.counts in
      let w = width_small in
      let small : int16 (pos middle +ℤ pos width) ≡ pos middle +ℤ pos width =
        int16_small (pos middle +ℤ pos width) (ground arith) in
      rw small (ground arith)

  module _ (speed : ℤ) (size : abs speed < 2 ^ 15) where
    value : ℕ → ℤ
    value x = adjust_axis_value (axis low high middle pct) (pos x) speed

    value_dead : (x : ℕ) → is_dead (placed x) ≡ true → value x ≡ pos 0
    unfolding value adjust_axis_value is_dead
    value_dead x h =
        rw (clamp-placed x, dead_range-width, left_edge (placed x), right_edge (placed x), h) refl

    value_left :
        (x : ℕ)
        → is_dead (placed x) ≡ false
        → placed x < middle
        → value x ≡ scale speed (pos (middle - placed x)) (pos (middle - low))
    unfolding value adjust_axis_value is_dead
    value_left x h l =
        let r = v.right in
        let left = v.left in
        let c = v.counts in
        let test : ltb_ℤ (pos (placed x)) (pos middle) ≡ true = ground arith in
        rw
          (
            clamp-placed x,
            dead_range-width,
            left_edge (placed x),
            right_edge (placed x),
            h,
            test,
            sub_pos middle (placed x) (omega arith),
            sub_pos middle low (omega arith),
            int16_count (middle - placed x) (omega arith),
            int16_count (middle - low) (omega arith),
          )
          refl

    opposite : int16 (pos 0 -ℤ speed) ≡ pos 0 -ℤ speed
    unfolding ◌-ℤ◌
    opposite = int16_small (pos 0 -ℤ speed) (ground arith)

    opposite-abs : abs (pos 0 -ℤ speed) ≡ abs speed
    unfolding ◌-ℤ◌
    opposite-abs = ground arith

    value_right :
        (x : ℕ)
        → is_dead (placed x) ≡ false
        → middle ≤ placed x
        → value x ≡ scale (pos 0 -ℤ speed) (pos (placed x - middle)) (pos (high - middle))
    unfolding value adjust_axis_value is_dead
    value_right x h l =
        let r = v.right in
        let c = v.counts in
        let (a, b) = placed_between x in
        let test : ltb_ℤ (pos (placed x)) (pos middle) ≡ false = ground arith in
        rw
          (
            clamp-placed x,
            dead_range-width,
            left_edge (placed x),
            right_edge (placed x),
            h,
            test,
            opposite,
            sub_pos (placed x) middle l,
            sub_pos high middle (omega arith),
            int16_count (placed x - middle) (omega arith),
            int16_count (high - middle) (omega arith),
          )
          refl

    value_le : (x : ℕ) → abs (value x) ≤ abs speed
    value_le x = elim (Bool-cases (is_dead (placed x))) [
      | inl dead ↦ rw (value_dead x dead) (omega arith)
      | inr alive ↦
          let (a, b) = placed_between x in
          let left = v.left in
          let right = v.right in
          let same = opposite-abs in
          elim (Bool-cases (ltb (placed x) middle)) [
            | inl before ↦
                let l : placed x < middle = ground arith in
                rw (value_left x alive l) (
                  scale_le speed (middle - placed x) (middle - low) size (omega arith)
                    (omega arith))
            | inr behind ↦
                let l : middle ≤ placed x = ground arith in
                rw (value_right x alive l) (
                  let s =
                    scale_le (pos 0 -ℤ speed) (placed x - middle) (high - middle) (omega arith)
                      (omega arith) (omega arith) in
                  omega arith)
          ]
    ]

    placed-low : (x : ℕ) → placed (low - x) ≡ low
    unfolding placed
    placed-low x = let l = v.left in let r = v.right in ground arith

    placed-high : (x : ℕ) → placed (high + x) ≡ high
    unfolding placed
    placed-high x = let l = v.left in let r = v.right in ground arith

    value-low : (x : ℕ) → low + width ≤ middle → value (low - x) ≡ speed
    unfolding is_dead
    value-low x h =
        let e = placed-low x in
        let left = v.left in
        let alive : is_dead (placed (low - x)) ≡ false = rw e (ground arith) in
        value_left (low - x) alive (omega arith)
        ∙ ap (λ (u : ℕ). scale speed (pos (middle - u)) (pos (middle - low))) e
        ∙ scale_whole speed (middle - low) size (omega arith)

    value-high : (x : ℕ) → middle + width ≤ high → value (high + x) ≡ pos 0 -ℤ speed
    unfolding is_dead
    value-high x h =
        let e = placed-high x in
        let right = v.right in
        let same = opposite-abs in
        let alive : is_dead (placed (high + x)) ≡ false = rw e (ground arith) in
        value_right (high + x) alive (omega arith)
        ∙ ap (λ (u : ℕ). scale (pos 0 -ℤ speed) (pos (u - middle)) (pos (high - middle))) e
        ∙ scale_whole (pos 0 -ℤ speed) (high - middle) (omega arith) (omega arith)

    -- Without a dead zone the center alone gives no speed.
    value_center : width ≡ 0 → value middle ≡ pos 0
    unfolding is_dead placed
    value_center h =
        let left = v.left in
        let right = v.right in
        let same = opposite-abs in
        let at : placed middle ≡ middle = ground arith in
        let alive : is_dead (placed middle) ≡ false = ground arith in
        value_right middle alive (omega arith)
        ∙ ap (λ (u : ℕ). scale (pos 0 -ℤ speed) (pos (u - middle)) (pos (high - middle))) at
        ∙ ap (λ (u : ℕ). scale (pos 0 -ℤ speed) (pos u) (pos (high - middle))) (omega arith)
        ∙ scale_none (pos 0 -ℤ speed) (high - middle) (omega arith) (omega arith)

    value_middle :
        (k : ℕ)
        → k ≤ width - 1
        → low + width ≤ middle
        → middle + width ≤ high
        → (value (middle + k) ≡ pos 0) × (value (middle - k) ≡ pos 0)
    unfolding is_dead placed
    value_middle k h l r = elim (Bool-cases (width == 0)) [
      | inl none_dead ↦
          let center = value_center (ground arith) in
          let after : middle + k ≡ middle = ground arith in
          let before : middle - k ≡ middle = ground arith in
          (ap value after ∙ center, ap value before ∙ center)
      | inr some_dead ↦
          (value_dead (middle + k) (ground arith), value_dead (middle - k) (ground arith))
    ]

    -- The ends and the center of an axis are counts below 2^14 in their order, the dead zone,
    -- which may be empty, lies between the ends, its product fits an `int`, and the speed is an
    -- `int` other than -2^15. AdjustAxisValue then gives at any position no more than the speed
    -- either way, the speed itself at the lower end and below it, its opposite at the upper end
    -- and above it, and 0 at the center and where the position is nearer to it than the dead
    -- zone's half width.
    pub adjust_axis_value-bounds :
        (x k : ℕ)
        → k ≤ (high - low) * pct / 200 - 1
        → low + (high - low) * pct / 200 ≤ middle
        → middle + (high - low) * pct / 200 ≤ high
        → let at : ℕ → ℤ = λ p. adjust_axis_value (axis low high middle pct) (pos p) speed in
          (abs (at x) ≤ abs speed)
          × (at (low - x) ≡ speed)
          × (at (high + x) ≡ pos 0 -ℤ speed)
          × (at (middle + k) ≡ pos 0)
          × (at (middle - k) ≡ pos 0)
    unfolding value width
    adjust_axis_value-bounds x k h l r =
        let (one, other) = value_middle k h l r in
        (value_le x, value-low x l, value-high x r, one, other)
