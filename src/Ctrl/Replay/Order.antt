-- ===== src/Ctrl/Replay/Order.antt =====
-- The tics that a demo of ctrl/replay.c gives, against the format of a demo file.
use vanilla_utilities.Base.{
  ℕ, zero, suc, ◌-◌, ◌*◌, ◌^◌, ◌<◌, ◌≤◌, ◌≡◌, ◌==◌, refl, ap, ◌∙◌, arith, ltb, length, take, drop,
  drop-append, Bool, true, false, ◌||◌, List, [], ◌∷◌, ◌++◌,
}
use vanilla_utilities.Base.Int.{ℤ, pos, negsuc, int16, abs, ◌*ℤ◌}
use vanilla_utilities.Ctrl.Axis.{Ticcmd, int8}
use vanilla_utilities.Ctrl.Replay.{open_demo, set_tic, replay_callback, replay_all}

-- A tic as a game records it. The turn is in units of 256.
pub record DemoTic : Type 0 where
  pub forward : ℤ
  pub side : ℤ
  pub turn : ℤ
  pub pressed : ℕ
  pub pressed2 : ℕ
  pub item : ℕ

-- The movements and the turn are signed bytes. A forward movement of -128 would be the byte of the
-- mark of the end.
pub record IsTic (d : DemoTic) : Type 0 where
  pub forward_fits : abs d.forward < 128
  pub side_fits : abs d.side < 128
  pub turn_fits : abs d.turn < 128

unfoldable pub AreTics : List DemoTic → Type 0
AreTics [] = Unit {0}
AreTics (d ∷ demo) = IsTic d × AreTics demo

-- A signed number as a byte.
abbrev pub byte : ℤ → ℕ
byte (pos n) = n
byte (negsuc n) = 255 - n

-- The bytes of a tic, in a demo of Strife and in one of another game.
abbrev pub tic_bytes : Bool → DemoTic → List ℕ
tic_bytes true d = byte d.forward ∷ byte d.side ∷ byte d.turn ∷ d.pressed ∷ d.pressed2 ∷ d.item ∷ []
tic_bytes false d = byte d.forward ∷ byte d.side ∷ byte d.turn ∷ d.pressed ∷ []

abbrev pub header_bytes : Bool → ℕ
header_bytes true = 16
header_bytes false = 13

abbrev pub most_behind : Bool → ℕ
most_behind true = 5
most_behind false = 3

-- The tics of a demo, the mark of the end and what may be behind it.
pub demo_bytes : Bool → List DemoTic → List ℕ → List ℕ
demo_bytes is_strife [] behind = 0x80 ∷ behind
demo_bytes is_strife (d ∷ demo) behind = tic_bytes is_strife d ++ demo_bytes is_strife demo behind

-- The game's tic with the recorded one in its place.
abbrev pub played : Bool → DemoTic → Ticcmd → Ticcmd
played true d t = record t {
  forwardmove = d.forward;
  sidemove = d.side;
  angleturn = d.turn *ℤ pos 256;
  buttons = d.pressed;
  buttons2 = d.pressed2;
  inventoryitem = d.item;
}
played false d t = record t {
  forwardmove = d.forward;
  sidemove = d.side;
  angleturn = d.turn *ℤ pos 256;
  buttons = d.pressed;
}

-- The game's tics with those of the demo in their place, as far as it goes.
pub with_demo : Bool → List DemoTic → List Ticcmd → List Ticcmd
with_demo is_strife [] tics = tics
with_demo is_strife (d ∷ demo) [] = []
with_demo is_strife (d ∷ demo) (t ∷ tics) = played is_strife d t ∷ with_demo is_strife demo tics

int8-byte : (z : ℤ) → abs z < 128 → int8 (pos (byte z)) ≡ z
unfolding int8
int8-byte (pos n) h = ground arith
int8-byte (negsuc n) h = ground arith

int16-byte : (z : ℤ) → abs z < 128 → int16 (pos (byte z * 2 ^ 8)) ≡ z *ℤ pos 256
unfolding int16 ◌*ℤ◌
int16-byte (pos n) h = ground arith
int16-byte (negsuc n) h = ground arith

no_mark : (z : ℤ) → abs z < 128 → (byte z == 0x80) ≡ false
no_mark (pos n) h = ground arith
no_mark (negsuc n) h = ground arith

one_tic :
    (is_strife : Bool) (d : DemoTic) (rest : List ℕ) (t : Ticcmd)
    → IsTic d
    → replay_callback is_strife (tic_bytes is_strife d ++ rest) t ≡ (played is_strife d t, rest)
unfolding replay_callback set_tic
one_tic true d rest t v =
    rw
      (
        no_mark d.forward v.forward_fits,
        int8-byte d.forward v.forward_fits,
        int8-byte d.side v.side_fits,
        int16-byte d.turn v.turn_fits,
      )
      refl
one_tic false d rest t v =
    rw
      (
        no_mark d.forward v.forward_fits,
        int8-byte d.forward v.forward_fits,
        int8-byte d.side v.side_fits,
        int16-byte d.turn v.turn_fits,
      )
      refl

empty_stream : (is_strife : Bool) (tics : List Ticcmd) → replay_all is_strife [] tics ≡ tics
unfolding replay_all replay_callback
empty_stream is_strife [] = refl
empty_stream true (t ∷ tics) = ap (◌∷◌ t) (empty_stream true tics)
empty_stream false (t ∷ tics) = ap (◌∷◌ t) (empty_stream false tics)

drop_all : (n : ℕ) (xs : List ℕ) → length xs ≤ n → drop n xs ≡ []
drop_all zero [] h = refl
drop_all zero (x ∷ xs) h = absurd (omega arith)
drop_all (suc n) [] h = refl
drop_all (suc n) (x ∷ xs) h = drop_all n xs (omega arith)

or_true : (b : Bool) → b || true ≡ true
or_true true = refl
or_true false = refl

-- The callback that meets the mark of the end.
at_mark :
    (is_strife : Bool) (behind : List ℕ) (t : Ticcmd)
    → length behind ≤ most_behind is_strife
    → replay_callback is_strife (0x80 ∷ behind) t ≡ (t, [])
unfolding replay_callback
at_mark true behind t h =
    rw (or_true (ltb (length (take 6 (0x80 ∷ behind))) 6))
      (ap (λ (rest : List ℕ). (t, rest)) (drop_all 5 behind h))
at_mark false behind t h =
    rw (or_true (ltb (length (take 4 (0x80 ∷ behind))) 4))
      (ap (λ (rest : List ℕ). (t, rest)) (drop_all 3 behind h))

end_stream :
    (is_strife : Bool) (behind : List ℕ) (tics : List Ticcmd)
    → length behind ≤ most_behind is_strife
    → replay_all is_strife (0x80 ∷ behind) tics ≡ tics
unfolding replay_all
end_stream is_strife behind [] h = refl
end_stream is_strife behind (t ∷ tics) h =
    rw (at_mark is_strife behind t h) (ap (◌∷◌ t) (empty_stream is_strife tics))

replay_demo :
    (is_strife : Bool) (demo : List DemoTic) (behind : List ℕ) (tics : List Ticcmd)
    → AreTics demo
    → length behind ≤ most_behind is_strife
    → replay_all is_strife (demo_bytes is_strife demo behind) tics ≡ with_demo is_strife demo tics
unfolding replay_all demo_bytes with_demo AreTics
replay_demo is_strife [] behind tics ok few = end_stream is_strife behind tics few
replay_demo is_strife (d ∷ demo) behind [] ok few = refl
replay_demo is_strife (d ∷ demo) behind (t ∷ tics) (v, ok) few =
    rw (one_tic is_strife d (demo_bytes is_strife demo behind) t v)
      (ap (◌∷◌ (played is_strife d t)) (replay_demo is_strife demo behind tics ok few))

open_demo-header :
    (is_strife : Bool) (header tics : List ℕ)
    → length header ≡ header_bytes is_strife
    → open_demo is_strife (header ++ tics) ≡ tics
unfolding open_demo
open_demo-header true header tics size = drop-append 16 header tics size
open_demo-header false header tics size = drop-append 13 header tics size

-- A demo file has a header of 13 bytes, or 16 in Strife, then tics of 4 or 6 bytes, then the mark
-- of the end, and behind it at most 3 or 5 bytes. In a tic stand its forward and sideways movement
-- and its turn as signed bytes other than -128, its buttons and, in Strife, its second buttons and
-- its item. The calls of ReplayCallback put these into the game's tics, one after the other, the
-- turn times 256, and from the mark on they leave the game's tics as they are.
pub replay_all-open_demo :
    (is_strife : Bool) (header : List ℕ) (demo : List DemoTic) (behind : List ℕ)
    (tics : List Ticcmd)
    → length header ≡ header_bytes is_strife
    → AreTics demo
    → length behind ≤ most_behind is_strife
    → replay_all is_strife (open_demo is_strife (header ++ demo_bytes is_strife demo behind)) tics
      ≡ with_demo is_strife demo tics
replay_all-open_demo is_strife header demo behind tics size ok few =
    ap (λ (s : List ℕ). replay_all is_strife s tics)
      (open_demo-header is_strife header (demo_bytes is_strife demo behind) size)
    ∙ replay_demo is_strife demo behind tics ok few
