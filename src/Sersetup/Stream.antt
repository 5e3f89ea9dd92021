-- ===== src/Sersetup/Stream.antt =====
-- The output queue and the serial port's transmit buffer together: bytes go out in order.
use vanilla_utilities.Base.{
  ℕ, zero, suc, ◌+◌, ◌≡◌, ◌≤◌, ◌<◌, refl, ap, sym, ◌∙◌, arith, length, ltb, get_or, take, drop,
  ◌==◌, not, Bool, true, false, Bool-cases, inl, inr, List, [], ◌∷◌, ◌++◌, append_assoc,
  take-append-drop, if◌then◌else◌,
}
use vanilla_utilities.Serport.{
  Port, transmit_next_byte, refill_tx_buffer, transmit_or, transmit_loop, jump_start,
}
use vanilla_utilities.Sersetup.{Que, serial_more_tx_data, put_bytes, make_room, write_buffer}
use vanilla_utilities.Sersetup.Queue.{IsQue, contents, serial_more_tx_data_lem, make_room-contents}

-- What has gone out, what the port holds and what waits in the queue.
abbrev pub stream : Port → Que → List ℕ
stream p q = p.output ++ (drop p.tx_index p.tx_buffer ++ contents q)

pub record Steady (p : Port) (q : Que) : Type 0 where
  pub queue : IsQue q
  pub loaded : p.tx_bytes ≡ length p.tx_buffer

-- A step that keeps both and neither loses, repeats nor reorders a byte.
pub record Sends (p : Port) (q : Que) (p' : Port) (q' : Que) : Type 0 where
  pub steady : Steady p' q'
  pub same : stream p' q' ≡ stream p q

drop-next : (xs : List ℕ) (i : ℕ) → i < length xs → drop i xs ≡ get_or xs i 0 ∷ drop (i + 1) xs
drop-next [] i h = absurd (omega arith)
drop-next (x ∷ xs) zero h = refl
drop-next (x ∷ xs) (suc i) h =
    let e : suc i + 1 ≡ suc (i + 1) = omega arith in rw e (drop-next xs i (omega arith))

drop-all : (xs : List ℕ) (i : ℕ) → length xs ≤ i → drop i xs ≡ []
drop-all [] zero h = refl
drop-all [] (suc i) h = refl
drop-all (x ∷ xs) zero h = absurd (omega arith)
drop-all (x ∷ xs) (suc i) h = drop-all xs i (omega arith)

transmit_next_byte-Sends :
    (p : Port) (q : Que)
    → Steady p q
    → p.tx_index < length p.tx_buffer
    → Sends p q (transmit_next_byte p) q
unfolding transmit_next_byte
transmit_next_byte-Sends p q v h = record {
  steady = record { queue = v.queue; loaded = v.loaded };
  same =
      append_assoc p.output (get_or p.tx_buffer p.tx_index 0 ∷ [])
        (drop (p.tx_index + 1) p.tx_buffer ++ contents q)
      ∙ ap (λ (l : List ℕ). p.output ++ (l ++ contents q))
          (sym (drop-next p.tx_buffer p.tx_index h));
}

refill_tx_buffer-Sends :
    (p : Port) (q : Que)
    → Steady p q
    → length p.tx_buffer ≤ p.tx_index
    → let (some_bytes, p', q') = refill_tx_buffer serial_more_tx_data p q in
      Sends p q p' q' × (p'.tx_index ≡ 0) × (some_bytes ≡ not (length p'.tx_buffer == 0))
unfolding refill_tx_buffer
refill_tx_buffer-Sends p q v h =
    let (w, e, d) = serial_more_tx_data_lem q v.queue in
    (
      record {
        steady = record { queue = w; loaded = refl };
        same =
            ap (λ (l : List ℕ). p.output ++ l)
              (ap (λ (l : List ℕ). l ++ contents (serial_more_tx_data q).1) e
                ∙ ap (λ (l : List ℕ). take 16 (contents q) ++ l) d
                ∙ take-append-drop 16 (contents q)
                ∙ ap (λ (l : List ℕ). l ++ contents q) (sym (drop-all p.tx_buffer p.tx_index h)));
      },
      refl,
      refl,
    )

Sends-trans :
    {p p' p'' : Port} {q q' q'' : Que} → Sends p q p' q' → Sends p' q' p'' q'' → Sends p q p'' q''
Sends-trans a b = record { steady = b.steady; same = b.same ∙ a.same }

-- `idle` is what the caller does where nothing is left.
transmit_or-Sends :
    (idle : Port → Port) (p : Port) (q : Que)
    → ((r : Port) (t : Que) → Steady r t → Sends r t (idle r) t)
    → Steady p q
    → let (sent, p', q') = transmit_or serial_more_tx_data idle p q in Sends p q p' q'
unfolding transmit_or
transmit_or-Sends idle p q rests v = elim (Bool-cases (ltb p.tx_index p.tx_bytes)) [
  | inl more ↦ rw more (transmit_next_byte-Sends p q v (ground (arith, v.loaded)))
  | inr used ↦
      let (some_bytes, p', q') = refill_tx_buffer serial_more_tx_data p q in
      let (s, first, filled) = refill_tx_buffer-Sends p q v (ground (arith, v.loaded)) in
      elim (Bool-cases some_bytes) [
        | inl some_left ↦
            rw (used, some_left)
              (Sends-trans s (transmit_next_byte-Sends p' q' s.steady (ground (arith, filled))))
        | inr none_left ↦ rw (used, none_left) (Sends-trans s (rests p' q' s.steady))
      ]
]

-- The transmit interrupt on the serial driver's queue, while the queue and the port's buffer are
-- valid: what has gone out, what is in the port's buffer and what waits in the queue is, one after
-- the other, the same before and after it, and both stay valid.
pub transmit_loop-Sends :
    (k : ℕ) (p : Port) (q : Que)
    → Steady p q
    → let (p', q') = transmit_loop serial_more_tx_data k p q in Sends p q p' q'
unfolding transmit_loop
transmit_loop-Sends zero p q v = record { steady = v; same = refl }
transmit_loop-Sends (suc k) p q v =
    let (sent, p', q') =
      transmit_or serial_more_tx_data (λ r. record r { transmitting = false }) p q in
    let s =
      transmit_or-Sends (λ r. record r { transmitting = false }) p q
        (λ r t w. record { steady = record { queue = w.queue; loaded = w.loaded }; same = refl })
        v in
    elim (Bool-cases sent) [
      | inl more ↦ rw more (Sends-trans s (transmit_loop-Sends k p' q' s.steady))
      | inr over ↦ rw over s
    ]

Sends-if :
    {p : Port} {q : Que} {a b : Port × Que} (busy : Bool)
    → Sends p q a.0 a.1
    → Sends p q b.0 b.1
    → Sends p q (if busy then a else b).0 (if busy then a else b).1
Sends-if true u v = u
Sends-if false u v = v

jump_start-Sends :
    (p : Port) (q : Que)
    → Steady p q
    → let (p', q') = jump_start serial_more_tx_data p q in Sends p q p' q'
unfolding jump_start
jump_start-Sends p q v =
    Sends-if p.transmitting (record { steady = v; same = refl })
      (transmit_or-Sends (λ r. r) p q (λ r t w. record { steady = w; same = refl }) v)

-- WriteBuffer with room for its bytes in a valid queue: what has gone out, what is in the port's
-- buffer and what waits in the queue is, one after the other, the same as before with the bytes
-- behind it.
pub write_buffer-stream :
    (bytes : List ℕ) (p : Port) (q : Que)
    → Steady p q
    → length (contents q) + length bytes ≤ 2048
    → let (p', q') = write_buffer bytes p q in Steady p' q' × (stream p' q' ≡ stream p q ++ bytes)
unfolding write_buffer
write_buffer-stream bytes p q v h =
    let over : ltb 2048 (length (contents q) + length bytes) ≡ false = ground arith in
    let (w, e) = make_room-contents bytes q v.queue (omega arith) in
    let behind : contents (put_bytes bytes (make_room (length bytes) q)) ≡ contents q ++ bytes =
      rw over at e in
    let s =
      jump_start-Sends p (put_bytes bytes (make_room (length bytes) q))
        (record { queue = w; loaded = v.loaded }) in
    (
      s.steady,
      s.same
          ∙ ap (λ (l : List ℕ). p.output ++ (drop p.tx_index p.tx_buffer ++ l)) behind
          ∙ ap (λ (l : List ℕ). p.output ++ l)
              (sym (append_assoc (drop p.tx_index p.tx_buffer) (contents q) bytes))
          ∙ sym (append_assoc p.output (drop p.tx_index p.tx_buffer ++ contents q) bytes),
    )
