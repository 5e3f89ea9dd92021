-- ===== src/Serport.antt =====
-- net/serport.c, the byte level of the serial port. The functions that the program above supplies,
-- SerialByteReceived and SerialMoreTXData, are the section's parameters over its state `S`.
-- The UART is two streams of bytes: those that it has ready, and those that it was given. The
-- counters of net/pktstats.h are left out.
use vanilla_utilities.Base.{
  ℕ, zero, suc, ◌+◌, ltb, ◌==◌, length, get_or, if◌then◌else◌, Bool, true, false, not, List, [],
  ◌∷◌, ◌++◌,
}

-- The static variables, with the bytes `line` that the receive register will give and the bytes
-- `output` that the transmit register got. `tx_buffer` is `serial_tx_buffer`.
pub record Port : Type 0 where
  pub receiving : Bool
  pub transmitting : Bool
  pub tx_buffer : List ℕ
  pub tx_index : ℕ
  pub tx_bytes : ℕ
  pub line : List ℕ
  pub output : List ℕ

unfoldable pub disable_receive : Port → Port
disable_receive p = if p.receiving then record p { receiving = false } else p

unfoldable pub transmit_next_byte : Port → Port
transmit_next_byte p = record p {
  output = p.output ++ get_or p.tx_buffer p.tx_index 0 ∷ [];
  tx_index = p.tx_index + 1;
  transmitting = true;
}

-- SerialByteReceived may act on the port itself, by JumpStart.
module _ {S : Type 0} (received : ℕ → Port → S → Bool × Port × S) where
  unfoldable pub do_receive_byte : ℕ → Port → S → Port × S
  unfolding disable_receive
  do_receive_byte b p s =
      let (stored, q, t) = received b p s in (if stored then q else disable_receive q, t)

  -- PollSerialReceive's loop over the bytes that are ready.
  unfoldable pub receive_loop : List ℕ → Port → S → Port × S
  unfolding do_receive_byte
  receive_loop [] p s = (p, s)
  receive_loop (b ∷ line) p s = let (q, t) = do_receive_byte b p s in receive_loop line q t

  unfoldable pub poll_serial_receive : Port → S → Port × S
  unfolding receive_loop
  poll_serial_receive p s = receive_loop p.line (record p { line = [] }) s

  unfoldable pub resume_receive : Port → S → Port × S
  unfolding poll_serial_receive
  resume_receive p s =
      if p.receiving then (p, s) else poll_serial_receive (record p { receiving = true }) s

module _ {S : Type 0} (more_tx_data : S → List ℕ × S) where
  -- RefillTXBuffer: is there anything to send?
  unfoldable pub refill_tx_buffer : Port → S → Bool × Port × S
  refill_tx_buffer p s =
      let (bytes, t) = more_tx_data s in
      (
        not (length bytes == 0),
        record p { tx_buffer = bytes; tx_bytes = length bytes; tx_index = 0 },
        t,
      )

  -- `serial_tx_index < serial_tx_bytes || RefillTXBuffer()`, and the byte that follows.
  unfoldable pub transmit_or : (Port → Port) → Port → S → Bool × Port × S
  unfolding refill_tx_buffer transmit_next_byte
  transmit_or idle p s =
      if ltb p.tx_index p.tx_bytes
      then (true, transmit_next_byte p, s)
      else (let (some_bytes, q, t) = refill_tx_buffer p s in
          if some_bytes then (true, transmit_next_byte q, t) else (false, idle q, t))

  unfoldable pub jump_start : Port → S → Port × S
  unfolding transmit_or
  jump_start p s =
      if p.transmitting then (p, s) else (let (sent, q, t) = transmit_or (λ r. r) p s in (q, t))

  -- ISR16550 on IIR_TX_HOLDING_REGISTER_INTERRUPT: `k` rounds left of 16.
  unfoldable pub transmit_loop : ℕ → Port → S → Port × S
  unfolding transmit_or
  transmit_loop zero p s = (p, s)
  transmit_loop (suc k) p s =
      let (sent, q, t) = transmit_or (λ r. record r { transmitting = false }) p s in
      let next = transmit_loop k q t in if sent then next else (q, t)

-- What an interrupt handler reads in the identification register. With a transmit interrupt comes the
-- number of bytes that the 8250 takes before its holding register is full.
pub data Interrupt : Type 0 where
  modem_status_interrupt line_status_interrupt rx_data_ready : Interrupt
  tx_holding_register : ℕ → Interrupt

module _ {S : Type 0} (received : ℕ → Port → S → Bool × Port × S)
    (more_tx_data : S → List ℕ × S) where
  -- One byte from the receive register, which has one at such an interrupt.
  pub receive_one : List ℕ → Port → S → Port × S
  receive_one [] p s = (p, s)
  receive_one (b ∷ line) p s = do_receive_byte received b (record p { line = line }) s

  -- ISR8250. The status registers of the first two interrupts are read and not used.
  pub isr_8250 : List Interrupt → Port → S → Port × S
  isr_8250 [] p s = (p, s)
  isr_8250 (modem_status_interrupt ∷ more) p s = isr_8250 more p s
  isr_8250 (line_status_interrupt ∷ more) p s = isr_8250 more p s
  isr_8250 (rx_data_ready ∷ more) p s = let (q, t) = receive_one p.line p s in isr_8250 more q t
  isr_8250 (tx_holding_register k ∷ more) p s =
      let (q, t) = transmit_loop more_tx_data k p s in isr_8250 more q t

  -- ISR16550.
  pub isr_16550 : List Interrupt → Port → S → Port × S
  isr_16550 [] p s = (p, s)
  isr_16550 (modem_status_interrupt ∷ more) p s = isr_16550 more p s
  isr_16550 (line_status_interrupt ∷ more) p s = isr_16550 more p s
  isr_16550 (rx_data_ready ∷ more) p s =
      let (q, t) = poll_serial_receive received p s in isr_16550 more q t
  isr_16550 (tx_holding_register k ∷ more) p s =
      let (q, t) = transmit_loop more_tx_data 16 p s in isr_16550 more q t
