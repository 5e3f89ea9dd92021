-- ===== src/Sersetup/Modem/Answer.antt =====
-- Which answer of the modem PollModemResponse of net/sersetup.c waits for.
use vanilla_utilities.Base.{
  ℕ, ◌+◌, ◌≤◌, ◌≡◌, ◌==◌, refl, arith, leb, length, length-append, if◌then◌else◌, Bool, true, false,
  Bool-cases, inl, inr, List, [], ◌∷◌, ◌++◌, append_assoc, append-nil, Option, none, some,
}
use vanilla_utilities.Sersetup.Modem.{has_prefix, Response, take_byte, poll_modem_response}

abbrev state : List ℕ → List ℕ → Bool → Response
state expected buf complete = record { expected = expected; buf = buf; complete = complete }

poll_whole :
    (expected buf more : List ℕ)
    → poll_modem_response more (state expected buf true) ≡ (true, more, state expected buf true)
unfolding poll_modem_response
poll_whole expected buf [] = refl
poll_whole expected buf (c ∷ more) = refl

-- What a poll of the first bytes and a poll of `more` come to.
pub poll_again : List ℕ → Bool × List ℕ × Response → Bool × List ℕ × Response
poll_again more (done, unread, m) =
    if done then (true, unread ++ more, m) else poll_modem_response more m

pieces :
    (bytes more expected buf : List ℕ) (complete : Bool)
    → poll_modem_response (bytes ++ more) (state expected buf complete)
      ≡ poll_again more (poll_modem_response bytes (state expected buf complete))
unfolding poll_modem_response poll_again
pieces [] more expected buf true = poll_whole expected buf more
pieces [] more expected buf false = refl
pieces (c ∷ bytes) more expected buf true = refl
pieces (c ∷ bytes) more expected buf false =
    let n = take_byte c (state expected buf false) in pieces bytes more n.expected n.buf n.complete

pub poll_modem_response-pieces :
    (bytes more : List ℕ) (m : Response)
    → poll_modem_response (bytes ++ more) m ≡ poll_again more (poll_modem_response bytes m)
poll_modem_response-pieces bytes more m = pieces bytes more m.expected m.buf m.complete

-- Every byte of a text can be printed.
unfoldable pub ArePrinted : List ℕ → Type 0
ArePrinted [] = Unit {0}
ArePrinted (c ∷ text) = (32 ≤ c) × ArePrinted text

-- Lines that the buffer holds.
unfoldable pub AreLines : List (List ℕ) → Type 0
AreLines [] = Unit {0}
AreLines (l ∷ lines) = ArePrinted l × (length l ≤ 78) × AreLines lines

-- The bytes of lines, each with CR and LF behind it.
pub lines_bytes : List (List ℕ) → List ℕ
lines_bytes [] = []
lines_bytes (l ∷ lines) = l ++ (13 ∷ 10 ∷ lines_bytes lines)

-- The lines behind the first one that begins with `expected`.
pub behind_answer : List ℕ → List (List ℕ) → Option (List (List ℕ))
behind_answer expected [] = none
behind_answer expected (l ∷ lines) =
    if has_prefix expected l then some lines else behind_answer expected lines

-- `modemresp` as OnModemResponse sets it up, and when the answer has come.
abbrev pub response : List ℕ → Bool → Response
response expected complete = record { expected = expected; buf = []; complete = complete }

poll_line :
    (expected l front rest : List ℕ)
    → ArePrinted l
    → length front + length l ≤ 78
    → poll_modem_response
        (l ++ (13 ∷ 10 ∷ rest))
        (record { expected = expected; buf = front; complete = false })
      ≡ poll_modem_response rest (response expected (has_prefix expected (front ++ l)))
unfolding poll_modem_response take_byte ArePrinted
poll_line expected [] front rest p h =
    let room : (length front == 79) ≡ false = ground arith in rw (room, append-nil front) refl
poll_line expected (c ∷ l) front rest (q, p) h =
    let room : (length front == 79) ≡ false = ground arith in
    let other : (c == 10) ≡ false = ground arith in
    let printed : leb 32 c ≡ true = ground arith in
    let size = length-append front (c ∷ []) in
    let next : (front ++ (c ∷ [])) ++ l ≡ front ++ (c ∷ l) = append_assoc front (c ∷ []) l in
    rw (room, other, printed, ← next)
      (poll_line expected l (front ++ (c ∷ [])) rest p (omega arith))

-- The modem's bytes are lines of at most 78 characters that can be printed, each with CR and LF
-- behind it, and then any bytes. PollModemResponse, on an empty buffer, is complete at the first
-- line that begins with the expected answer and leaves all that is behind it unread; where no line
-- does so, it goes on with the bytes behind the lines, on an empty buffer.
pub poll_modem_response-lines :
    (expected more : List ℕ) (lines : List (List ℕ))
    → AreLines lines
    → poll_modem_response (lines_bytes lines ++ more) (response expected false)
      ≡ (elim (behind_answer expected lines) [
        | none ↦ poll_modem_response more (response expected false)
        | some rest ↦ (true, lines_bytes rest ++ more, response expected true)
      ])
unfolding lines_bytes behind_answer AreLines
poll_modem_response-lines expected more [] ok = refl
poll_modem_response-lines expected more (l ∷ lines) (p, few, ok) =
    let shape = append_assoc l (13 ∷ 10 ∷ lines_bytes lines) more in
    let line = poll_line expected l [] (lines_bytes lines ++ more) p (omega arith) in
    elim (Bool-cases (has_prefix expected l)) [
      | inl here ↦
          let w = poll_whole expected [] (lines_bytes lines ++ more) in
          rw (shape, line, here, w) refl
      | inr other ↦
          rw (shape, line, behind_answer, other) (poll_modem_response-lines expected more lines ok)
    ]
