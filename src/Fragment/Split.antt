-- ===== src/Fragment/Split.antt =====
-- FragmentSendPacket cuts a packet up, with no byte lost.
use vanilla_utilities.Base.{
  ℕ, zero, suc, ◌+◌, ◌*◌, ◌≡◌, ◌≤◌, refl, ap, ◌∙◌, arith, length, take, drop, List, [], ◌∷◌, ◌++◌,
  take-append-drop, length-take, length-drop,
}
use vanilla_utilities.Fragment.{Fragment, send_loop, fragment_send_packet}

-- The payloads of fragments, one after the other.
abbrev payloads : List Fragment → List ℕ
payloads [] = []
payloads (f ∷ fragments) = f.payload ++ payloads fragments

abbrev Fits : List Fragment → Type 0
Fits [] = Unit {0}
Fits (f ∷ fragments) = (length f.payload ≤ 500) × Fits fragments

payloads-send_loop :
    (k i n seq : ℕ) (bytes : List ℕ)
    → length bytes ≤ k * 500
    → payloads (send_loop k i n seq bytes) ≡ bytes
unfolding send_loop
payloads-send_loop zero i n seq [] h = refl
payloads-send_loop zero i n seq (c ∷ bytes) h = absurd (omega arith)
payloads-send_loop (suc k) i n seq bytes h =
    ap (λ (l : List ℕ). take 500 bytes ++ l)
      (payloads-send_loop k (i + 1) n seq (drop 500 bytes)
        (rw (length-drop 500 bytes) (omega arith)))
    ∙ take-append-drop 500 bytes

send_loop-Fits : (k i n seq : ℕ) (bytes : List ℕ) → Fits (send_loop k i n seq bytes)
unfolding send_loop
send_loop-Fits zero i n seq bytes = tt
send_loop-Fits (suc k) i n seq bytes =
    (rw (length-take 500 bytes) (omega arith), send_loop-Fits k (i + 1) n seq (drop 500 bytes))

-- The payloads of the fragments that FragmentSendPacket sends make up the packet, in order, and
-- none has more than 500 bytes.
payloads-fragment_send_packet :
    (bytes : List ℕ) (send_seq : ℕ)
    → let (fragments, next_seq) = fragment_send_packet bytes send_seq in
      (payloads fragments ≡ bytes) × Fits fragments
unfolding fragment_send_packet
payloads-fragment_send_packet bytes send_seq =
    (payloads-send_loop _ 0 _ send_seq bytes (omega arith), send_loop-Fits _ 0 _ send_seq bytes)
