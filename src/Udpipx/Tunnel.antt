-- ===== src/Udpipx/Tunnel.antt =====
-- What one machine's IPXSendPacket sends is what another one's IPXGetPacket returns.
use vanilla_utilities.Base.{
  ℕ, zero, suc, ◌+◌, ◌≤◌, ◌≡◌, refl, sym, ap, ◌∙◌, arith, length, take, drop, List, [], ◌∷◌, ◌++◌,
  append_assoc, length-append, take-append, drop-append, take-add,
}
use vanilla_utilities.Dbserver.{dest_of}
use vanilla_utilities.Udpipx.{Buffer, payload_max, to_bytes, of_bytes, Udp, receive, message_of}

-- The fields have their sizes.
pub record IsBuffer (b : Buffer) : Type 0 where
  pub check_sum_size : length b.check_sum ≡ 2
  pub length_size : length b.packet_length ≡ 2
  pub control_size : length b.control ≡ 2
  pub dest_size : length b.dest ≡ 10
  pub dest_socket_size : length b.dest_socket ≡ 2
  pub src_size : length b.src ≡ 10
  pub src_socket_size : length b.src_socket ≡ 2
  pub time_size : length b.time ≡ 4

-- The header of `b`, and any bytes behind it.
abbrev pub with_payload : Buffer → List ℕ → Buffer
with_payload b payload = record b { payload = payload }

header : Buffer → List ℕ
header b = to_bytes (with_payload b [])

to_bytes-header : (b : Buffer) (rest : List ℕ) → to_bytes (with_payload b rest) ≡ header b ++ rest
unfolding to_bytes header
to_bytes-header b rest = simp append_assoc refl

header-length : (b : Buffer) → IsBuffer b → length (header b) ≡ 34
unfolding header to_bytes
header-length b v = omega (
  arith,
  length-append {0},
  v.check_sum_size,
  v.length_size,
  v.control_size,
  v.dest_size,
  v.dest_socket_size,
  v.src_size,
  v.src_socket_size,
  v.time_size,
)

of_bytes-to_bytes :
    (b : Buffer) (rest : List ℕ)
    → IsBuffer b
    → of_bytes (to_bytes (with_payload b rest)) ≡ with_payload b (take payload_max rest)
unfolding of_bytes to_bytes
of_bytes-to_bytes b rest v =
    let r30 = b.time ++ rest in
    let r28 = b.src_socket ++ r30 in
    let r18 = b.src ++ r28 in
    let r16 = b.dest_socket ++ r18 in
    let r6 = b.dest ++ r16 in
    let r4 = b.control ++ r6 in
    let r2 = b.packet_length ++ r4 in
    rw
      (
        drop-append 2 b.check_sum r2 v.check_sum_size,
        drop-append 2 b.packet_length r4 v.length_size,
        drop-append 2 b.control r6 v.control_size,
        drop-append 10 b.dest r16 v.dest_size,
        drop-append 2 b.dest_socket r18 v.dest_socket_size,
        drop-append 10 b.src r28 v.src_size,
        drop-append 2 b.src_socket r30 v.src_socket_size,
        drop-append 4 b.time rest v.time_size,
        take-append 2 b.check_sum r2 v.check_sum_size,
        take-append 2 b.packet_length r4 v.length_size,
        take-append 2 b.control r6 v.control_size,
        take-append 10 b.dest r16 v.dest_size,
        take-append 2 b.dest_socket r18 v.dest_socket_size,
        take-append 10 b.src r28 v.src_size,
        take-append 2 b.src_socket r30 v.src_socket_size,
        take-append 4 b.time rest v.time_size,
      )
      refl

-- The message is the header, the content and four bytes more.
message_of-header :
    (beyond content rest : List ℕ) (b : Buffer)
    → IsBuffer b
    → message_of beyond (length content + 38) (with_payload b (content ++ rest))
      ≡ header b ++ (content ++ take 4 (rest ++ beyond))
unfolding message_of
message_of-header beyond content rest b v =
    let size : length content + 38 ≡ 34 + (length content + 4) = omega arith in
    rw
      (
        size,
        to_bytes-header b (content ++ rest),
        append_assoc (header b) (content ++ rest) beyond,
        append_assoc content rest beyond,
      )
      (take-add 34 (length content + 4) (header b) _ (header-length b v)
        ∙ ap (λ (l : List ℕ). header b ++ l)
            (take-add (length content) 4 content (rest ++ beyond) refl))

take-front : (n : ℕ) (xs ys : List ℕ) → length xs ≤ n → take (length xs) (take n (xs ++ ys)) ≡ xs
take-front n [] ys h = refl
take-front zero (x ∷ xs) ys h = absurd (omega arith)
take-front (suc n) (x ∷ xs) ys h = ap (◌∷◌ x) (take-front n xs ys (omega arith))

-- What a receiver holds of a message: the sender's header, and a payload that begins with the content.
pub receive-filled :
    (beyond content rest from : List ℕ) (b : Buffer) (v : Udp)
    → IsBuffer b
    → length content ≤ payload_max
    → (payload : List ℕ) × ((receive
          (record {
            bytes = message_of beyond (length content + 38) (with_payload b (content ++ rest));
            from = from;
          })
          v)
        ≡ record v { packet = with_payload b payload })
      × (take (length content) payload ≡ content)
unfolding receive
receive-filled beyond content rest from b v i few =
    let m = message_of beyond (length content + 38) (with_payload b (content ++ rest)) in
    let old = drop (length m) (to_bytes v.packet) in
    let tail = take 4 (rest ++ beyond) ++ old in
    let front : m ++ old ≡ to_bytes (with_payload b (content ++ tail)) =
      ap (λ (l : List ℕ). l ++ old) (message_of-header beyond content rest b i)
      ∙ append_assoc (header b) (content ++ take 4 (rest ++ beyond)) old
      ∙ ap (λ (l : List ℕ). header b ++ l) (append_assoc content (take 4 (rest ++ beyond)) old)
      ∙ sym (to_bytes-header b (content ++ tail)) in
    (
      take payload_max (content ++ tail),
      ap (λ (p : Buffer). record v { packet = p })
          (ap of_bytes front ∙ of_bytes-to_bytes b (content ++ tail) i),
      take-front payload_max content tail few,
    )

-- The destination, where the server reads it.
dest_of-to_bytes :
    (b : Buffer) (rest : List ℕ) → IsBuffer b → dest_of (to_bytes (with_payload b rest)) ≡ b.dest
unfolding to_bytes
dest_of-to_bytes b rest v =
    let behind = b.dest_socket ++ (b.src ++ (b.src_socket ++ (b.time ++ rest))) in
    let front = b.check_sum ++ (b.packet_length ++ b.control) in
    let size : length front ≡ 6 =
      omega (arith, length-append {0}, v.check_sum_size, v.length_size, v.control_size) in
    let split : to_bytes (with_payload b rest) ≡ front ++ (b.dest ++ behind) =
      simp append_assoc refl in
    ap dest_of split
    ∙ ap (take 10) (drop-append 6 front (b.dest ++ behind) size)
    ∙ take-append 10 b.dest behind v.dest_size

pub dest_of-message :
    (beyond content rest more : List ℕ) (b : Buffer)
    → IsBuffer b
    → dest_of (message_of beyond (length content + 38) (with_payload b (content ++ rest)) ++ more)
      ≡ b.dest
dest_of-message beyond content rest more b v =
    let tail = content ++ take 4 (rest ++ beyond) in
    let e : message_of beyond (length content + 38) (with_payload b (content ++ rest)) ++ more
        ≡ to_bytes (with_payload b (tail ++ more)) =
      ap (λ (l : List ℕ). l ++ more) (message_of-header beyond content rest b v)
      ∙ append_assoc (header b) tail more
      ∙ sym (to_bytes-header b (tail ++ more)) in
    ap dest_of e ∙ dest_of-to_bytes b (tail ++ more) v
