-- ===== src/Fragment/Gather.antt =====
-- The buffer in which FragmentGetPacket gathers the fragments of a packet.
use vanilla_utilities.Base.{
  ℕ, zero, suc, ◌+◌, ◌-◌, ◌*◌, ◌/◌, ◌%◌, ◌^◌, ◌<◌, ◌≤◌, ◌≡◌, ◌==◌, ◌⊎◌, inl, inr, refl, sym, ap,
  ◌∙◌, arith, length, take, get_or, set, length-set, get_or-set_self, Bool, true, ◌&&◌, Bool-cases,
  List, [], ◌∷◌, ◌++◌, append_assoc, append-nil, none, some, bit_and, bit_or,
}
use vanilla_utilities.Fragment.{
  Fragment, Buffer, no_buffer, first_buffer, or_allocate, find_or_allocate_buffer, write_at,
  add_fragment,
}

-- The byte that holds a fragment's number and how many there are.
abbrev pub code : ℕ → ℕ → ℕ
code j n = bit_or (bit_and j 0xf) (n * 16) % 2 ^ 8

pub code_lem :
    (j n : ℕ) → j < n → n ≤ 4 → (bit_and (code j n) 0x0f ≡ j) × (bit_and (code j n / 16) 0x0f ≡ n)
code_lem zero (suc zero) h k = (refl, refl)
code_lem zero (suc (suc zero)) h k = (refl, refl)
code_lem zero (suc (suc (suc zero))) h k = (refl, refl)
code_lem zero (suc (suc (suc (suc zero)))) h k = (refl, refl)
code_lem (suc zero) (suc (suc zero)) h k = (refl, refl)
code_lem (suc zero) (suc (suc (suc zero))) h k = (refl, refl)
code_lem (suc zero) (suc (suc (suc (suc zero)))) h k = (refl, refl)
code_lem (suc (suc zero)) (suc (suc (suc zero))) h k = (refl, refl)
code_lem (suc (suc zero)) (suc (suc (suc (suc zero)))) h k = (refl, refl)
code_lem (suc (suc (suc zero))) (suc (suc (suc (suc zero)))) h k = (refl, refl)
code_lem j n h k = absurd (omega arith)

received_lem : (j : ℕ) → j < 4 → bit_or (2 ^ j - 1) (2 ^ j) % 2 ^ 16 + 1 ≡ 2 ^ (j + 1)
received_lem zero h = refl
received_lem (suc zero) h = refl
received_lem (suc (suc zero)) h = refl
received_lem (suc (suc (suc zero))) h = refl
received_lem (suc (suc (suc (suc j)))) h = absurd (omega arith)

take-set_next :
    (at c : ℕ) (bytes : List ℕ)
    → at < length bytes
    → take (at + 1) (set bytes at c) ≡ take at bytes ++ c ∷ []
take-set_next at c [] h = absurd (omega arith)
take-set_next zero c (b ∷ bytes) h = refl
take-set_next (suc at) c (b ∷ bytes) h =
    let next : suc at + 1 ≡ suc (at + 1) = omega arith in
    rw next (ap (◌∷◌ b) (take-set_next at c bytes (omega arith)))

-- A write leaves what is before it, and is behind that.
take-write_at :
    (at : ℕ) (payload bytes : List ℕ)
    → at + length payload ≤ length bytes
    → (take (at + length payload) (write_at at payload bytes) ≡ take at bytes ++ payload)
      × (length (write_at at payload bytes) ≡ length bytes)
unfolding write_at
take-write_at at [] bytes h =
    let same : at + 0 ≡ at = omega arith in (rw same (sym (append-nil (take at bytes))), refl)
take-write_at at (c ∷ payload) bytes h =
    let size = length-set bytes at c in
    let (r, l) = take-write_at (at + 1) payload (set bytes at c) (omega arith) in
    let same : at + suc (length payload) ≡ at + 1 + length payload = omega arith in
    (
      rw same (
          r
          ∙ ap (λ (x : List ℕ). x ++ payload) (take-set_next at c bytes (omega arith))
          ∙ append_assoc (take at bytes) (c ∷ []) payload),
      l ∙ size,
    )

abbrev pub is_of : ℕ → ℕ → Buffer → Bool
is_of node seq b = b.remotenode == node && b.seq == seq

first_buffer-set :
    (test : Buffer → Bool) (i j : ℕ) (buffers : List Buffer) (b : Buffer)
    → (first_buffer test i buffers ≡ some (i + j)) ⊎ (first_buffer test i buffers ≡ none)
    → test b ≡ true
    → j < length buffers
    → first_buffer test i (set buffers j b) ≡ some (i + j)
unfolding first_buffer
first_buffer-set test i j [] b h t l = absurd (omega arith)
first_buffer-set test i zero (a ∷ buffers) b h t l = rw t (ap some (omega arith))
first_buffer-set test i (suc j) (a ∷ buffers) b h t l = elim (Bool-cases (test a)) [
  | inl here ↦ absurd (elim h [
    | inl e ↦ let e' = rw here at e in let same : i ≡ i + suc j = cc in omega arith
    | inr e ↦ let e' = rw here at e in cc
  ])
  | inr other ↦ rw other (
      first_buffer-set test (i + 1) j buffers b
        (elim h [
          | inl e ↦ inl ((rw other at e) ∙ ap some (omega arith))
          | inr e ↦ inr (rw other at e)
        ])
        t (omega arith)
      ∙ ap some (omega arith))
]

-- Buffer `i` has the first `j` fragments of a packet, which make up `done`.
pub record Gathers (node seq i j : ℕ) (done : List ℕ) (buffers : List Buffer) : Type 0 where
  pub index : i < length buffers
  pub first :
      (first_buffer (is_of node seq) 0 buffers ≡ some i)
      ⊎ (first_buffer (is_of node seq) 0 buffers ≡ none)
  pub found : find_or_allocate_buffer node seq buffers ≡ (i, buffers)
  pub received : (get_or buffers i no_buffer).received ≡ 2 ^ j - 1
  pub room : length (get_or buffers i no_buffer).bytes ≡ 2048
  pub front : take (j * 500) (get_or buffers i no_buffer).bytes ≡ done

-- The first search finds the buffer that has been written.
first-write :
    (node seq i : ℕ) (b : Buffer) (buffers : List Buffer)
    → (first_buffer (is_of node seq) 0 buffers ≡ some i)
      ⊎ (first_buffer (is_of node seq) 0 buffers ≡ none)
    → b.remotenode ≡ node
    → b.seq ≡ seq
    → i < length buffers
    → first_buffer (is_of node seq) 0 (set buffers i b) ≡ some i
first-write node seq i b buffers h n q l =
    let zero_left : i ≡ 0 + i = omega arith in
    first_buffer-set (is_of node seq) 0 i buffers b
      (elim h [ inl e ↦ inl (e ∙ ap some zero_left) | inr e ↦ inr e ]) (ground arith) l
    ∙ ap some (sym zero_left)

found-write :
    (node seq i : ℕ) (buffers : List Buffer)
    → first_buffer (is_of node seq) 0 buffers ≡ some i
    → find_or_allocate_buffer node seq buffers ≡ (i, buffers)
unfolding find_or_allocate_buffer or_allocate
found-write node seq i buffers h = rw h refl

-- The buffer with one fragment more.
abbrev pub part : ℕ → ℕ → ℕ → List ℕ → Fragment
part j n seq payload = record { seq = seq; fragment = code j n; payload = payload }

pub record Added (node seq i j n : ℕ) (done payload : List ℕ) (buffers : List Buffer) (b : Buffer)
    : Type 0 where
  pub is_node : b.remotenode ≡ node
  pub is_seq : b.seq ≡ seq
  pub received : b.received + 1 ≡ 2 ^ (j + 1)
  pub room : length b.bytes ≡ 2048
  pub front : take (j * 500 + length payload) b.bytes ≡ done ++ payload
  pub size : j + 1 ≡ n → b.datalength ≡ j * 500 + length payload

pub Gathers-Added :
    (node seq i j n : ℕ) (done payload : List ℕ) (buffers : List Buffer)
    → Gathers node seq i j done buffers
    → j < n
    → n ≤ 4
    → length payload ≤ 500
    → Added node seq i j n done payload buffers
        (add_fragment node (part j n seq payload) (get_or buffers i no_buffer))
unfolding add_fragment
Gathers-Added node seq i j n done payload buffers g h k l =
    let (num, all) = code_lem j n h k in
    let b = get_or buffers i no_buffer in
    let (written, kept) = take-write_at (j * 500) payload b.bytes (omega (arith, g.room)) in
    rw (num, all, g.received)
      (record {
        is_node = refl;
        is_seq = refl;
        received = received_lem j (omega arith);
        room = kept ∙ g.room;
        front = written ∙ ap (λ (x : List ℕ). x ++ payload) g.front;
        size = λ e. ground arith;
      })

pub Gathers-next :
    (node seq i j n : ℕ) (done payload : List ℕ) (buffers : List Buffer) (b : Buffer)
    → Gathers node seq i j done buffers
    → Added node seq i j n done payload buffers b
    → length payload ≡ 500
    → Gathers node seq i (j + 1) (done ++ payload) (set buffers i b)
Gathers-next node seq i j n done payload buffers b g a l =
    let here = get_or-set_self buffers i b no_buffer g.index in
    let first' = first-write node seq i b buffers g.first a.is_node a.is_seq g.index in
    let more : (j + 1) * 500 ≡ j * 500 + length payload = omega arith in
    record {
      index = rw (length-set buffers i b) (g.index);
      first = inl first';
      found = found-write node seq i (set buffers i b) first';
      received = rw here (omega (arith, a.received));
      room = rw here (a.room);
      front = rw (here, more) (a.front);
    }
