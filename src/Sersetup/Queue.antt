-- ===== src/Sersetup/Queue.antt =====
-- The byte queues as first-in, first-out sequences of bytes.
use vanilla_utilities.Base.{
  ℕ, zero, suc, ◌+◌, ◌-◌, ◌%◌, ◌<◌, ◌≤◌, ◌≡◌, refl, ap, ap₂, ◌∙◌, ◌==◌, arith, length, ltb, get_or,
  set, List, [], ◌∷◌, ◌++◌, if◌then◌else◌, Bool-cases, inl, inr, append_assoc, append-nil,
  length-set, get_or-set_self, get_or-set_ne, take, drop,
}
use vanilla_utilities.Sersetup.{
  Que, que_size, put_byte, serial_byte_received, more_loop, serial_more_tx_data, put_bytes,
  make_room,
}

-- The `n` bytes of a ring from position `t` on.
abbrev pub window : List ℕ → ℕ → ℕ → List ℕ
window bytes t zero = []
window bytes t (suc n) = get_or bytes (t % que_size) 0 ∷ window bytes (t + 1) n

abbrev pub contents : Que → List ℕ
contents q = window q.bytes q.tail (q.head - q.tail)

pub record IsQue (q : Que) : Type 0 where
  pub storage : length q.bytes ≡ que_size
  pub order : q.tail ≤ q.head
  pub bound : q.head ≤ q.tail + que_size

pub length-window : (bytes : List ℕ) (t n : ℕ) → length (window bytes t n) ≡ n
length-window bytes t zero = refl
length-window bytes t (suc n) = ap suc (length-window bytes (t + 1) n)

-- A byte written just past a window that is not full extends it.
window-set :
    (bytes : List ℕ) (c t n h : ℕ)
    → length bytes ≡ que_size
    → h ≡ t + n
    → n < que_size
    → window (set bytes (h % que_size) c) t (suc n) ≡ window bytes t n ++ c ∷ []
window-set bytes c t zero h l e hn =
    let same : h ≡ t = omega arith in
    rw same (ap (λ (x : ℕ). x ∷ []) (get_or-set_self bytes (t % que_size) c 0 (omega arith)))
window-set bytes c t (suc n) h l e hn =
    ap₂ ◌∷◌ (get_or-set_ne bytes (h % que_size) (t % que_size) c 0 (omega arith))
      (window-set bytes c (t + 1) n h l (omega arith) (omega arith))

put_byte-IsQue : (c : ℕ) (q : Que) → IsQue q → q.head < q.tail + que_size → IsQue (put_byte c q)
unfolding put_byte
put_byte-IsQue c q v h = record {
  storage = length-set q.bytes (q.head % que_size) c ∙ v.storage;
  order = omega (arith, v.order);
  bound = omega arith;
}

contents-put_byte :
    (c : ℕ) (q : Que)
    → IsQue q
    → q.head < q.tail + que_size
    → contents (put_byte c q) ≡ contents q ++ c ∷ []
unfolding put_byte
contents-put_byte c q v h =
    let n : q.head + 1 - q.tail ≡ suc (q.head - q.tail) = omega (arith, v.order) in
    rw n (
      window-set q.bytes c q.tail (q.head - q.tail) q.head v.storage (omega (arith, v.order))
        (omega (arith, v.order)))

-- SerialByteReceived, on a valid queue that is not full to the last place, takes a byte just if
-- fewer than 2047 wait, and puts it behind them; the queue stays valid and not full.
serial_byte_received_lem :
    (c : ℕ) (q : Que)
    → IsQue q
    → q.head < q.tail + que_size
    → let (stored, r) = serial_byte_received c q in
      IsQue r
      × (r.head < r.tail + que_size)
      × (stored ≡ ltb (length (contents q)) 2047)
      × (contents r ≡ (if stored then contents q ++ c ∷ [] else contents q))
unfolding serial_byte_received
serial_byte_received_lem c q v h =
    elim (Bool-cases ((q.head + 1) % que_size == q.tail % que_size)) [
      | inl full ↦
          rw (full, length-window q.bytes q.tail (q.head - q.tail))
            (v, h, ground (arith, v.order), refl)
      | inr room ↦
          rw (room, length-window q.bytes q.tail (q.head - q.tail))
            (
              put_byte-IsQue c q v h,
              unfold put_byte in ground (arith, v.order),
              ground (arith, v.order),
              contents-put_byte c q v h,
            )
    ]

-- Taking the first byte.
pub contents-pop :
    (q : Que)
    → q.tail < q.head
    → contents q ≡ get_or q.bytes (q.tail % que_size) 0 ∷ contents (record q { tail = q.tail + 1 })
contents-pop q h = let n : q.head - q.tail ≡ suc (q.head - (q.tail + 1)) = omega arith in rw n refl

pub pop-IsQue : (q : Que) → IsQue q → q.tail < q.head → IsQue (record q { tail = q.tail + 1 })
pop-IsQue q v h = record {
  storage = v.storage;
  order = omega arith;
  bound = omega (arith, v.bound);
}

-- WriteBuffer's loop, where there is room.
put_bytes-contents :
    (bytes : List ℕ) (q : Que)
    → IsQue q
    → q.head + length bytes ≤ q.tail + que_size
    → IsQue (put_bytes bytes q) × (contents (put_bytes bytes q) ≡ contents q ++ bytes)
unfolding put_bytes
put_bytes-contents [] q v h = (v, rw append-nil)
put_bytes-contents (c ∷ bytes) q v h =
    let w = put_byte-IsQue c q v (omega arith) in
    let (v', e) = put_bytes-contents bytes (put_byte c q) w (unfold put_byte in omega arith) in
    (v', e ∙ rw (contents-put_byte c q v (omega arith)) (append_assoc (contents q) (c ∷ []) bytes))

-- WriteBuffer's bytes, at most 2048, on a valid queue: they go behind what waits, or take its
-- place if both together exceed 2048; the queue stays valid.
pub make_room-contents :
    (bytes : List ℕ) (q : Que)
    → IsQue q
    → length bytes ≤ que_size
    → let r = put_bytes bytes (make_room (length bytes) q) in
      IsQue r
      × (contents r ≡ (
          if ltb que_size (length (contents q) + length bytes) then bytes else contents q ++ bytes))
unfolding make_room
make_room-contents bytes q v h = elim (Bool-cases (ltb que_size (q.head - q.tail + length bytes))) [
  | inl over ↦
      let empty : q.head - q.head ≡ 0 = omega arith in
      let (w, e) =
        put_bytes-contents bytes (record q { tail = q.head })
          (record { storage = v.storage; order = omega arith; bound = omega arith })
          (omega arith) in
      rw (over, length-window q.bytes q.tail (q.head - q.tail), over)
        (w, e ∙ ap (λ (n : ℕ). window q.bytes q.head n ++ bytes) empty)
  | inr fits ↦
      rw (fits, length-window q.bytes q.tail (q.head - q.tail), fits)
        (put_bytes-contents bytes q v (ground (arith, v.order)))
]

-- `k` rounds of SerialMoreTXData's loop.
more_loop-contents :
    (k : ℕ) (q : Que)
    → IsQue q
    → let (bytes, r) = more_loop k q in
      IsQue r × (bytes ≡ take k (contents q)) × (contents r ≡ drop k (contents q))
unfolding more_loop
more_loop-contents zero q v = (v, refl, refl)
more_loop-contents (suc k) q v = elim (Bool-cases (ltb q.tail q.head)) [
  | inl more ↦
      let lt : q.tail < q.head = ground arith in
      let (w, e, d) = more_loop-contents k (record q { tail = q.tail + 1 }) (pop-IsQue q v lt) in
      rw (more, contents-pop q lt) (w, ap (◌∷◌ (get_or q.bytes (q.tail % que_size) 0)) e, d)
  | inr done ↦
      let none_left : q.head - q.tail ≡ 0 = ground arith in rw (done, none_left) (v, refl, refl)
]

-- SerialMoreTXData, on a valid queue, takes the first 16 bytes, or all if there are fewer, in
-- order, leaves the rest, and keeps the queue valid.
pub serial_more_tx_data_lem :
    (q : Que)
    → IsQue q
    → let (bytes, r) = serial_more_tx_data q in
      IsQue r × (bytes ≡ take 16 (contents q)) × (contents r ≡ drop 16 (contents q))
unfolding serial_more_tx_data
serial_more_tx_data_lem q v = more_loop-contents 16 q v
