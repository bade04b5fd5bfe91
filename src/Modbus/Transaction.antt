-- ===== src/Modbus/Transaction.antt =====
-- One request and its answer over a socket: `modbus_tcp_master_packet_transaction` of
-- main/modbus_tcp_client/modbus_tcp_client.c. What the socket does is a parameter.
use esp32_template.Base.{ℕ, ◌≤◌, ◌<◌, Bool, true, false, ◌||◌, ◌&&◌, not, List, [], ◌∷◌, ◌++◌, ◌⊎◌}
use esp32_template.Base.{◌≡◌, ◌≢◌, refl, arith, ltb, ◌==◌, if◌then◌else◌, if-holds}
use esp32_template.Base.Bytes.{Bytes}
use esp32_template.Base.Int.{ℤ, pos, negsuc, minus, is_negative, is_positive}

-- One turn of the receiving loop: `select` does not report the socket, or `recv` gives a result and
-- the bytes that it writes.
pub data Turn : Type 0 where
  not_ready : Turn
  answer : ℤ → Bytes → Turn

-- What the calls on a socket return: the first `select`, `send`, the turns of the loop (behind the
-- last one nothing arrives any more), and the last `select`
pub record Socket : Type 0 where
  pub socket_id : ℤ
  pub writable : Bool
  pub sent : ℤ
  pub turns : List Turn
  pub failed : Bool

-- `recv` writes as many bytes as it returns.
unfoldable pub received : ℤ → Bytes → Bytes → Bytes
received (pos res) bytes packet i = if ltb i res then bytes i else packet i
received (negsuc n) bytes packet i = packet i

-- `res == send_length`
abbrev pub is_all : ℤ → ℕ → Bool
is_all (pos n) send_length = n == send_length
is_all (negsuc n) send_length = false

abbrev pub id_mismatch : ℕ → ℕ → Bytes → Bool
id_mismatch id0 id1 packet = not (id0 == packet 0) || not (id1 == packet 1)

-- The do loop: the result of the last turn and the packet
unfoldable pub receive_loop : ℕ → ℕ → List Turn → Bytes → ℤ × Bytes
unfolding received
receive_loop id0 id1 [] packet = (minus 1, packet)
receive_loop id0 id1 (not_ready ∷ turns) packet = (minus 1, packet)
receive_loop id0 id1 (answer res bytes ∷ turns) packet =
    let packet' = received res bytes packet in
    let again = receive_loop id0 id1 turns packet' in
    if is_positive res && id_mismatch id0 id1 packet' then again else (res, packet')

-- The request is sent, and answers are received.
unfoldable pub send_and_receive : Bytes → ℕ → Socket → ℤ × Bytes
unfolding receive_loop
send_and_receive packet send_length socket =
    if not socket.writable
    then (minus 1, packet)
    else if is_all socket.sent send_length
    then receive_loop (packet 0) (packet 1) socket.turns packet
    else (minus 1, packet)

-- The length of the answer, or a negative result, and the packet
unfoldable pub modbus_tcp_master_packet_transaction : Bytes → ℕ → Socket → ℤ × Bytes
unfolding send_and_receive
modbus_tcp_master_packet_transaction packet send_length socket =
    let (res, packet') = send_and_receive packet send_length socket in
    if not (is_negative socket.socket_id) && socket.failed
    then (minus 1, packet')
    else (res, packet')

-- A result above 0 comes with a packet that has the given identifier.
abbrev HasId : ℕ → ℕ → ℤ × Bytes → Type 0
HasId id0 id1 r = is_positive r.0 ≡ true → r.1 0 ≡ id0 × r.1 1 ≡ id1

refused-HasId : (id0 id1 : ℕ) (packet : Bytes) → HasId id0 id1 (minus 1, packet)
refused-HasId id0 id1 packet p = absurd (cc)

answered-HasId :
    (id0 id1 : ℕ) (packet : Bytes) (res : ℤ)
    → (is_positive res && id_mismatch id0 id1 packet) ≡ false
    → HasId id0 id1 (res, packet)
answered-HasId id0 id1 packet res e p = ground arith

receive_loop-HasId :
    (id0 id1 : ℕ) (turns : List Turn) (packet : Bytes)
    → HasId id0 id1 (receive_loop id0 id1 turns packet)
unfolding receive_loop
receive_loop-HasId id0 id1 [] packet = refused-HasId id0 id1 packet
receive_loop-HasId id0 id1 (not_ready ∷ turns) packet = refused-HasId id0 id1 packet
receive_loop-HasId id0 id1 (answer res bytes ∷ turns) packet =
    let packet' = received res bytes packet in
    if-holds (HasId id0 id1) (is_positive res && id_mismatch id0 id1 packet')
      (λ e. receive_loop-HasId id0 id1 turns packet') (λ e. answered-HasId id0 id1 packet' res e)

-- A result above 0, which is the length of an answer, comes with a packet that has the identifier of
-- the request in its first two bytes, whatever the socket delivers.
pub modbus_tcp_master_packet_transaction-id :
    (packet : Bytes) (send_length : ℕ) (socket : Socket)
    → is_positive (modbus_tcp_master_packet_transaction packet send_length socket).0 ≡ true
    → (modbus_tcp_master_packet_transaction packet send_length socket).1 0 ≡ packet 0
      × (modbus_tcp_master_packet_transaction packet send_length socket).1 1 ≡ packet 1
unfolding modbus_tcp_master_packet_transaction
modbus_tcp_master_packet_transaction-id packet send_length socket =
    if-holds (HasId (packet 0) (packet 1)) (not (is_negative socket.socket_id) && socket.failed)
      (λ e. refused-HasId (packet 0) (packet 1) (send_and_receive packet send_length socket).1)
      (λ e.
        if-holds (HasId (packet 0) (packet 1)) (not socket.writable)
          (λ e. refused-HasId (packet 0) (packet 1) packet)
          (λ e.
            if-holds (HasId (packet 0) (packet 1)) (is_all socket.sent send_length)
              (λ e. receive_loop-HasId (packet 0) (packet 1) socket.turns packet)
              (λ e. refused-HasId (packet 0) (packet 1) packet)))

-- Answers of at least two bytes with another identifier
pub data IsStale (id0 id1 : ℕ) : List Turn → Type 0 where
  none_left : IsStale id0 id1 []
  another :
      (len : ℕ) (bytes : Bytes) (turns : List Turn)
      → 2 ≤ len
      → (bytes 0 ≢ id0) ⊎ (bytes 1 ≢ id1)
      → IsStale id0 id1 turns
      → IsStale id0 id1 (answer (pos len) bytes ∷ turns)

-- What the answer `bytes` of length `len` leaves
abbrev pub Got : ℕ → Bytes → ℤ × Bytes → Type 0
Got len bytes r = r.0 ≡ pos len × ((i : ℕ) → i < len → r.1 i ≡ bytes i)

receive_loop-stale :
    (id0 id1 : ℕ) (stale turns : List Turn) (packet bytes : Bytes) (len : ℕ)
    → IsStale id0 id1 stale
    → 2 ≤ len
    → bytes 0 ≡ id0
    → bytes 1 ≡ id1
    → Got len bytes (receive_loop id0 id1 (stale ++ (answer (pos len) bytes ∷ turns)) packet)
unfolding receive_loop received
receive_loop-stale id0 id1 [] turns packet bytes len none_left long e0 e1 =
    let packet' = received (pos len) bytes packet in
    let found : (is_positive (pos len) && id_mismatch id0 id1 packet') ≡ false = ground arith in
    if-holds (Got len bytes) (is_positive (pos len) && id_mismatch id0 id1 packet')
      (λ e. absurd (cc)) (λ e. (refl, λ i lt. ground arith))
receive_loop-stale id0 id1 (answer (pos n) b ∷ stale) turns packet bytes len
      (another _ _ _ lo differ rest) long e0 e1 =
    let packet' = received (pos n) b packet in
    let again : (is_positive (pos n) && id_mismatch id0 id1 packet') ≡ true = ground arith in
    if-holds (Got len bytes) (is_positive (pos n) && id_mismatch id0 id1 packet')
      (λ e. receive_loop-stale id0 id1 stale turns packet' bytes len rest long e0 e1)
      (λ e. absurd (cc))
receive_loop-stale id0 id1 (not_ready ∷ stale) turns packet bytes len x long e0 e1 = elim x [ ]
receive_loop-stale id0 id1 (answer (negsuc n) b ∷ stale) turns packet bytes len x long e0 e1 =
    elim x [ ]

-- A socket that takes the whole request and then delivers the answer
pub record IsAnswered (packet : Bytes) (send_length len : ℕ) (bytes : Bytes) (socket : Socket)
    : Type 0 where
  pub stale : List Turn
  pub later : List Turn
  pub is_writable : socket.writable ≡ true
  pub is_sent : socket.sent ≡ pos send_length
  pub is_turns : socket.turns ≡ stale ++ (answer (pos len) bytes ∷ later)
  pub is_stale : IsStale (packet 0) (packet 1) stale
  pub is_sound : socket.failed ≡ false

-- However many answers to other requests come first, the answer with the identifier of the request
-- is the one that is returned: its length and its bytes.
pub modbus_tcp_master_packet_transaction-stale :
    (packet bytes : Bytes) (send_length len : ℕ) (socket : Socket)
    → IsAnswered packet send_length len bytes socket
    → 2 ≤ len
    → bytes 0 ≡ packet 0
    → bytes 1 ≡ packet 1
    → Got len bytes (modbus_tcp_master_packet_transaction packet send_length socket)
unfolding modbus_tcp_master_packet_transaction
modbus_tcp_master_packet_transaction-stale packet bytes send_length len socket h long e0 e1 =
    let all : is_all socket.sent send_length ≡ true = rw h.is_sent (ground arith) in
    let off : (not (is_negative socket.socket_id) && socket.failed) ≡ false =
      ground (arith, h.is_sound) in
    rw (h.is_writable, all, off, h.is_turns)
      (receive_loop-stale (packet 0) (packet 1) h.stale h.later packet bytes len h.is_stale long e0
        e1)
