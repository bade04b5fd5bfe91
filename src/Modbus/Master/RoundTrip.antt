-- ===== src/Modbus/Master/RoundTrip.antt =====
-- The master reads words of the slave over TCP: both ends of main/modbus.c and the transaction of
-- main/modbus_tcp_client/modbus_tcp_client.c between them.
use esp32_template.Base.{
  ℕ, ◌+◌, ◌*◌, ◌≤◌, ◌<◌, true, false, List, some, ◌⊎◌, inl, inr, ◌≡◌, ◌≢◌, refl, ap, ◌∙◌, arith,
  ltb,
}
use esp32_template.Base.Bytes.{Bytes, IsBytes, put_u16}
use esp32_template.Base.Int.{pos}
use esp32_template.Crc.{modbus_crc16}
use esp32_template.Description.{RegsTable}
use esp32_template.Modbus.{behind, get_be16, modbus_tcp_response_lenght, modbus_response_lenght}
use esp32_template.Modbus.Exchange.{modbus_tcp_packet-modbus_rtu_packet}
use esp32_template.Modbus.Holding.{pointer, modbus_rtu_packet-words, modbus_rtu_packet-first}
use esp32_template.Modbus.Master.{
  Words, make_query, no_pointer, framed, buffer_of, body_of, expected, fits_packet, transact,
  process_words, modbus_master_read_registers,
}
use esp32_template.Modbus.Master.Reading.{
  make_query-read, Filled, process_words-Filled, body_of-checked,
}
use esp32_template.Modbus.Reply.{modbus_rtu_packet-IsBytes}
use esp32_template.Modbus.Server.{modbus_tcp_packet}
use esp32_template.Modbus.Transaction.{
  Socket, IsAnswered, modbus_tcp_master_packet_transaction,
  modbus_tcp_master_packet_transaction-stale,
}
use esp32_template.Platform.{Platform}
use esp32_template.Regs.Command.{State}

-- An answer over TCP to the read of `n` words from `p` on
record IsAnswer (slave n p : ℕ) (m request reply : Bytes) (len : ℕ) : Type 0 where
  sized : len ≡ n * 2 + 9
  id0 : reply 0 ≡ request 0
  id1 : reply 1 ≡ request 1
  from : reply 6 ≡ slave
  count : reply 8 ≡ n * 2
  high : (k : ℕ) → k < n → reply (6 + (3 + k * 2)) ≡ m (p + k * 2 + 1)
  low : (k : ℕ) → k < n → reply (6 + (3 + k * 2 + 1)) ≡ m (p + k * 2)
  bytes : (i : ℕ) → reply (6 + i) < 256

module _ (pf : Platform) (tables : List RegsTable) (upper : ℕ → ℕ) (pckt : Bytes) (s : State)
    (h : IsBytes pckt) (h' : IsBytes s.mem) where
  abbrev request : Bytes
  request = put_u16 (behind 6 pckt) 6 (modbus_crc16 (behind 6 pckt) 6)

  abbrev found_at : ℕ
  found_at = pointer pf tables (get_be16 pckt 8) (pckt 7)

  module _ (which : (pckt 7 ≡ 3) ⊎ (pckt 7 ≡ 4)) (found : found_at ≢ 0) (lo : 0 < get_be16 pckt 10)
      (hi : get_be16 pckt 10 ≤ 125) where
    reply_word :
        (k : ℕ)
        → k < get_be16 pckt 10
        → let r = modbus_tcp_packet pf tables upper pckt 12 s in
          r.pckt (6 + (3 + k * 2)) ≡ s.mem (found_at + k * 2 + 1)
          × r.pckt (6 + (3 + k * 2 + 1)) ≡ s.mem (found_at + k * 2)
    reply_word k lt =
        let (len, f, count, high, low) =
          modbus_rtu_packet-words pf tables upper request s k which found lt hi in
        let (l, t, at, kept, st) =
          modbus_tcp_packet-modbus_rtu_packet pf tables upper pckt 12 (3 + k * 2) s h h' in
        let (l', t', at', kept', st') =
          modbus_tcp_packet-modbus_rtu_packet pf tables upper pckt 12 (3 + k * 2 + 1) s h h' in
        (at ∙ high, at' ∙ low)

    reply_byte : (i : ℕ) → (modbus_tcp_packet pf tables upper pckt 12 s).pckt (6 + i) < 256
    reply_byte i =
        let bytes : IsBytes request = λ i. ground (arith, h (6 + i)) in
        let (l, t, at, kept, st) =
          modbus_tcp_packet-modbus_rtu_packet pf tables upper pckt 12 i s h h' in
        rw at (modbus_rtu_packet-IsBytes pf tables upper request s bytes h' i)

    modbus_tcp_packet-IsAnswer :
        let r = modbus_tcp_packet pf tables upper pckt 12 s in
        IsAnswer (pckt 6) (get_be16 pckt 10) found_at s.mem pckt r.pckt r.len_reply
    modbus_tcp_packet-IsAnswer =
        let (len, f, count, high, low) =
          modbus_rtu_packet-words pf tables upper request s 0 which found lo hi in
        let (l, t, at, kept, st) =
          modbus_tcp_packet-modbus_rtu_packet pf tables upper pckt 12 0 s h h' in
        let (l', t', at', kept', st') =
          modbus_tcp_packet-modbus_rtu_packet pf tables upper pckt 12 1 s h h' in
        let (l2, t2, at2, kept2, st2) =
          modbus_tcp_packet-modbus_rtu_packet pf tables upper pckt 12 2 s h h' in
        record {
          sized = omega arith;
          id0 = kept;
          id1 = kept';
          from = at ∙ modbus_rtu_packet-first pf tables upper request s which found lo hi;
          count = at2 ∙ count;
          high = λ k lt. (reply_word k lt).0;
          low = λ k lt. (reply_word k lt).1;
          bytes = reply_byte;
        }

tcp_fits :
    (f n : ℕ) → (f ≡ 3) ⊎ (f ≡ 4) → n ≤ 123 → fits_packet (modbus_tcp_response_lenght f n) ≡ true
unfolding modbus_tcp_response_lenght modbus_response_lenght
tcp_fits f n (inl e) small = rw e (ground arith)
tcp_fits f n (inr e) small = rw e (ground arith)

-- `n` words of the slave's memory from `p` on in the buffer, which stays behind them
abbrev pub HasWords : ℕ → ℕ → Bytes → Words → Words → Type 0
HasWords n p m dest w =
    (k : ℕ) → (k < n → w k ≡ m (p + k * 2) + 256 * m (p + k * 2 + 1)) × (n ≤ k → w k ≡ dest k)

-- What the master reads from such an answer
module _ (packet : Bytes) (channel : ℕ) (socket : Socket) (t slave f start n p : ℕ) (m : Bytes)
    (dest : Words) where
  Filled-HasWords :
      (body : Bytes) (w : Words)
      → Filled n dest body w
      → ((k : ℕ) → k < n → body (3 + k * 2) ≡ m (p + k * 2 + 1))
      → ((k : ℕ) → k < n → body (4 + k * 2) ≡ m (p + k * 2))
      → HasWords n p m dest w
  Filled-HasWords body w filled high low k =
      (λ lt. ground (arith, (filled k).0 lt, high k lt, low k lt), (filled k).1)

  process_words-HasWords :
      (request reply got : Bytes) (len : ℕ)
      → framed channel ≡ true
      → n ≤ 125
      → IsAnswer slave n p m request reply len
      → ((i : ℕ) → i < len → got i ≡ reply i)
      → let r = process_words slave n n (some dest) len (body_of channel len got) in
        r.0 ≡ pos len × HasWords n p m dest (buffer_of dest r.1)
  process_words-HasWords request reply got len e hi a same =
      let body = body_of channel len got in
      let size = a.sized in
      let (kept, good) =
        body_of-checked channel len got e (omega arith)
          (ground (arith, same 8 (omega arith), a.count))
          (λ i lt. ground (arith, same (6 + i) lt, a.bytes i)) in
      let at : (i : ℕ) → i < n * 2 + 3 → body i ≡ reply (6 + i) =
        λ i lt. kept i (omega arith) ∙ same (6 + i) (omega arith) in
      let (res, filled) =
        process_words-Filled slave n len dest body (at 0 (omega arith) ∙ a.from)
          (at 2 (omega arith) ∙ a.count ∙ omega arith) hi
          (λ i lt. ground (arith, at (3 + i) (omega arith), a.bytes (3 + i))) good in
      (
        res,
        Filled-HasWords body _ filled (λ k lt. at (3 + k * 2) (omega arith) ∙ a.high k lt)
            (λ k lt. at (4 + k * 2) (omega arith) ∙ ap reply (omega arith) ∙ a.low k lt),
      )

  -- The transaction brings that answer.
  modbus_master_read_registers-HasWords :
      (request reply : Bytes) (len : ℕ)
      → framed channel ≡ true
      → (f ≡ 3) ⊎ (f ≡ 4)
      → n ≤ 123
      → IsAnswer slave n p m request reply len
      → (let q = make_query channel slave f start n no_pointer packet t in
          IsAnswered q.packet 12 len reply socket × request 0 ≡ q.packet 0 × request 1 ≡ q.packet 1)
      → let x =
          modbus_master_read_registers packet channel socket t f slave start n (some dest) n in
        x.res ≡ pos len × HasWords n p m dest (buffer_of dest x.dest)
  unfolding modbus_master_read_registers transact
  modbus_master_read_registers-HasWords request reply len e which hi a (answered, id0, id1) =
      let q = make_query channel slave f start n no_pointer packet t in
      let (byte, query) = make_query-read channel slave f start n t packet e which in
      let size = a.sized in
      let (got, same) =
        modbus_tcp_master_packet_transaction-stale q.packet reply 12 len socket answered
          (omega arith) (a.id0 ∙ id0) (a.id1 ∙ id1) in
      let fits : fits_packet (expected channel f n) ≡ true = rw e (tcp_fits f n which hi) in
      let long : ltb len 6 ≡ false = ground arith in
      let p' = (modbus_tcp_master_packet_transaction q.packet 12 socket).1 in
      rw (byte, fits, got, long)
        (process_words-HasWords request reply p' len e (omega arith) a same)

-- A master that reads 1 to 123 words over TCP or UDP (function 3 or 4) from an address that a
-- register of the slave has gets them: if the slave has received the twelve bytes of the request and
-- the socket delivers its answer, behind any number of answers to other requests, then the result is
-- the length of the answer, the words of the slave's memory from that address on stand in the buffer,
-- and the buffer behind them is as it was. Packet and memory of the slave hold bytes.
pub modbus_master_read_registers-modbus_tcp_packet :
    (pf : Platform) (tables : List RegsTable) (upper : ℕ → ℕ) (packet pckt : Bytes)
    (channel slave f start n t : ℕ) (s : State) (dest : Words) (socket : Socket)
    → framed channel ≡ true
    → slave < 256
    → start < 0x10000
    → (f ≡ 3) ⊎ (f ≡ 4)
    → pointer pf tables start f ≢ 0
    → 0 < n
    → n ≤ 123
    → IsBytes pckt
    → IsBytes s.mem
    → ((i : ℕ)
        → i < 12
        → pckt i ≡ (make_query channel slave f start n no_pointer packet t).packet i)
    → IsAnswered
        (make_query channel slave f start n no_pointer packet t).packet
        12
        (modbus_tcp_packet pf tables upper pckt 12 s).len_reply
        (modbus_tcp_packet pf tables upper pckt 12 s).pckt
        socket
    → let x = modbus_master_read_registers packet channel socket t f slave start n (some dest) n in
      x.res ≡ pos (n * 2 + 9)
      × HasWords n (pointer pf tables start f) s.mem dest (buffer_of dest x.dest)
modbus_master_read_registers-modbus_tcp_packet pf tables upper packet pckt channel slave f start n t
      s dest socket e hs ha which found lo hi h h' same answered =
    let q = make_query channel slave f start n no_pointer packet t in
    let (byte, (b0, b1, b6, b7, b8, b9, b10, b11)) =
      make_query-read channel slave f start n t packet e which in
    let es : pckt 6 ≡ slave = ground (arith, same 6 (omega arith)) in
    let ef : pckt 7 ≡ f = ground (arith, same 7 (omega arith)) in
    let ea : get_be16 pckt 8 ≡ start = ground (arith, same 8 (omega arith), same 9 (omega arith)) in
    let en : get_be16 pckt 10 ≡ n = ground (arith, same 10 (omega arith), same 11 (omega arith)) in
    let here : pointer pf tables (get_be16 pckt 8) (pckt 7) ≡ pointer pf tables start f =
      rw (ea, ef) refl in
    let a =
      modbus_tcp_packet-IsAnswer pf tables upper pckt s h h' (rw ef which) (rw here found)
        (rw en lo) (rw en (omega arith)) in
    let r = modbus_tcp_packet pf tables upper pckt 12 s in
    let a' : IsAnswer slave n (pointer pf tables start f) s.mem pckt r.pckt r.len_reply =
      rw (es, en, here) at a in
    let (res, filled) =
      modbus_master_read_registers-HasWords packet channel socket t slave f start n
        (pointer pf tables start f) s.mem dest pckt r.pckt r.len_reply e which hi a'
        (answered, same 0 (omega arith), same 1 (omega arith)) in
    (res ∙ ap pos a'.sized, filled)
