-- ===== src/Modbus/Exchange.antt =====
-- Requests and replies on both sides: what `modbus_rtu_packet` of main/modbus.c answers, the checks
-- for requests and for replies accept or refuse.
use esp32_template.Base.{
  ℕ, ◌+◌, ◌-◌, ◌%◌, ap, ◌≤◌, ◌<◌, ◌≡◌, ◌≢◌, refl, arith, true, ◌⊎◌, inl, inr, ◌||◌, ltb, leb, List,
}
use esp32_template.Base.Bytes.{Bytes, IsBytes, put_u16}
use esp32_template.Base.Int.{pos}
use esp32_template.Crc.{modbus_crc16}
use esp32_template.Crc.Frames.{modbus_crc16_check-put_u16}
use esp32_template.Description.{RegsTable}
use esp32_template.Modbus.{
  get_be16, behind, put_behind, put_u8, it_modbus_simply_check, it_modbus_request_check,
  it_modbus_responde_check,
}
use esp32_template.Modbus.Holding.{
  pointer, IsException, finish-IsException, modbus_rtu_packet-words,
}
use esp32_template.Modbus.Reply.{modbus_rtu_packet-checked}
use esp32_template.Modbus.Server.{
  read_words, write_words, serve, modbus_rtu_packet, modbus_tcp_packet,
}
use esp32_template.Platform.{Platform}
use esp32_template.Regs.Command.{State}

-- A request of eight bytes for the functions 0 to 6, six bytes and their crc, is accepted.
pub it_modbus_request_check-put_u16 :
    (m : Bytes)
    → IsBytes m
    → m 1 ≤ 6
    → it_modbus_request_check (put_u16 m 6 (modbus_crc16 m 6)) 8 ≡ pos 1
unfolding it_modbus_request_check it_modbus_simply_check
it_modbus_request_check-put_u16 m h f =
    let good = modbus_crc16_check-put_u16 m 6 h (omega arith) in
    let e6 : leb (m 1) 6 ≡ true = ground arith in
    let e16 : leb (m 1) 16 ≡ true = ground arith in rw (e6, e16, good) refl

behind_header : (p q : Bytes) (v w i : ℕ) → put_u8 (put_u8 (put_behind 6 p q) 4 v) 5 w (6 + i) ≡ q i
behind_header p q v w i = let e : 6 + i - 6 ≡ i = omega arith in ground (arith, ap q e)

header_kept : (p q : Bytes) (v w i : ℕ) → i < 4 → put_u8 (put_u8 (put_behind 6 p q) 4 v) 5 w i ≡ p i
header_kept p q v w i h = ground arith

module _ (pf : Platform) (tables : List RegsTable) where
  -- A request for 0 or for more than 125 words (functions 3, 4 and 16) is answered by the exception
  -- 3, and the registers stay.
  pub modbus_rtu_packet-quantity :
      (upper : ℕ → ℕ) (pckt : Bytes) (s : State)
      → ((pckt 1 ≡ 3) ⊎ (pckt 1 ≡ 4)) ⊎ (pckt 1 ≡ 16)
      → (get_be16 pckt 4 ≡ 0) ⊎ (125 < get_be16 pckt 4)
      → IsException pf tables 3 pckt s (modbus_rtu_packet pf tables upper pckt s)
  unfolding modbus_rtu_packet serve read_words write_words
  modbus_rtu_packet-quantity upper pckt s f q =
      let n = get_be16 pckt 4 in
      let bad : (ltb n 1 || ltb 125 n) ≡ true = ground arith in
      let served : serve pf tables upper pckt s
          ≡ (record { error = 3; len_reply = 5; pckt = pckt; state = s }) =
        of_function f bad in
      rw served (finish-IsException pf tables 3 5 pckt s (omega arith) (omega arith))
    where
      of_function :
          ((pckt 1 ≡ 3) ⊎ (pckt 1 ≡ 4)) ⊎ (pckt 1 ≡ 16)
          → (ltb (get_be16 pckt 4) 1 || ltb 125 (get_be16 pckt 4)) ≡ true
          → serve pf tables upper pckt s
            ≡ (record { error = 3; len_reply = 5; pckt = pckt; state = s })
      of_function (inl (inl e)) bad = rw (e, bad) refl
      of_function (inl (inr e)) bad = rw (e, bad) refl
      of_function (inr e) bad = rw (e, bad) refl

  -- The slave's answer to a read of 1 to 125 words (function 3 or 4) from an address that a register
  -- has is accepted by the check for replies, if packet and memory hold bytes.
  pub it_modbus_responde_check-modbus_rtu_packet :
      (upper : ℕ → ℕ) (pckt : Bytes) (s : State)
      → IsBytes pckt
      → IsBytes s.mem
      → (pckt 1 ≡ 3) ⊎ (pckt 1 ≡ 4)
      → pointer pf tables (get_be16 pckt 2) (pckt 1) ≢ 0
      → 0 < get_be16 pckt 4
      → get_be16 pckt 4 ≤ 125
      → let o = modbus_rtu_packet pf tables upper pckt s in
        it_modbus_responde_check o.pckt o.len_reply ≡ pos 1
  unfolding it_modbus_responde_check it_modbus_simply_check
  it_modbus_responde_check-modbus_rtu_packet upper pckt s h h' f found lo hi =
      let o = modbus_rtu_packet pf tables upper pckt s in
      let (above, below, good) = modbus_rtu_packet-checked pf tables upper pckt s h h' in
      let (len, same, count, rest, rest') =
        modbus_rtu_packet-words pf tables upper pckt s 0 f found lo hi in
      let e : o.pckt 2 + 5 ≡ o.len_reply = omega arith in
      let e4 : leb (o.pckt 1) 4 ≡ true = ground arith in
      let e16 : leb (o.pckt 1) 16 ≡ true = ground arith in
      let e251 : ltb (o.pckt 2) 251 ≡ true = ground arith in
      let e256 : leb o.len_reply 256 ≡ true = ground arith in rw (e256, e4, e251, e16, e, good) refl

  -- Over TCP the slave's reply is that of `modbus_rtu_packet` to the packet behind the header, with
  -- the first four header bytes as they were, then the number of bytes that follow, which leaves out
  -- the crc; the registers change alike. Packet and memory hold bytes.
  pub modbus_tcp_packet-modbus_rtu_packet :
      (upper : ℕ → ℕ) (pckt : Bytes) (len i : ℕ) (s : State)
      → IsBytes pckt
      → IsBytes s.mem
      → let inner = behind 6 pckt in
        let request = put_u16 inner (len - 6) (modbus_crc16 inner (len - 6)) in
        let o = modbus_rtu_packet pf tables upper request s in
        let r = modbus_tcp_packet pf tables upper pckt len s in
        r.len_reply ≡ o.len_reply + 4
        × get_be16 r.pckt 4 + 6 ≡ r.len_reply
        × r.pckt (6 + i) ≡ o.pckt i
        × r.pckt (i % 4) ≡ pckt (i % 4)
        × r.state ≡ o.state
  unfolding modbus_tcp_packet
  modbus_tcp_packet-modbus_rtu_packet upper pckt len i s h h' =
      let inner = behind 6 pckt in
      let request = put_u16 inner (len - 6) (modbus_crc16 inner (len - 6)) in
      let o = modbus_rtu_packet pf tables upper request s in
      let (above, below, good) =
        modbus_rtu_packet-checked pf tables upper request s (λ k. ground (arith, h (6 + k))) h' in
      let long : ltb 4 o.len_reply ≡ true = ground arith in
      rw long (
        omega arith,
        omega arith,
        behind_header pckt o.pckt _ _ i,
        header_kept pckt o.pckt _ _ (i % 4) (omega arith),
        refl,
      )
