-- ===== src/Udp.antt =====
-- Broadcasts over UDP, main/udp_broadcast/udp_broadcast.c, with the Morse key and the Modbus master: a device
-- asks who is there, devices answer with their Modbus address, and messages are sent to all. Packets
-- are lists of bytes. The notice of a packet to another task is left out.
pub mod Answer
pub mod Fields
pub mod Discovery
pub mod Messages
use esp32_template.Base.{
  ℕ, zero, suc, ◌+◌, ◌-◌, ◌*◌, ◌/◌, ◌%◌, ◌^◌, Bool, true, false, ◌&&◌, Option, none, some, List, [],
  ◌∷◌, ◌++◌, ltb, leb, ◌==◌, if◌then◌else◌, length, get_or,
}
use esp32_template.Base.Bytes.{Bytes, store, get_u16}
use esp32_template.Json.Answer.{decimal}
use esp32_template.Json.Output.{take}
use esp32_template.Json.Request.{padded}
use esp32_template.Json.Strings.{Text, codes, begins_with, strstr, strcmp_same, atoi}
use esp32_template.Modbus.Slaves.{SlaveTable, add_ip_to_slave_table}
use esp32_template.Morse.{MorseState, zeros, get_pointer_to_line, display_lines_num, message_is_new}
use esp32_template.Platform.{Platform}

-- `UDP_BROADCAST_MAX_PACKET_SIZE`
abbrev pub udp_broadcast_max_packet_size : ℕ
udp_broadcast_max_packet_size = 512

-- `DEVICE_NAME`
abbrev pub device_name : Text
device_name = codes "morse"

-- `ADVERTISMENT_REQUEST`
abbrev pub advertisment_request : Text
advertisment_request = codes "UDP_REQUEST"

-- `MODBUS_FIELD`
abbrev pub modbus_field : Text
modbus_field = codes "modbus_address"

abbrev pub drop : ℕ → Text → Text
drop zero s = s
drop (suc n) [] = []
drop (suc n) (c ∷ s) = drop n s

-- What a packet may change: the table of slaves and the registers of the Morse key.
pub record Known : Type 0 where
  pub slaves : SlaveTable
  pub morse : MorseState

-- `[%u,%u,%u,%u]` for the four bytes at `a`
abbrev pub quad : Bytes → ℕ → Text
quad m a =
    b'['
    ∷ (decimal (m a)
        ++ b','
          ∷ (decimal (m (a + 1))
              ++ b',' ∷ (decimal (m (a + 2)) ++ b',' ∷ (decimal (m (a + 3)) ++ b']' ∷ b',' ∷ []))))

-- What stands behind the Modbus address in an answer
unfoldable pub answer_rest : Platform → Bytes → Text
answer_rest pf m =
    codes
      ",\"personal_name\": \"chili\",\"serial\": \"0000\",\"model\": \"son\",\"firmware\": \"0.0.1\",\"ip\": "
    ++ (quad m pf.ip
        ++ (codes "\"netmask\": "
            ++ (quad m pf.netmask
                ++ (codes "\"gateway\": " ++ (quad m pf.gate ++ codes "\"port\": 502}")))))

-- The answer to a request
unfoldable pub advertisment_answer : Platform → Bytes → Text
advertisment_answer pf m =
    codes "{\"device_name\": \"morse\",\"modbus_address\": "
    ++ (decimal (get_u16 m pf.mdb_addr) ++ answer_rest pf m)

-- The packet that sends a message to all, with its check value where the device has one. The message
-- is the text of the register `morse_send`.
unfoldable pub advertisement_packet : Option (Text → Text) → Text → Text
advertisement_packet none message =
    codes "{\"device_name\": \"morse\",\"message\": \"" ++ (message ++ codes "\"}")
advertisement_packet (some hmac) message =
    let text = codes "{\"device_name\": \"morse\",\"message\": \"" ++ (message ++ codes "\"}") in
    text ++ hmac text

-- The address of another device and its number are put into the table.
unfoldable pub learn_slave : SlaveTable → ℕ → Text → SlaveTable
learn_slave t ip receive = elim (strstr modbus_field receive) [
  | none ↦ t
  | some found ↦
      if ltb 17 (length found)
      then (add_ip_to_slave_table t ip (atoi (drop 17 found) % 256)).1
      else t
]

-- `message_valid`, and `last_symbol_position` in its eight bits
unfoldable pub check_packet : Option (Text → Text) → Text → Bool × ℕ
check_packet none receive = (true, (length receive + 254) % 256)
check_packet (some hmac) receive =
    let n = length receive - 32 in
    if ltb 32 (length receive)
    then (strcmp_same (drop n receive) (hmac (take n receive)), (n + 254) % 256)
    else (true, (length receive + 254) % 256)

-- The last byte of the sender's address, and a colon
abbrev pub sender : ℕ → Text
sender ip3 = (ip3 / 100 + 48) ∷ (ip3 % 100 / 10 + 48) ∷ (ip3 % 10 + 48) ∷ b':' ∷ []

-- A message that is new is put on a line of 32 bytes, which `memcpy` may exceed.
unfoldable pub put_line : MorseState → Text → MorseState
put_line s message =
    if message_is_new s.regs (some (λ k. get_or message k 0)) (length message % 256)
    then (let line = s.morse_counter % display_lines_num in
        elim (get_pointer_to_line line) [
          | none ↦ record s { morse_counter = (s.morse_counter + 1) % 2 ^ 32 }
          | some line_pointer ↦ record s {
            regs = store (store s.regs line_pointer (zeros 32)) line_pointer message;
            morse_counter = (s.morse_counter + 1) % 2 ^ 32;
          }
        ])
    else s

-- The message behind the field, of eight bits' length; `none` where it leaves the buffer.
unfoldable pub take_message : MorseState → ℕ → Text → ℕ → Option MorseState
take_message s ip3 receive last_symbol_position = elim (strstr (codes "message") receive) [
  | none ↦ some s
  | some found ↦
      let position = length receive - length found + 11 in
      let message_len = (last_symbol_position + 512 - position) % 256 in
      if ltb 11 (length found) && ltb 0 message_len
      then (if leb (position + message_len) (udp_broadcast_max_packet_size + 1)
          then some (put_line s (sender ip3 ++ padded message_len (drop 11 found)))
          else none)
      else some s
]

abbrev pub with_morse : SlaveTable → Option MorseState → Option Known
with_morse t none = none
with_morse t (some s) = some (record { slaves = t; morse = s })

-- No answer is sent.
abbrev pub unanswered : Option Known → Option (Text × Known)
unanswered none = none
unanswered (some k) = some ([], k)

module _ (pf : Platform) (hmac : Option (Text → Text)) where
  -- Another packet than a request
  unfoldable pub handle_other : Known → ℕ → ℕ → Text → Option Known
  handle_other k ip ip3 receive =
      let (message_valid, last_symbol_position) = check_packet hmac receive in
      with_morse (learn_slave k.slaves ip receive) (
        if message_valid
        then take_message k.morse ip3 receive last_symbol_position
        else some k.morse)

  -- The packet in the buffer, whose bytes behind it are 0
  unfoldable pub handle_received : Bytes → Known → ℕ → ℕ → Text → Option (Text × Known)
  handle_received m k ip ip3 receive =
      if begins_with (advertisment_request ++ 0 ∷ []) (receive ++ 0 ∷ [])
      then some (advertisment_answer pf m, k)
      else unanswered (handle_other k ip ip3 receive)

  -- A packet from the address whose number is `ip` and whose last byte is `ip3`, of which at most 512
  -- bytes are taken: the answer, which is empty for none, and what is known then.
  unfoldable pub udp_broadcast_server_recv : Bytes → Known → ℕ → ℕ → Text → Option (Text × Known)
  udp_broadcast_server_recv m k ip ip3 packet =
      handle_received m k ip ip3 (take udp_broadcast_max_packet_size packet)
