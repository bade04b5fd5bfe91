-- ===== src/Tests/Masters.antt =====
-- The Modbus master against the slave: main/modbus.c and main/modbus_tcp_client/modbus_tcp_client.c.
use esp32_template.Base.{
  ◌+◌, ◌*◌, ◌%◌, ◌^◌, ◌≤◌, ◌≡◌, ◌⊎◌, inl, inr, refl, arith, true, false, none, some, [], ◌∷◌, ltb,
  if◌then◌else◌,
}
use esp32_template.Base.Bytes.{Bytes, IsBytes}
use esp32_template.Base.Int.{pos, is_positive, is_negative}
use esp32_template.Modbus.{get_be16, it_modbus_request_check}
use esp32_template.Modbus.Holding.{pointer}
use esp32_template.Modbus.Master.{make_query, no_pointer, buffer_of, modbus_master_read_registers}
use esp32_template.Modbus.Master.Buffer.{modbus_master_execute_request-buffer}
use esp32_template.Modbus.Master.Execute.{
  ClientRequest, Counters, modbus_master_execute_request, modbus_master_execute_request-counters,
}
use esp32_template.Modbus.Master.RoundTrip.{
  HasWords, modbus_master_read_registers-modbus_tcp_packet,
}
use esp32_template.Modbus.Request.{
  modbus_make_packet, request_head, request_body, request_crc, modbus_make_tcp_packet, tcp_request,
}
use esp32_template.Modbus.Request.Accepted.{it_modbus_request_check-modbus_make_packet}
use esp32_template.Modbus.Server.{modbus_tcp_packet}
use esp32_template.Modbus.Slaves.{SlaveTable, add_ip_to_slave_table}
use esp32_template.Modbus.Slaves.Lookup.{IsTable, IsAdded, IsKept, add_ip_to_slave_table-lookup}
use esp32_template.Modbus.Transaction.{
  Socket, answer, IsStale, none_left, another, IsAnswered, send_and_receive, receive_loop, received,
  modbus_tcp_master_packet_transaction, modbus_tcp_master_packet_transaction-id,
}
use esp32_template.Tests.Registers.{platform, tables, state, state-IsBytes, found_at_102}

abbrev empty : Bytes
empty i = 0

-- The request to read two words at 1 from the slave 1
abbrev made : Bytes
made = elim (modbus_make_packet 1 3 1 2 no_pointer (some empty)).1 [ none ↦ empty | some p ↦ p ]

request_made : modbus_make_packet 1 3 1 2 no_pointer (some empty) ≡ (pos 8, some made)
unfolding modbus_make_packet request_head request_body request_crc
request_made = refl

it_modbus_request_check-modbus_make_packet_example :
    it_modbus_request_check made 8 ≡ pos 1
    × made 0 ≡ 1 % 256
    × made 1 ≡ 3
    × get_be16 made 2 ≡ 1 % 0x10000
it_modbus_request_check-modbus_make_packet_example =
    it_modbus_request_check-modbus_make_packet 1 3 1 2 8 no_pointer empty made (λ i. omega arith)
      (λ i. omega arith) (omega arith) (omega arith) request_made

-- The same request over TCP, as number 7, as the slave receives it
abbrev query : Bytes
query = (make_query 12 1 3 1 2 no_pointer empty 7).packet

abbrev arrived : Bytes
arrived i = if ltb i 12 then query i else 0

arrived-IsBytes : IsBytes arrived
unfolding make_query modbus_make_tcp_packet request_head request_body request_crc tcp_request
arrived-IsBytes i = ground arith

abbrev other : Bytes
other i = 9

abbrev socket : Socket
socket = record {
  socket_id = pos 3;
  writable = true;
  sent = pos 12;
  turns =
      answer (pos 9) other
      ∷ answer (pos (modbus_tcp_packet platform tables (λ i. 0) arrived 12 state).len_reply)
          (modbus_tcp_packet platform tables (λ i. 0) arrived 12 state).pckt
      ∷ [];
  failed = false;
}

stale : IsStale (query 0) (query 1) (answer (pos 9) other ∷ [])
unfolding make_query modbus_make_tcp_packet request_head request_body request_crc tcp_request
stale = another 9 other [] (omega arith) (inl (omega arith)) none_left

answered :
    IsAnswered query 12
      (modbus_tcp_packet platform tables (λ i. 0) arrived 12 state).len_reply
      (modbus_tcp_packet platform tables (λ i. 0) arrived 12 state).pckt
      socket
answered = record {
  stale = answer (pos 9) other ∷ [];
  later = [];
  is_writable = refl;
  is_sent = refl;
  is_turns = refl;
  is_stale = stale;
  is_sound = refl;
}

modbus_master_read_registers-modbus_tcp_packet_example :
    let x = modbus_master_read_registers empty 12 socket 7 3 1 1 2 (some empty) 2 in
    x.res ≡ pos (2 * 2 + 9)
    × HasWords 2 (pointer platform tables 1 3) state.mem empty (buffer_of empty x.dest)
modbus_master_read_registers-modbus_tcp_packet_example =
    modbus_master_read_registers-modbus_tcp_packet platform tables (λ i. 0) empty arrived 12 1 3 1 2
      7 state empty socket refl (omega arith) (omega arith) (inl refl)
      (rw found_at_102 (omega arith)) (omega arith) (omega arith) arrived-IsBytes state-IsBytes
      (λ i lt. ground arith) answered

-- A stale answer, then one with the identifier 9
abbrev echoing : Socket
echoing = record socket { turns = answer (pos 9) empty ∷ answer (pos 12) other ∷ []; sent = pos 12 }

echoed : is_positive (modbus_tcp_master_packet_transaction other 12 echoing).0 ≡ true
unfolding modbus_tcp_master_packet_transaction send_and_receive receive_loop received
echoed = refl

modbus_tcp_master_packet_transaction-id_example :
    (modbus_tcp_master_packet_transaction other 12 echoing).1 0 ≡ other 0
    × (modbus_tcp_master_packet_transaction other 12 echoing).1 1 ≡ other 1
modbus_tcp_master_packet_transaction-id_example =
    modbus_tcp_master_packet_transaction-id other 12 echoing echoed

-- A socket that cannot be written to
abbrev closed : Socket
closed = record socket { writable = false }

abbrev asked : ClientRequest
asked = record {
  channel = 12;
  slave_id = 1;
  mb_function = 16;
  address = 1;
  count = 2;
  coms_buffer = empty;
}

abbrev counters : Counters
counters = record {
  comm_period_current = 0;
  comm_period_max = 5;
  comm_period_min = 5;
  succ_transactions_number = 1;
  error_transactions_number = 2;
}

modbus_master_execute_request-buffer_example :
    (modbus_master_execute_request empty closed asked 10 20 counters 7).client_request ≡ asked
modbus_master_execute_request-buffer_example =
    modbus_master_execute_request-buffer empty closed asked 10 20 counters 7 (inr (omega arith))

modbus_master_execute_request-counters_example :
    let x = modbus_master_execute_request empty closed asked 10 20 counters 7 in
    let d = x.counters in
    (d.succ_transactions_number + d.error_transactions_number) % 2 ^ 32 ≡ (1 + 2 + 1) % 2 ^ 32
    × ((d.error_transactions_number ≡ 2) ⊎ (is_negative x.result ≡ true))
    × ((d.succ_transactions_number ≡ 1) ⊎ (is_negative x.result ≡ false))
    × d.comm_period_min ≤ d.comm_period_current
    × d.comm_period_current ≤ d.comm_period_max
    × d.comm_period_min ≤ 5
    × 5 ≤ d.comm_period_max
modbus_master_execute_request-counters_example =
    modbus_master_execute_request-counters empty closed asked 10 20 counters 7

-- One slave, number 5
abbrev slaves : SlaveTable
slaves = record { slaves_ip_table = λ i. record { ip = 77; modbus_id = 5 }; slaves_number = 1 }

slaves-IsTable : IsTable slaves
slaves-IsTable = record { bounded = omega arith; distinct = λ j k lt hi. absurd (omega arith) }

add_ip_to_slave_table-lookup_example :
    let r = add_ip_to_slave_table slaves 78 6 in
    IsTable r.1 × (IsAdded slaves 78 6 r ⊎ IsKept slaves 78 r)
add_ip_to_slave_table-lookup_example = add_ip_to_slave_table-lookup slaves 78 6 slaves-IsTable
