-- ===== src/Udp/Discovery.antt =====
-- Devices find each other: a request is answered, and the answer puts the device into the table of
-- slaves (main/udp_broadcast/udp_broadcast.c, main/modbus_tcp_client/modbus_tcp_client.c).
use esp32_template.Base.{
  ℕ, ◌+◌, ◌%◌, ◌⊎◌, arith, ◌≡◌, refl, ap, ◌∙◌, Bool, true, false, Option, none, some, [], ◌∷◌, ◌++◌,
  if◌then◌else◌,
}
use esp32_template.Base.Bytes.{Bytes, IsBytes, get_u16}
use esp32_template.Json.Output.Holds.{take-all}
use esp32_template.Json.Strings.{Text, codes, begins_with, strstr}
use esp32_template.Modbus.Slaves.{SlaveTable, add_ip_to_slave_table}
use esp32_template.Modbus.Slaves.Lookup.{IsTable, IsAdded, IsKept, add_ip_to_slave_table-lookup}
use esp32_template.Base.Int.{ℤ}
use esp32_template.Morse.{MorseState}
use esp32_template.Platform.{Platform}
use esp32_template.Udp.{
  unanswered, handle_other, handle_received, udp_broadcast_max_packet_size, advertisment_request,
  Known, advertisment_answer, learn_slave, check_packet, take_message, udp_broadcast_server_recv,
  with_morse,
}
use esp32_template.Udp.Fields.{HasDeviceData, advertisment_answer-HasDeviceData}
use esp32_template.Udp.Answer.{length-answer, learn_slave-answer, no_message}

-- Behind a text without a message nothing is taken.
take_message-none :
    (s : MorseState) (ip3 : ℕ) (receive : Text) (last_symbol_position : ℕ)
    → strstr (codes "message") receive ≡ none
    → take_message s ip3 receive last_symbol_position ≡ some s
unfolding take_message
take_message-none s ip3 receive last_symbol_position e = rw (e, take_message) refl

no_request :
    (pf : Platform) (m : Bytes)
    → begins_with (advertisment_request ++ 0 ∷ []) (advertisment_answer pf m ++ 0 ∷ []) ≡ false
unfolding begins_with advertisment_answer
no_request pf m = refl

module _ (pf pf' : Platform) (hmac hmac' : Option (Text → Text)) (m m' : Bytes) where
  answers_request :
      (k : Known) (ip ip3 : ℕ)
      → udp_broadcast_server_recv pf hmac m k ip ip3 advertisment_request
        ≡ some (advertisment_answer pf m, k)
  unfolding udp_broadcast_server_recv handle_received begins_with
  answers_request k ip ip3 = refl

  take_checked :
      (o : Bool × ℕ) (t : SlaveTable) (s : MorseState) (ip3 : ℕ) (receive : Text)
      → strstr (codes "message") receive ≡ none
      → with_morse t (if o.0 then take_message s ip3 receive o.1 else some s)
        ≡ some (record { slaves = t; morse = s })
  take_checked (true, last) t s ip3 receive e =
      ap (with_morse t) (take_message-none s ip3 receive last e)
  take_checked (false, last) t s ip3 receive e = refl

  handles_answer :
      (k : Known) (ip ip3 : ℕ)
      → IsBytes m
      → handle_other pf' hmac' k ip ip3 (advertisment_answer pf m)
        ≡ some (record {
          slaves = (add_ip_to_slave_table k.slaves ip (get_u16 m pf.mdb_addr % 256)).1;
          morse = k.morse;
        })
  unfolding handle_other
  handles_answer k ip ip3 h =
      take_checked (check_packet hmac' (advertisment_answer pf m))
        (learn_slave k.slaves ip (advertisment_answer pf m)) k.morse ip3 (advertisment_answer pf m)
        (no_message pf m)
      ∙ ap {B = Option Known} (λ t. some (record { slaves = t; morse = k.morse }))
          (learn_slave-answer pf m k.slaves ip h)

  received_other :
      (k : Known) (ip ip3 : ℕ) (receive : Text)
      → begins_with (advertisment_request ++ 0 ∷ []) (receive ++ 0 ∷ []) ≡ false
      → handle_received pf' hmac' m' k ip ip3 receive
        ≡ unanswered (handle_other pf' hmac' k ip ip3 receive)
  unfolding handle_received
  received_other k ip ip3 receive e = rw (e, handle_received) refl

  -- A device answers a request with its Modbus address, its address, netmask and gateway and the port
  -- 502, and changes nothing. A device that receives such an answer, whatever its check value and its
  -- registers, sends none and keeps the registers of its Morse key. Its table of slaves, without
  -- repetition and within its 256 places, stays so, and gets the address from which the answer came, so
  -- that the low byte of the sender's Modbus address leads to it and all other numbers to what they
  -- led to; or it stays as it is, because it has the address or is full.
  pub udp_broadcast_server_recv-advertisment_answer :
      (k k' : Known) (ip ip3 ip' ip3' : ℕ)
      → IsBytes m
      → IsTable k'.slaves
      → (answer : Text) × (udp_broadcast_server_recv pf hmac m k ip ip3 advertisment_request
            ≡ some (answer, k)
          × HasDeviceData pf m answer
          × ((r : ℤ × SlaveTable) × (udp_broadcast_server_recv pf' hmac' m' k' ip' ip3' answer
                  ≡ some ([], record { slaves = r.1; morse = k'.morse })
                × IsTable r.1
                × (IsAdded k'.slaves ip' (m pf.mdb_addr) r ⊎ IsKept k'.slaves ip' r))))
  unfolding udp_broadcast_server_recv
  udp_broadcast_server_recv-advertisment_answer k k' ip ip3 ip' ip3' h table =
      let low : get_u16 m pf.mdb_addr % 256 ≡ m pf.mdb_addr =
        omega (arith, h pf.mdb_addr, h (pf.mdb_addr + 1)) in
      let (well, outcome) = add_ip_to_slave_table-lookup k'.slaves ip' (m pf.mdb_addr) table in
      (
        advertisment_answer pf m,
        (
          answers_request k ip ip3,
          advertisment_answer-HasDeviceData pf m,
          (
            add_ip_to_slave_table k'.slaves ip' (m pf.mdb_addr),
            (
              ap (handle_received pf' hmac' m' k' ip' ip3') (
                    take-all udp_broadcast_max_packet_size (advertisment_answer pf m)
                      (length-answer pf m))
                  ∙ received_other k' ip' ip3' (advertisment_answer pf m) (no_request pf m)
                  ∙ ap unanswered (handles_answer k' ip' ip3' h)
                  ∙ ap
                      (λ (id : ℕ). some (
                        [],
                        record {
                          slaves = (add_ip_to_slave_table k'.slaves ip' id).1;
                          morse = k'.morse;
                        },
                      ))
                      low,
              well,
              outcome,
            ),
          ),
        ),
      )
