-- ===== src/Tests/Broadcasts.antt =====
-- Broadcasts over UDP: main/udp_broadcast/udp_broadcast.c.
use esp32_template.Base.{
  ◌%◌, ◌⊎◌, ◌≡◌, refl, arith, true, false, none, some, [], ◌++◌, length, get_or,
}
use esp32_template.Json.Strings.{Text, codes}
use esp32_template.Modbus.Slaves.{SlaveTable}
use esp32_template.Morse.{MorseState, message_is_new}
use esp32_template.Tests.Registers.{platform, memory, memory-IsBytes}
use esp32_template.Udp.{
  Known, advertisment_request, advertisement_packet, sender, udp_broadcast_server_recv,
}
use esp32_template.Base.Int.{ℤ}
use esp32_template.Modbus.Slaves.Lookup.{IsTable, IsAdded, IsKept}
use esp32_template.Udp.Fields.{HasDeviceData}
use esp32_template.Udp.Discovery.{udp_broadcast_server_recv-advertisment_answer}
use esp32_template.Udp.Messages.{HasLength, IsShown, udp_broadcast_server_recv-advertisement_packet}

abbrev no_slaves : SlaveTable
no_slaves = record { slaves_ip_table = λ i. record { ip = 0; modbus_id = 0 }; slaves_number = 0 }

abbrev quiet : MorseState
quiet = record {
  log_pointer = 0;
  regs = λ i. 0;
  morse_counter = 5;
  morse_message_position = 0;
  backlight = false;
  sleep_signals = 0;
}

abbrev known : Known
known = record { slaves = no_slaves; morse = quiet }

-- A check value of 32 bytes
abbrev check_value : Text → Text
check_value text = codes "0123456789abcdef0123456789abcdef"

no_slaves-IsTable : IsTable no_slaves
no_slaves-IsTable = record { bounded = omega arith; distinct = λ j k lt hi. absurd (omega arith) }

udp_broadcast_server_recv-advertisment_answer_example :
    (answer : Text) × (udp_broadcast_server_recv platform none memory known 7 1 advertisment_request
        ≡ some (answer, known)
      × HasDeviceData platform memory answer
      × ((r : ℤ × SlaveTable) × (udp_broadcast_server_recv platform
                (some check_value)
                memory
                known
                9
                2
                answer
              ≡ some ([], record { slaves = r.1; morse = quiet })
            × IsTable r.1
            × (IsAdded no_slaves 9 (memory platform.mdb_addr) r ⊎ IsKept no_slaves 9 r))))
udp_broadcast_server_recv-advertisment_answer_example =
    udp_broadcast_server_recv-advertisment_answer platform platform none (some check_value) memory
      memory known known 7 1 9 2 memory-IsBytes no_slaves-IsTable

check_value-HasLength : HasLength (some check_value)
check_value-HasLength text = refl

is_new :
    message_is_new quiet.regs
      (some (λ i. get_or (sender 42 ++ codes "SOS") i 0))
      (length (sender 42 ++ codes "SOS") % 256)
    ≡ true
unfolding message_is_new
is_new = refl

udp_broadcast_server_recv-advertisement_packet_example :
    (k : Known) × (udp_broadcast_server_recv platform
          (some check_value)
          memory
          known
          7
          42
          (advertisement_packet (some check_value) (codes "SOS"))
        ≡ some ([], k)
      × IsShown 42 (codes "SOS") quiet k.morse)
udp_broadcast_server_recv-advertisement_packet_example =
    udp_broadcast_server_recv-advertisement_packet platform (some check_value) memory known 7 42
      (codes "SOS") check_value-HasLength (omega arith) (omega arith) is_new
