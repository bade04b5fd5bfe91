-- ===== src/Modbus/Server.antt =====
-- The Modbus slave: `modbus_rtu_packet` and `modbus_tcp_packet` of main/modbus.c. The packet does
-- not overlap the register memory, and one request is served at a time.
use esp32_template.Base.{
  ℕ, zero, suc, ◌+◌, ◌-◌, ◌*◌, ◌/◌, ◌%◌, ◌^◌, bit_and, bit_or, Bool, ◌||◌, none, some, List, [],
  ◌∷◌,
}
use esp32_template.Base.{ltb, leb, ◌==◌, not, if◌then◌else◌}
use esp32_template.Base.Bytes.{Bytes, load, store, put_u16}
use esp32_template.Base.Int.{ℤ, pos, negsuc}
use esp32_template.Crc.{modbus_crc16}
use esp32_template.Description.{RegsFlag, RegsTable}
use esp32_template.Description.Lookup.{regs_description_get_pointer_by_modbus}
use esp32_template.Modbus.{
  illegal_function, illegal_data_address, illegal_data_value, modbus_max_modbus_regs_num,
  modbus_max_read_coils, modbus_max_write_coils, modbus_tcp_header_size, put_u8, get_be16,
  htons_buff, behind, put_behind,
}
use esp32_template.Platform.{Platform}
use esp32_template.Regs.{RegsAccess, no_bytes}
use esp32_template.Regs.Command.{State}
use esp32_template.Regs.Set.{regs_get_buffer, regs_set, regs_set_buffer}

-- What a function's case leaves: `error`, `len_reply`, the packet and the registers
pub record Outcome : Type 0 where
  pub error : ℕ
  pub len_reply : ℕ
  pub pckt : Bytes
  pub state : State

-- The error that a negative result of the register functions becomes
unfoldable pub error_of : ℤ → ℕ
error_of (pos n) = 0
error_of (negsuc n) =
    if n + 1 == illegal_data_value then illegal_data_value else illegal_data_address

-- A bit of a byte of the packet is set or cleared.
unfoldable pub put_bit : Bytes → ℕ → ℕ → Bool → Bytes
put_bit pckt a bit_n on =
    if on
    then put_u8 pckt a (bit_or (pckt a) (2 ^ bit_n))
    else put_u8 pckt a (bit_and (pckt a) (255 - 2 ^ bit_n))

-- The coils from `i` on, each in the low bit of a word at `p_value`
unfoldable pub read_coils_loop : Bytes → ℕ → ℕ → ℕ → Bytes → Bytes
unfolding put_bit
read_coils_loop m p_value zero i pckt = pckt
read_coils_loop m p_value (suc left) i pckt =
    read_coils_loop m p_value left (i + 1)
      (put_bit pckt (3 + i / 8) (i % 8) (bit_and (m (p_value + i * 2)) 1 == 1))

-- The bits `j` and up of one byte of the request, while coils are left: the memory, the coils
-- written and the coils left. `upper` is what stands in the half of the operand that is not set.
unfoldable pub write_bits_loop : (ℕ → ℕ) → ℕ → ℕ → ℕ → ℕ → ℕ → ℕ → Bytes → Bytes × ℕ × ℕ
unfolding store
write_bits_loop upper p_value byte zero j write_bit num_bit m = (m, write_bit, num_bit)
write_bits_loop upper p_value byte (suc left) j write_bit num_bit m =
    let m' =
      store m (p_value + write_bit * 2)
        ((if byte / 2 ^ j % 2 == 1 then 1 else 0) ∷ upper write_bit ∷ []) in
    let rest = write_bits_loop upper p_value byte left (j + 1) (write_bit + 1) (num_bit - 1) m' in
    if num_bit == 0 then (m, write_bit, num_bit) else rest

-- The bytes `i` and up of the request
unfoldable pub write_coils_loop : (ℕ → ℕ) → Bytes → ℕ → ℕ → ℕ → ℕ → ℕ → Bytes → Bytes
unfolding write_bits_loop
write_coils_loop upper pckt p_value zero i write_bit num_bit m = m
write_coils_loop upper pckt p_value (suc left) i write_bit num_bit m =
    let (m', write_bit', num_bit') =
      write_bits_loop upper p_value (pckt (7 + i)) 8 0 write_bit num_bit m in
    write_coils_loop upper pckt p_value left (i + 1) write_bit' num_bit' m'

-- The word that a request writes, as a register access
abbrev pub word_access : Bytes → RegsAccess
word_access pckt = record {
  flag = RegsFlag.u16_regs_flag;
  value = put_u16 no_bytes 0 (get_be16 pckt 4);
}

module _ (pf : Platform) (tables : List RegsTable) where
  -- A case that ends in an error
  abbrev pub failed : ℕ → Bytes → State → Outcome
  failed error pckt s = record { error = error; len_reply = 5; pckt = pckt; state = s }

  abbrev pub pointer_by_modbus : ℕ → ℕ → ℕ
  pointer_by_modbus address function =
      regs_description_get_pointer_by_modbus tables address function

  -- The address of the last coil of a request
  abbrev pub last_coil : Bytes → ℕ
  last_coil pckt = (get_be16 pckt 2 + get_be16 pckt 4 + 0xFFFF) % 0x10000

  -- 0, 1 and 2: read coils
  unfoldable pub read_coils : ℕ → Bytes → State → Outcome
  unfolding read_coils_loop regs_description_get_pointer_by_modbus
  read_coils function pckt s =
      let num_bit = get_be16 pckt 4 in
      let p_value = pointer_by_modbus (get_be16 pckt 2) function in
      let len_reply = (num_bit + 7) / 8 % 256 in
      if (p_value == 0) || (pointer_by_modbus (last_coil pckt) function == 0)
      then failed illegal_data_address pckt s
      else if (num_bit == 0) || ltb modbus_max_read_coils num_bit
      then failed illegal_data_value pckt s
      else record {
        error = 0;
        len_reply = len_reply + 5;
        pckt = put_u8 (read_coils_loop s.mem p_value num_bit 0 pckt) 2 len_reply;
        state = s;
      }

  -- 3 and 4: read words
  unfoldable pub read_words : ℕ → Bytes → State → Outcome
  unfolding regs_get_buffer htons_buff store regs_description_get_pointer_by_modbus
  read_words function pckt s =
      let regs_numm = get_be16 pckt 4 in
      let p_value = pointer_by_modbus (get_be16 pckt 2) function in
      if ltb regs_numm 1 || ltb modbus_max_modbus_regs_num regs_numm
      then failed illegal_data_value pckt s
      else if p_value == 0
      then failed illegal_data_address pckt s
      else elim (regs_get_buffer s.mem p_value (regs_numm * 2)) [
        | none ↦ failed illegal_data_address pckt s
        | some bytes ↦ record {
          error = 0;
          len_reply = regs_numm * 2 % 256 + 5;
          pckt = put_u8 (htons_buff (store pckt 3 bytes) 3 regs_numm) 2 (regs_numm * 2 % 256);
          state = s;
        }
      ]

  -- 5: write one coil
  unfoldable pub write_coil : (ℕ → ℕ) → Bytes → State → Outcome
  unfolding store regs_description_get_pointer_by_modbus
  write_coil upper pckt s =
      let status = get_be16 pckt 4 in
      let p_value = pointer_by_modbus (get_be16 pckt 2) 1 in
      let written : ℕ → Outcome = λ bit. record {
        error = 0;
        len_reply = 8;
        pckt = pckt;
        state = record s { mem = store s.mem p_value (bit ∷ upper 0 ∷ []) };
      } in
      if p_value == 0
      then failed illegal_data_address pckt s
      else if status == 0xff00
      then written 1
      else if status == 0
      then written 0
      else failed illegal_data_value pckt s

  -- 6: write one word
  unfoldable pub write_word : Bytes → State → Outcome
  unfolding regs_set error_of regs_description_get_pointer_by_modbus
  write_word pckt s =
      let p_value = pointer_by_modbus (get_be16 pckt 2) 3 in
      if p_value == 0
      then failed illegal_data_address pckt s
      else (let (res_temp, s') = regs_set pf tables s p_value (word_access pckt) in
          record { error = error_of res_temp; len_reply = 8; pckt = pckt; state = s' })

  -- 15: write coils
  unfoldable pub write_coils : (ℕ → ℕ) → Bytes → State → Outcome
  unfolding write_coils_loop regs_description_get_pointer_by_modbus
  write_coils upper pckt s =
      let num_bit = get_be16 pckt 4 in
      let bytes_num = pckt 6 in
      let p_value = pointer_by_modbus (get_be16 pckt 2) 1 in
      if (p_value == 0) || (pointer_by_modbus (last_coil pckt) 1 == 0)
      then failed illegal_data_address pckt s
      else if (num_bit == 0)
          || ltb modbus_max_write_coils num_bit
          || not (bytes_num == (num_bit + 7) / 8)
      then failed illegal_data_value pckt s
      else record {
        error = 0;
        len_reply = 8;
        pckt = pckt;
        state = record s { mem = write_coils_loop upper pckt p_value bytes_num 0 0 num_bit s.mem };
      }

  -- 16: write words; the words stay swapped in the packet
  unfoldable pub write_words : Bytes → State → Outcome
  unfolding regs_set_buffer error_of htons_buff load regs_description_get_pointer_by_modbus
  write_words pckt s =
      let regs_numm = get_be16 pckt 4 in
      let p_value = pointer_by_modbus (get_be16 pckt 2) 3 in
      if ltb regs_numm 1 || ltb modbus_max_modbus_regs_num regs_numm
      then failed illegal_data_value pckt s
      else if p_value == 0
      then failed illegal_data_address pckt s
      else (let pckt' = htons_buff pckt 7 regs_numm in
          let (res_temp, s') = regs_set_buffer pf tables s p_value (load pckt' 7 (regs_numm * 2)) in
          record { error = error_of res_temp; len_reply = 8; pckt = pckt'; state = s' })

  -- The switch over the function code
  unfoldable pub serve : (ℕ → ℕ) → Bytes → State → Outcome
  unfolding read_coils read_words write_coil write_word write_coils write_words
  serve upper pckt s =
      let function = pckt 1 in
      if leb function 2
      then read_coils function pckt s
      else if leb function 4
      then read_words function pckt s
      else if function == 5
      then write_coil upper pckt s
      else if function == 6
      then write_word pckt s
      else if function == 15
      then write_coils upper pckt s
      else if function == 16
      then write_words pckt s
      else failed illegal_function pckt s

  -- An error makes the packet an exception; then the crc is put behind the reply.
  unfoldable pub finish : Outcome → Outcome
  finish o =
      let o' = if o.error == 0 then o else record o {
        len_reply = 5;
        pckt = put_u8 (put_u8 o.pckt 1 (bit_or (o.pckt 1) 0x80)) 2 o.error;
      } in
      record o' {
        pckt = put_u16 o'.pckt (o'.len_reply - 2) (modbus_crc16 o'.pckt (o'.len_reply - 2));
      }

  unfoldable pub modbus_rtu_packet : (ℕ → ℕ) → Bytes → State → Outcome
  unfolding serve finish
  modbus_rtu_packet upper pckt s = finish (serve upper pckt s)

  -- A packet over TCP has a header in front, which it is no shorter than, and no crc.
  unfoldable pub modbus_tcp_packet : (ℕ → ℕ) → Bytes → ℕ → State → Outcome
  unfolding modbus_rtu_packet
  modbus_tcp_packet upper pckt len s =
      let n = len - modbus_tcp_header_size in
      let inner = behind modbus_tcp_header_size pckt in
      let o = modbus_rtu_packet upper (put_u16 inner n (modbus_crc16 inner n)) s in
      let pckt' = put_behind modbus_tcp_header_size pckt o.pckt in
      let reply_len = o.len_reply - 2 in
      if ltb 4 o.len_reply
      then record o {
        len_reply = reply_len + modbus_tcp_header_size;
        pckt = put_u8 (put_u8 pckt' 4 (reply_len / 256)) 5 reply_len;
      }
      else record o { pckt = pckt' }
