-- ===== src/Regs/Set.antt =====
-- `regs_set`, `regs_set_buffer` and `regs_get_buffer` of main/regs.c.
use esp32_template.Base.{ℕ, ◌+◌, bit_and, Bool, ◌&&◌, ◌||◌, Option, none, some, List, [], ◌∷◌}
use esp32_template.Base.{◌==◌, not, if◌then◌else◌}
use esp32_template.Base.Bytes.{Bytes, load, store, get_u16}
use esp32_template.Base.Int.{ℤ, pos, minus, is_negative, is_positive}
use esp32_template.Description.{
  RegsFlag, regs_size_in_byte, RegsTemplate, RegsTable, saving, regs_description_flag_check,
  regs_description_is_writable, regs_description_is_credential,
}
use esp32_template.Description.Lookup.{regs_description_get_by_address}
use esp32_template.Mirror.{mirror_access_write}
use esp32_template.Platform.{Platform}
use esp32_template.Regs.{
  RegsAccess, regs_fill_temp_buffer, regs_check_temp_buffer, regs_clear_temp_buffer,
  regs_write_value_check, no_bytes,
}
use esp32_template.Regs.Command.{State, permission, enable_credential_flag, execute_main_command}

-- `byte_num` bytes at the address, or nothing for a NULL address or no bytes
unfoldable pub regs_get_buffer : Bytes → ℕ → ℕ → Option (List ℕ)
unfolding load
regs_get_buffer m reg_address byte_num =
    if (reg_address == 0) || (byte_num == 0) then none else some (load m reg_address byte_num)

module _ (pf : Platform) (tables : List RegsTable) where
  -- The register that may be written from outside: it is not read-only, or it is a credential and
  -- credentials are enabled.
  unfoldable pub may_write : State → RegsTemplate → Bool
  unfolding regs_description_is_writable regs_description_is_credential
  may_write s t =
      regs_description_is_writable t
      || (regs_description_is_credential t
          && not (bit_and (permission pf tables s) enable_credential_flag == 0))

  unfoldable pub regs_write_access : State → ℕ → Option RegsTemplate
  unfolding may_write regs_description_get_by_address
  regs_write_access s reg_address = elim (regs_description_get_by_address tables reg_address) [
    | none ↦ none
    | some t ↦ if may_write s t then some t else none
  ]

  -- The address after the register that covers `address`; NULL if there is none
  unfoldable pub end_of_reg_addr : ℕ → ℕ
  unfolding regs_description_get_by_address
  end_of_reg_addr address = elim (regs_description_get_by_address tables address) [
    | none ↦ 0
    | some t ↦ t.desc.p_value + t.size_in_bytes
  ]

  -- A command is executed when the command register has been written; the end of a register
  -- identifies it.
  unfoldable pub handle_special : State → RegsTemplate → State
  unfolding end_of_reg_addr execute_main_command
  handle_special s t =
      let end_addr = t.desc.p_value + t.size_in_bytes in
      if (end_addr == end_of_reg_addr pf.ip)
        || (end_addr == end_of_reg_addr pf.gate)
        || (end_addr == end_of_reg_addr pf.netmask)
      then s
      else if end_addr == end_of_reg_addr pf.command
      then execute_main_command pf tables s (get_u16 s.mem pf.command)
      else s

  -- The register is copied to the mirror if it is a saved one, then commands are executed.
  unfoldable pub regs_hadle_sets : State → RegsTemplate → State
  unfolding handle_special mirror_access_write regs_description_flag_check
  regs_hadle_sets s t =
      if t.desc.p_value == 0
      then s
      else if regs_description_flag_check t saving
      then handle_special (record s { mem = (mirror_access_write pf tables s.mem t).1 }) t
      else handle_special s t

  -- A whole item is checked and stored, and the temporary buffer is emptied.
  unfoldable pub store_item : State → RegsTemplate → ℤ → ℤ × State
  unfolding regs_write_value_check regs_hadle_sets regs_clear_temp_buffer load store
  store_item s t result =
      let (checked, temp) = regs_write_value_check pf s.mem s.temp t in
      if is_positive checked
      then (
        result,
        regs_hadle_sets
            (record s {
              mem = store s.mem temp.reg_address (load temp.bytes 0 (regs_size_in_byte temp.type));
              temp = regs_clear_temp_buffer temp;
            })
            t,
      )
      else (minus 3, regs_hadle_sets (record s { temp = regs_clear_temp_buffer temp }) t)

  -- 1, or -2 without write access, or -3 for a value that may not be stored
  unfoldable pub regs_set : State → ℕ → RegsAccess → ℤ × State
  unfolding regs_write_access regs_fill_temp_buffer regs_check_temp_buffer store_item
  regs_set s reg_address reg = elim (regs_write_access s reg_address) [
    | none ↦ (minus 2, s)
    | some t ↦
        let (filled, temp) = regs_fill_temp_buffer t reg s.temp reg_address in
        let result = if is_negative filled then minus 3 else pos 1 in
        let s' = record s { temp = temp } in
        if is_positive (regs_check_temp_buffer temp t) then store_item s' t result else (result, s')
  ]

  -- One byte as a register access
  abbrev pub byte_access : ℕ → RegsAccess
  byte_access b = record { flag = RegsFlag.u8_regs_flag; value = store no_bytes 0 (b ∷ []) }

  -- Byte by byte, until a byte is refused; the result is that of the last byte written, 0 for none
  unfoldable pub set_buffer_loop : State → ℕ → List ℕ → ℤ → ℤ × State
  unfolding regs_set
  set_buffer_loop s reg_address [] result = (result, s)
  set_buffer_loop s reg_address (b ∷ buffer) result =
      let (res, s') = regs_set s reg_address (byte_access b) in
      let rest = set_buffer_loop s' (reg_address + 1) buffer res in
      if is_negative res then (res, s') else rest

  unfoldable pub regs_set_buffer : State → ℕ → List ℕ → ℤ × State
  unfolding set_buffer_loop
  regs_set_buffer s reg_address buffer = set_buffer_loop s reg_address buffer (pos 0)
