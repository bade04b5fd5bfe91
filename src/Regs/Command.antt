-- ===== src/Regs/Command.antt =====
-- `execute_main_command` of main/regs.c, `set_regs_def_values` of main/regs_description.c, and the
-- state that the register functions share.
use esp32_template.Base.{
  ℕ, zero, suc, ◌+◌, ◌-◌, bit_and, bit_or, Bool, none, some, List, [], ◌∷◌, ◌++◌,
}
use esp32_template.Base.{ltb, ◌==◌, if◌then◌else◌}
use esp32_template.Base.Bytes.{Bytes, store, get_u16, put_u16}
use esp32_template.Description.{RegsTemplate, RegsTable}
use esp32_template.Description.Lookup.{regs_description_get_by_index_in_table}
use esp32_template.Mirror.{
  copy, get_num_of_regs, mirror_access_init_buffer, mirror_request_flash_save,
}
use esp32_template.Platform.{Platform}
use esp32_template.Regs.{TempBuffer}

-- Signals to the other tasks
pub data Notice : Type 0 where
  prepare_to_reset : Notice
  deep_sleep_for_120_sec : Notice
  deep_sleep_for_n_sec : ℕ → Notice
  deep_sleep : Notice
  reset_wifi_for_120_sec : Notice

-- Memory, the temporary buffer of `regs_set`, and the signals sent so far
pub record State : Type 0 where
  pub mem : Bytes
  pub temp : TempBuffer
  pub sent : List Notice

abbrev pub zeros : ℕ → List ℕ
zeros zero = []
zeros (suc n) = 0 ∷ zeros n

abbrev pub enable_http_flag : ℕ
enable_http_flag = 1

abbrev pub enable_credential_flag : ℕ
enable_credential_flag = 2

module _ (tables : List RegsTable) where
  -- The default of one register, or zeros
  unfoldable pub set_def_value : Bytes → RegsTemplate → Bytes
  unfolding copy store
  set_def_value m t =
      if t.desc.p_default == 0
      then store m t.desc.p_value (zeros t.size_in_bytes)
      else copy m t.desc.p_value t.desc.p_default t.size_in_bytes

  unfoldable pub def_values_loop : ℕ → ℕ → ℕ → Bytes → Bytes
  unfolding set_def_value regs_description_get_by_index_in_table
  def_values_loop table_ind zero i m = m
  def_values_loop table_ind (suc left) i m =
      def_values_loop table_ind left (i + 1)
        (elim (regs_description_get_by_index_in_table tables table_ind i) [
          | none ↦ m
          | some t ↦ set_def_value m t
        ])

  -- The result tells whether the table has registers.
  unfoldable pub set_regs_def_values : Bytes → ℕ → Bool × Bytes
  unfolding def_values_loop get_num_of_regs
  set_regs_def_values m table_ind =
      let n = get_num_of_regs tables table_ind in (ltb 0 n, def_values_loop table_ind n 0 m)

module _ (pf : Platform) (tables : List RegsTable) where
  abbrev pub notify : State → Notice → State
  notify s notice = record s { sent = s.sent ++ notice ∷ [] }

  abbrev pub permission : State → ℕ
  permission s = get_u16 s.mem pf.permission

  abbrev pub set_permission : State → ℕ → State
  set_permission s v = record s { mem = put_u16 s.mem pf.permission v }

  unfoldable pub set_default_values_command : State → State
  unfolding set_regs_def_values mirror_access_init_buffer mirror_request_flash_save
  set_default_values_command s =
      let (done, m) = set_regs_def_values tables s.mem (get_u16 s.mem pf.table_id) in
      if done
      then (let ind = get_u16 m pf.table_id in
          let m' = (mirror_access_init_buffer pf tables m ind).1 in
          notify
            (record s { mem = mirror_request_flash_save pf tables m' (get_u16 m' pf.table_id) })
            prepare_to_reset)
      else record s { mem = m }

  -- Other command numbers do nothing.
  unfoldable pub execute_main_command : State → ℕ → State
  unfolding set_default_values_command
  execute_main_command s command =
      if command == 0x5500
      then notify s prepare_to_reset
      else if command == 0x5502
      then set_default_values_command s
      else if command == 0x53ff
      then set_permission s (bit_or (permission s) enable_credential_flag)
      else if command == 0x5400
      then set_permission s (bit_and (permission s) (0xFFFF - enable_credential_flag))
      else if command == 0x52ff
      then set_permission s (bit_or (permission s) enable_http_flag)
      else if command == 0x5300
      then set_permission s (bit_and (permission s) (0xFFFF - enable_http_flag))
      else if command == 0x550D
      then notify s deep_sleep_for_120_sec
      else if command == 0x550f
      then notify s (deep_sleep_for_n_sec (get_u16 s.mem pf.sleep_time))
      else if command == 0x5510
      then notify s deep_sleep
      else if command == 0x550E
      then notify s reset_wifi_for_120_sec
      else if command == 0x5511
      then (if pf.updater_selected then notify s prepare_to_reset else s)
      else s
