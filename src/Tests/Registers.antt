-- ===== src/Tests/Registers.antt =====
-- Registers and the Modbus slave over two tables: main/regs_description.c, main/regs.c and
-- main/modbus.c.
use esp32_template.Base.{
  ℕ, zero, suc, ◌+◌, ◌*◌, ◌%◌, ◌^◌, ◌<◌, ◌≤◌, ◌≡◌, ◌≢◌, inl, inr, refl, sym, ◌∙◌, arith, true,
  false, none, some, List, [], ◌∷◌, ltb, ◌==◌, if◌then◌else◌, get_elem?,
}
use esp32_template.Base.Bytes.{Bytes, IsBytes}
use esp32_template.Base.Int.{minus}
use esp32_template.Crc.{modbus_crc16_check}
use esp32_template.Description.{
  RegsFlag, byte_size, end_address, rd_mdb_function, RegsDescription, RegsTable, RegsTemplate,
  regs_description_is_writable, regs_description_is_credential, regs_description_flag_check,
}
use esp32_template.Description.ByAddress.{
  IsLaidOut, AllLaidOut, get_by_address-get_index_by_address,
}
use esp32_template.Description.ByModbus.{
  IsMapped, AllMapped, mdb_address, mdb_words, Described, HasWord, word_pointer,
  get_pointer_by_modbus_complete,
}
use esp32_template.Description.Lookup.{
  regs_description_get_by_address, regs_description_get_index_by_address,
  regs_description_get_by_index, regs_description_get_pointer_by_modbus, bin_search_address,
  find_in_tables, modbus_covers, pointer_in_table,
}
use esp32_template.Description.Search.{search_loop}
use esp32_template.Modbus.Holding.{
  IsException, modbus_rtu_packet-reads, modbus_rtu_packet-protected, modbus_rtu_packet-words,
}
use esp32_template.Modbus.Reply.{modbus_rtu_packet-checked}
use esp32_template.Modbus.Server.{modbus_rtu_packet}
use esp32_template.Platform.{Platform}
use esp32_template.Regs.{no_bytes, nothing_written}
use esp32_template.Regs.Access.{IsProtected, regs_set-protected}
use esp32_template.Regs.Command.{State}
use esp32_template.Regs.Set.{regs_set, regs_set_buffer}

-- A register of one or more words, a holding register
abbrev pub word_register : ℕ → ℕ → ℕ → ℕ → RegsDescription
word_register p_value mdb size property = record {
  p_default = 0;
  p_min_value = 0;
  p_max_value = 0;
  p_value = p_value;
  saved_address = 0;
  name = b'r' ∷ [];
  guid = mdb;
  modbus_description = mdb + 3 * 2 ^ 16;
  type = RegsFlag.u16_regs_flag;
  size = size;
  property = property;
}

-- The second register is read-only.
abbrev pub first_table : RegsTable
first_table = record {
  description = word_register 100 0 2 0 ∷ word_register 104 2 1 2 ∷ [];
  table_version = 1;
  space_name = b'm' ∷ [];
  saved_regs_buffer = 0;
  saved_regs_buffer_size = 0;
}

abbrev pub second_table : RegsTable
second_table = record first_table { description = word_register 200 7 1 0 ∷ [] }

abbrev pub tables : List RegsTable
tables = first_table ∷ second_table ∷ []

first-IsLaidOut : IsLaidOut first_table.description
first-IsLaidOut = record { apart = apart; occupied = occupied; counted = omega arith }
  where
    apart :
        (i j : ℕ) (x y : RegsDescription)
        → get_elem? first_table.description i ≡ some x
        → get_elem? first_table.description j ≡ some y
        → i < j
        → end_address x ≤ y.p_value
    apart zero (suc zero) x y hx hy lt = ground arith
    apart zero zero x y hx hy lt = absurd (omega arith)
    apart zero (suc (suc j)) x y hx hy lt = ground arith
    apart (suc zero) zero x y hx hy lt = absurd (omega arith)
    apart (suc zero) (suc j) x y hx hy lt = ground arith
    apart (suc (suc i)) j x y hx hy lt = ground arith

    occupied :
        (i : ℕ) (x : RegsDescription)
        → get_elem? first_table.description i ≡ some x
        → 0 < byte_size x
    occupied zero x e = ground arith
    occupied (suc zero) x e = ground arith
    occupied (suc (suc i)) x e = ground arith

second-IsLaidOut : IsLaidOut second_table.description
second-IsLaidOut = record { apart = apart; occupied = occupied; counted = omega arith }
  where
    apart :
        (i j : ℕ) (x y : RegsDescription)
        → get_elem? second_table.description i ≡ some x
        → get_elem? second_table.description j ≡ some y
        → i < j
        → end_address x ≤ y.p_value
    apart zero zero x y hx hy lt = absurd (omega arith)
    apart zero (suc j) x y hx hy lt = ground arith
    apart (suc i) j x y hx hy lt = ground arith

    occupied :
        (i : ℕ) (x : RegsDescription)
        → get_elem? second_table.description i ≡ some x
        → 0 < byte_size x
    occupied zero x e = ground arith
    occupied (suc i) x e = ground arith

laid_out : AllLaidOut tables
laid_out = (first-IsLaidOut, (second-IsLaidOut, tt))

first-IsMapped : IsMapped 3 first_table.description
first-IsMapped = record { same_function = same_function; ascending = ascending }
  where
    same_function :
        (i : ℕ) (x : RegsDescription)
        → get_elem? first_table.description i ≡ some x
        → rd_mdb_function x.modbus_description ≡ 3
    same_function zero x e = ground arith
    same_function (suc zero) x e = ground arith
    same_function (suc (suc i)) x e = ground arith

    ascending :
        (i j : ℕ) (x y : RegsDescription)
        → get_elem? first_table.description i ≡ some x
        → get_elem? first_table.description j ≡ some y
        → i < j
        → mdb_address x + mdb_words x ≤ mdb_address y
    ascending zero (suc zero) x y hx hy lt = ground arith
    ascending zero zero x y hx hy lt = absurd (omega arith)
    ascending zero (suc (suc j)) x y hx hy lt = ground arith
    ascending (suc zero) zero x y hx hy lt = absurd (omega arith)
    ascending (suc zero) (suc j) x y hx hy lt = ground arith
    ascending (suc (suc i)) j x y hx hy lt = ground arith

mapped : AllMapped 3 tables
mapped = ((first-IsMapped, placed), ((second_mapped, placed'), tt))
  where
    second_mapped : IsMapped 3 second_table.description
    second_mapped = record { same_function = same_function; ascending = ascending }
      where
        same_function :
            (i : ℕ) (x : RegsDescription)
            → get_elem? second_table.description i ≡ some x
            → rd_mdb_function x.modbus_description ≡ 3
        same_function zero x e = ground arith
        same_function (suc i) x e = ground arith

        ascending :
            (i j : ℕ) (x y : RegsDescription)
            → get_elem? second_table.description i ≡ some x
            → get_elem? second_table.description j ≡ some y
            → i < j
            → mdb_address x + mdb_words x ≤ mdb_address y
        ascending zero zero x y hx hy lt = absurd (omega arith)
        ascending zero (suc j) x y hx hy lt = ground arith
        ascending (suc i) j x y hx hy lt = ground arith

    placed :
        (k : ℕ) (x : RegsDescription) → get_elem? first_table.description k ≡ some x → 0 < x.p_value
    placed zero x e = ground arith
    placed (suc zero) x e = ground arith
    placed (suc (suc i)) x e = ground arith

    placed' :
        (k : ℕ) (x : RegsDescription)
        → get_elem? second_table.description k ≡ some x
        → 0 < x.p_value
    placed' zero x e = ground arith
    placed' (suc i) x e = ground arith

get_by_address-get_index_by_address_example :
    regs_description_get_by_address tables 103
    ≡ (elim (regs_description_get_index_by_address tables 103) [
      | none ↦ none
      | some g ↦ regs_description_get_by_index tables g
    ])
get_by_address-get_index_by_address_example =
    get_by_address-get_index_by_address tables 103 laid_out

get_pointer_by_modbus_complete_example :
    ((regs_description_get_pointer_by_modbus tables 1 3 ≢ 0)
      → (x : RegsDescription) × Described tables x
        × HasWord x 1
        × (regs_description_get_pointer_by_modbus tables 1 3 ≡ word_pointer x 1))
    × ((x : RegsDescription)
        → Described tables x
        → HasWord x 1
        → regs_description_get_pointer_by_modbus tables 1 3 ≢ 0)
get_pointer_by_modbus_complete_example = get_pointer_by_modbus_complete 3 1 tables mapped

-- The platform's registers are in none of the tables.
abbrev pub platform : Platform
platform = record {
  mdb_addr = 1000;
  permission = 1002;
  command = 1004;
  table_id = 1006;
  sleep_time = 1008;
  table_to_save = 1010;
  async_flags = 1012;
  ip = 1016;
  gate = 1020;
  netmask = 1024;
  wifi_name = 1028;
  wifi_password = 1060;
  wifi_router_name = 1092;
  wifi_router_password = 1124;
  esp_crc32_le = λ bytes. 0;
  float_lt = λ a b. ltb a b;
  double_lt = λ a b. ltb a b;
  updater_selected = false;
}

abbrev pub memory : Bytes
memory a = a % 256

pub memory-IsBytes : IsBytes memory
memory-IsBytes a = omega arith

abbrev pub state : State
state = record {
  mem = λ a. if a == 1002 then 0 else memory a;
  temp = record {
    bytes = no_bytes;
    written = nothing_written;
    reg_address = 0;
    type = RegsFlag.no_flag;
  };
  sent = [];
}

pub state-IsBytes : IsBytes state.mem
state-IsBytes a = ground arith

-- A request: the slave 1, the function, an address and a number or a value
abbrev pub request : ℕ → ℕ → ℕ → Bytes
request function address value i =
    if i == 0
    then 1
    else if i == 1
    then function
    else if i == 3
    then address
    else if i == 5
    then value
    else 0

program : Unit {0}
unfolding regs_description_get_by_address bin_search_address find_in_tables search_loop
    regs_description_get_pointer_by_modbus pointer_in_table modbus_covers
    regs_description_is_writable regs_description_is_credential regs_description_flag_check
program = tt

found_at_104 : regs_description_get_pointer_by_modbus tables 2 3 ≡ 104
unfolding program
found_at_104 = refl

pub found_at_102 : regs_description_get_pointer_by_modbus tables 1 3 ≡ 102
unfolding program
found_at_102 = refl

abbrev read_only_template : RegsTemplate
read_only_template = record { desc = word_register 104 2 1 2; size_in_bytes = 2; table_ind = 0 }

found_template : regs_description_get_by_address tables 104 ≡ some read_only_template
unfolding program
found_template = refl

is_protected :
    (t : RegsTemplate) → some t ≡ some read_only_template → regs_description_is_writable t ≡ false
unfolding program
is_protected t e = let same : t ≡ read_only_template = cc in rw same refl

protected : IsProtected platform tables state 104
protected t e = (is_protected t (sym e ∙ found_template), inr refl)

regs_set-protected_example :
    (regs_set platform tables state 104 (record { flag = RegsFlag.u16_regs_flag; value = memory })
      ≡ (minus 2, state))
    × (regs_set_buffer platform tables state 104 (1 ∷ 2 ∷ []) ≡ (minus 2, state))
regs_set-protected_example =
    regs_set-protected platform tables state 104
      (record { flag = RegsFlag.u16_regs_flag; value = memory }) 1 (2 ∷ []) protected

modbus_rtu_packet-checked_example :
    let o = modbus_rtu_packet platform tables (λ i. 0) (request 3 1 2) state in
    5 ≤ o.len_reply × o.len_reply ≤ 255 × modbus_crc16_check o.pckt o.len_reply ≡ true
modbus_rtu_packet-checked_example =
    modbus_rtu_packet-checked platform tables (λ i. 0) (request 3 1 2) state (λ i. ground arith)
      state-IsBytes

modbus_rtu_packet-reads_example :
    (modbus_rtu_packet platform tables (λ i. 0) (request 3 1 2) state).state ≡ state
modbus_rtu_packet-reads_example =
    modbus_rtu_packet-reads platform tables (λ i. 0) (request 3 1 2) state (omega arith)

modbus_rtu_packet-protected_example :
    IsException platform tables 2
      (request 6 2 5)
      state
      (modbus_rtu_packet platform tables (λ i. 0) (request 6 2 5) state)
modbus_rtu_packet-protected_example =
    modbus_rtu_packet-protected platform tables (λ i. 0) (request 6 2 5) state refl
      (rw found_at_104 (omega arith)) (rw found_at_104 protected)

modbus_rtu_packet-words_example :
    let p = regs_description_get_pointer_by_modbus tables 1 3 in
    let o = modbus_rtu_packet platform tables (λ i. 0) (request 3 1 2) state in
    o.len_reply ≡ 2 * 2 + 5
    × o.pckt 1 ≡ 3
    × o.pckt 2 ≡ 2 * 2
    × o.pckt (3 + 1 * 2) ≡ state.mem (p + 1 * 2 + 1)
    × o.pckt (3 + 1 * 2 + 1) ≡ state.mem (p + 1 * 2)
modbus_rtu_packet-words_example =
    modbus_rtu_packet-words platform tables (λ i. 0) (request 3 1 2) state 1 (inl refl)
      (rw found_at_102 (omega arith)) (omega arith) (omega arith)
