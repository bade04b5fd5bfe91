-- ===== src/Description/Lookup.antt =====
-- The lookup functions of main/regs_description.c, over the list of the tables that have been
-- added (the array `regs_description_list` up to `num_of_list_descriptions`). A table has fewer
-- than 2 ^ 16 registers; its length is cut to that where the code passes it as a `u16`.
use esp32_template.Base.{
  ℕ, zero, suc, ◌+◌, ◌-◌, ◌*◌, ◌/◌, ◌%◌, ◌^◌, Bool, true, false, ◌&&◌, ◌||◌, Option, none, some,
  List, [], ◌∷◌, ◌++◌,
}
use esp32_template.Base.{ltb, leb, ◌==◌, if◌then◌else◌, length, get_elem?}
use esp32_template.Base.Int.{ℤ, pos, minus}
use esp32_template.Description.{
  RegsDescription, RegsTemplate, RegsTable, byte_size, end_address, rd_mdb_address, rd_mdb_function,
}
use esp32_template.Description.Search.{search_loop}

abbrev pub list_descriptions_size : ℕ
list_descriptions_size = 32

abbrev pub u16 : ℕ → ℕ
u16 n = n % 2 ^ 16

-- A template filled from an entry of table `i`
abbrev pub fill : RegsDescription → ℕ → RegsTemplate
fill r i = record { desc = r; size_in_bytes = u16 (byte_size r); table_ind = i }

abbrev pub covers : ℕ → RegsDescription → Bool
covers address r = leb r.p_value address && ltb address (end_address r)

abbrev pub lies_after : ℕ → RegsDescription → Bool
lies_after address r = ltb r.p_value address

unfoldable pub bin_search_address : ℕ → List RegsDescription → Option RegsDescription
unfolding search_loop
bin_search_address address regs =
    search_loop (covers address) (lies_after address) regs (u16 (length regs)) 0 (u16 (length regs))

unfoldable pub bin_search_guid : ℕ → List RegsDescription → Option RegsDescription
unfolding search_loop
bin_search_guid guid regs =
    search_loop (λ r. guid == r.guid) (λ r. ltb r.guid guid) regs (u16 (length regs)) 0
      (u16 (length regs))

-- The first table in which the search finds an entry, from table `i` on
unfoldable pub find_in_tables :
    (List RegsDescription → Option RegsDescription) → List RegsTable → ℕ → Option RegsTemplate
find_in_tables search [] i = none
find_in_tables search (t ∷ tables) i = elim (search t.description) [
  | some r ↦ some (fill r i)
  | none ↦ find_in_tables search tables (i + 1)
]

unfoldable pub regs_description_get_by_address : List RegsTable → ℕ → Option RegsTemplate
unfolding find_in_tables bin_search_address
regs_description_get_by_address tables address =
    find_in_tables (bin_search_address address) tables 0

unfoldable pub regs_description_get_by_guid : List RegsTable → ℕ → Option RegsTemplate
unfolding find_in_tables bin_search_guid
regs_description_get_by_guid tables guid = find_in_tables (bin_search_guid guid) tables 0

-- The number of the first register of a table that covers the address
unfoldable pub covering_index : ℕ → List RegsDescription → ℕ → Option ℕ
covering_index address [] j = none
covering_index address (r ∷ regs) j =
    let rest = covering_index address regs (j + 1) in if covers address r then some j else rest

unfoldable pub index_by_address_loop : ℕ → List RegsTable → ℕ → Option ℕ
unfolding covering_index
index_by_address_loop address [] base = none
index_by_address_loop address (t ∷ tables) base = elim (covering_index address t.description base) [
  | some g ↦ some g
  | none ↦ index_by_address_loop address tables (base + length t.description)
]

-- The number of a register over all tables; `none` is the -1 of the code.
unfoldable pub regs_description_get_index_by_address : List RegsTable → ℕ → Option ℕ
unfolding index_by_address_loop
regs_description_get_index_by_address tables address = index_by_address_loop address tables 0

-- `none` for an index past the table, which the code does not test.
unfoldable pub get_by_index_in : RegsTable → ℕ → ℕ → Option RegsTemplate
get_by_index_in t i ind = elim (get_elem? t.description ind) [
  | none ↦ none
  | some r ↦ some (fill r i)
]

unfoldable pub regs_description_get_by_index_in_table : List RegsTable → ℕ → ℕ → Option RegsTemplate
unfolding get_by_index_in
regs_description_get_by_index_in_table tables table_ind ind = elim (get_elem? tables table_ind) [
  | none ↦ none
  | some t ↦ get_by_index_in t table_ind ind
]

-- `prev` registers stand in the tables before table `i`.
unfoldable pub by_index_loop : List RegsTable → ℕ → ℕ → ℕ → Option RegsTemplate
unfolding get_by_index_in
by_index_loop [] i prev index = none
by_index_loop (t ∷ tables) i prev index = elim (ltb index (prev + length t.description)) [
  | true ↦ get_by_index_in t i (index - prev)
  | false ↦ by_index_loop tables (i + 1) (prev + length t.description) index
]

unfoldable pub regs_description_get_by_index : List RegsTable → ℕ → Option RegsTemplate
unfolding by_index_loop
regs_description_get_by_index tables index = by_index_loop tables 0 0 index

-- Names are compared over at most `REGS_MAX_NAME_SIZE` characters, and the register's name ends
-- there.
abbrev pub regs_max_name_size : ℕ
regs_max_name_size = 32

unfoldable pub starts_with : ℕ → List ℕ → List ℕ → Bool
starts_with zero name other = true
starts_with (suc n) (c ∷ name) (d ∷ other) = (c == d) && starts_with n name other
starts_with (suc n) _ _ = false

unfoldable pub name_matches : List ℕ → RegsDescription → Bool
unfolding starts_with
name_matches name r =
    let name_size =
      if ltb regs_max_name_size (length name) then regs_max_name_size else length name in
    ltb 0 name_size && (length r.name == name_size) && starts_with name_size name r.name

unfoldable pub first_named : List ℕ → List RegsDescription → Option RegsDescription
unfolding name_matches
first_named name [] = none
first_named name (r ∷ regs) = if name_matches name r then some r else first_named name regs

unfoldable pub regs_description_get_by_name : List RegsTable → List ℕ → Option RegsTemplate
unfolding find_in_tables first_named
regs_description_get_by_name tables name = find_in_tables (first_named name) tables 0

-- The index of the register among the registers of all tables, `index` of which stand before
unfoldable pub index_named : List ℕ → List RegsDescription → ℕ → Option ℕ
unfolding name_matches
index_named name [] index = none
index_named name (r ∷ regs) index =
    let rest = index_named name regs (index + 1) in if name_matches name r then some index else rest

unfoldable pub index_by_name_loop : List ℕ → List RegsTable → ℕ → Option ℕ
unfolding index_named
index_by_name_loop name [] index = none
index_by_name_loop name (t ∷ tables) index = elim (index_named name t.description index) [
  | some i ↦ some i
  | none ↦ index_by_name_loop name tables (index + length t.description)
]

unfoldable pub regs_description_get_index_by_name : List RegsTable → List ℕ → Option ℕ
unfolding index_by_name_loop
regs_description_get_index_by_name tables name = index_by_name_loop name tables 0

-- A table is added behind the others, unless it is empty or the list is full: -1. The last component is
-- `num_user_tasks_vars`, the number of registers in the tables behind the first, which the register
-- `user_task_num_of_vars` shows.
unfoldable pub regs_description_list_add_new :
    List RegsTable → ℕ → RegsTable → ℤ × List RegsTable × ℕ
regs_description_list_add_new tables num_user_tasks_vars t =
    if ltb 0 (length t.description) && ltb (length tables) list_descriptions_size
    then (
      pos (length tables),
      tables ++ t ∷ [],
      if length tables == 0
          then num_user_tasks_vars
          else (num_user_tasks_vars + length t.description) % 2 ^ 16,
    )
    else (minus 1, tables, num_user_tasks_vars)

-- A register of `words` Modbus words at the searched address and function
unfoldable pub modbus_covers : ℕ → ℕ → RegsDescription → Bool
modbus_covers address function r =
    let reg_address = rd_mdb_address r.modbus_description in
    let reg_size_in_word = u16 (byte_size r / 2) in
    (function == rd_mdb_function r.modbus_description)
    && ((address == reg_address)
        || (ltb reg_address address && ltb address (reg_address + reg_size_in_word)))

unfoldable pub pointer_in_table : ℕ → ℕ → RegsTable → ℕ
unfolding search_loop modbus_covers
pointer_in_table address function t =
    elim (search_loop (modbus_covers address function)
      (λ r. ltb (rd_mdb_address r.modbus_description) address) t.description (length t.description)
      0 (length t.description)) [
        | none ↦ 0
        | some r ↦
            if address == rd_mdb_address r.modbus_description
            then r.p_value
            else r.p_value + (address - rd_mdb_address r.modbus_description) * 2
      ]

-- The address of a Modbus word; 0 (NULL) if no table has it
unfoldable pub regs_description_get_pointer_by_modbus : List RegsTable → ℕ → ℕ → ℕ
unfolding pointer_in_table
regs_description_get_pointer_by_modbus [] address function = 0
regs_description_get_pointer_by_modbus (t ∷ tables) address function =
    let p_value = pointer_in_table address function t in
    elim (p_value == 0) [
      | false ↦ p_value
      | true ↦ regs_description_get_pointer_by_modbus tables address function
    ]
