-- ===== src/Modbus/Slaves.antt =====
-- The table of the slaves' addresses: main/modbus_tcp_client/modbus_tcp_client.c. Each function runs
-- as a whole, and an `in_addr_t` is one number.
pub mod Lookup
use esp32_template.Base.{
  ℕ, zero, suc, ◌+◌, ◌≤◌, ◌<◌, Bool, true, false, Option, none, some, ◌⊎◌, inl, inr,
}
use esp32_template.Base.{
  ◌≡◌, ◌≢◌, refl, ap, sym, ◌∙◌, arith, ltb, ◌==◌, not, if◌then◌else◌, Bool-cases,
}
use esp32_template.Base.Int.{ℤ, pos, minus}

abbrev pub max_number_of_slaves : ℕ
max_number_of_slaves = 256

-- `slave_table_item_t`
pub record SlaveItem : Type 0 where
  pub ip : ℕ
  pub modbus_id : ℕ

-- `slaves_ip_table` and `slaves_number`
pub record SlaveTable : Type 0 where
  pub slaves_ip_table : ℕ → SlaveItem
  pub slaves_number : ℕ

unfoldable pub clean_slave_table : SlaveTable → SlaveTable
clean_slave_table t = record {
  slaves_ip_table = λ i.
      if ltb i max_number_of_slaves then record { ip = 0; modbus_id = 0 } else t.slaves_ip_table i;
  slaves_number = 0;
}

-- Whether an item from `i` on has the address
unfoldable pub address_exists : (ℕ → SlaveItem) → ℕ → ℕ → ℕ → Bool → Bool
address_exists table ip_addr zero i exist = exist
address_exists table ip_addr (suc left) i exist =
    address_exists table ip_addr left (i + 1) (if ip_addr == (table i).ip then true else exist)

unfoldable pub add_ip_to_slave_table : SlaveTable → ℕ → ℕ → ℤ × SlaveTable
add_ip_to_slave_table t ip_addr modbus_id =
    if address_exists t.slaves_ip_table ip_addr t.slaves_number 0 false
    then (pos 0, t)
    else if ltb t.slaves_number max_number_of_slaves
    then (
      pos 1,
      record {
        slaves_ip_table = λ i.
            if i == t.slaves_number
            then record { ip = ip_addr; modbus_id = modbus_id }
            else t.slaves_ip_table i;
        slaves_number = t.slaves_number + 1;
      },
    )
    else (minus 1, t)

abbrev pub get_ip_slaves_table_size : SlaveTable → ℕ
get_ip_slaves_table_size t = t.slaves_number

-- The result, and the item if it was copied
unfoldable pub get_slaves_info_by_number : SlaveTable → ℕ → ℤ × Option SlaveItem
get_slaves_info_by_number t number =
    if ltb number t.slaves_number then (pos 1, some (t.slaves_ip_table number)) else (minus 1, none)

-- All items are looked at; the last one with the number is copied.
unfoldable pub by_modbus_loop : (ℕ → SlaveItem) → ℕ → ℕ → ℕ → Option SlaveItem → Option SlaveItem
by_modbus_loop table modbus_id zero i item = item
by_modbus_loop table modbus_id (suc left) i item =
    by_modbus_loop table modbus_id left (i + 1)
      (if (table i).modbus_id == modbus_id then some (table i) else item)

-- The item, or nothing for the result 0
unfoldable pub get_ip_address_by_modbus : SlaveTable → ℕ → Option SlaveItem
get_ip_address_by_modbus t modbus_id =
    by_modbus_loop t.slaves_ip_table modbus_id (get_ip_slaves_table_size t) 0 none

-- The server's and the device's own address as they are now, and whether one of them changed
pub record Addresses : Type 0 where
  pub server_ip : ℕ
  pub own_ip : ℕ
  pub changed : Bool

-- `ip` is the address in the registers.
unfoldable pub ip_addresses_were_changed : SlaveTable → ℕ → ℕ → ℕ → ℕ → Addresses
ip_addresses_were_changed t ip server_ip own_ip modbus_id =
    let own : Addresses → Addresses =
      λ a. if ip == own_ip then a else record a { own_ip = ip; changed = true } in
    let same : Addresses = record { server_ip = server_ip; own_ip = own_ip; changed = false } in
    own (elim (get_ip_address_by_modbus t modbus_id) [
      | none ↦ same
      | some item ↦
          if item.ip == server_ip then same else record same { server_ip = item.ip; changed = true }
    ])
