-- ===== src/Platform.antt =====
-- What the register code takes from outside the modelled sources: where the linker places the
-- fields of `regs_global->vars` (main/regs.h), the peripheral's crc32, the comparisons of `float`
-- and `double` on their bit patterns, and whether the updater image verifies and can be selected.
use esp32_template.Base.{ℕ, Bool, List}

pub record Platform : Type 0 where
  pub mdb_addr : ℕ
  pub permission : ℕ
  pub command : ℕ
  pub table_id : ℕ
  pub sleep_time : ℕ
  pub table_to_save : ℕ
  pub async_flags : ℕ
  pub ip : ℕ
  pub gate : ℕ
  pub netmask : ℕ
  pub wifi_name : ℕ
  pub wifi_password : ℕ
  pub wifi_router_name : ℕ
  pub wifi_router_password : ℕ
  pub esp_crc32_le : List ℕ → ℕ
  pub float_lt : ℕ → ℕ → Bool
  pub double_lt : ℕ → ℕ → Bool
  pub updater_selected : Bool
