-- ===== src/Regs/Access.antt =====
-- Who may write a register (main/regs.c): without write access nothing changes.
use esp32_template.Base.{
  ℕ, bit_and, Bool, true, false, ◌&&◌, none, some, List, ◌∷◌, ◌⊎◌, ◌≡◌, refl, Option-cases, inl,
  inr,
}
use esp32_template.Base.Int.{minus}
use esp32_template.Description.{
  RegsTemplate, RegsTable, regs_description_is_writable, regs_description_is_credential,
}
use esp32_template.Description.Lookup.{regs_description_get_by_address}
use esp32_template.Platform.{Platform}
use esp32_template.Regs.{RegsAccess}
use esp32_template.Regs.Command.{State, permission, enable_credential_flag}
use esp32_template.Regs.Set.{
  may_write, regs_write_access, regs_set, byte_access, set_buffer_loop, regs_set_buffer,
}

Bool-and-false : (b : Bool) → (b && false) ≡ false
Bool-and-false true = refl
Bool-and-false false = refl

module _ (pf : Platform) (tables : List RegsTable) where
  -- No write access to `a`: every register that covers it is read-only, and is no credential while
  -- credentials are enabled.
  abbrev pub IsProtected : State → ℕ → Type 0
  IsProtected s a =
      (t : RegsTemplate)
      → regs_description_get_by_address tables a ≡ some t
      → regs_description_is_writable t ≡ false
        × (regs_description_is_credential t ≡ false
            ⊎ bit_and (permission pf tables s) enable_credential_flag ≡ 0)

  refused :
      (s : State) (t : RegsTemplate)
      → regs_description_is_writable t ≡ false
      → regs_description_is_credential t ≡ false
        ⊎ bit_and (permission pf tables s) enable_credential_flag ≡ 0
      → may_write pf tables s t ≡ false
  unfolding may_write
  refused s t closed (inl e) = rw (closed, e) refl
  refused s t closed (inr e) = rw (closed, e) (Bool-and-false (regs_description_is_credential t))

  no_access : (s : State) (a : ℕ) → IsProtected s a → regs_write_access pf tables s a ≡ none
  unfolding regs_write_access
  no_access s a h = elim (Option-cases (regs_description_get_by_address tables a)) [
    | inl gone ↦ rw (gone, regs_write_access) refl
    | inr (t, at) ↦
        let (closed, rest) = h t at in
        let e = refused s t closed rest in rw (at, e, regs_write_access) refl
  ]

  regs_set-refused :
      (s : State) (a : ℕ) (reg : RegsAccess)
      → IsProtected s a
      → regs_set pf tables s a reg ≡ (minus 2, s)
  unfolding regs_set
  regs_set-refused s a reg h = rw (no_access s a h, regs_set) refl

  -- A write to a protected address returns -2 and changes neither the memory nor the temporary
  -- buffer nor the signals, for one access and for a buffer of at least one byte.
  pub regs_set-protected :
      (s : State) (a : ℕ) (reg : RegsAccess) (b : ℕ) (buffer : List ℕ)
      → IsProtected s a
      → regs_set pf tables s a reg ≡ (minus 2, s)
        × regs_set_buffer pf tables s a (b ∷ buffer) ≡ (minus 2, s)
  unfolding regs_set_buffer set_buffer_loop
  regs_set-protected s a reg b buffer h =
      let once = regs_set-refused s a reg h in
      let first = regs_set-refused s a (byte_access pf tables b) h in
      (once, rw (first, regs_set_buffer, set_buffer_loop) refl)
