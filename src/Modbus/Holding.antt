-- ===== src/Modbus/Holding.antt =====
-- The functions on words and what each function leaves unchanged: main/modbus.c over main/regs.c.
use esp32_template.Base.{
  ℕ, zero, suc, ◌+◌, ◌-◌, ◌*◌, ◌%◌, ◌≤◌, ◌<◌, bit_or, true, false, List, [], ◌||◌, inl, inr, ◌⊎◌,
}
use esp32_template.Base.{
  ◌≡◌, ◌≢◌, refl, ap, ◌∙◌, arith, ltb, leb, ◌==◌, Bool-cases, if-holds, Option-cases,
}
use esp32_template.Base.Bytes.{
  Bytes, upd, load, store, store-inside, store-outside, length-load, get_or-load, put_u16,
}
use esp32_template.Description.{RegsTable}
use esp32_template.Description.Lookup.{regs_description_get_pointer_by_modbus}
use esp32_template.Modbus.{put_u8, get_be16, htons_buff}
use esp32_template.Modbus.Server.{
  Outcome, error_of, read_coils, read_words, write_word, serve, finish, modbus_rtu_packet,
  word_access,
}
use esp32_template.Platform.{Platform}
use esp32_template.Regs.Access.{IsProtected, regs_set-protected}
use esp32_template.Regs.Command.{State}
use esp32_template.Regs.Set.{regs_get_buffer}

-- Swapping words leaves what lies in front of them and behind them.
pub htons_buff-outside :
    (n : ℕ) (m : Bytes) (a i : ℕ) → (i < a) ⊎ (a + n * 2 ≤ i) → htons_buff m a n i ≡ m i
unfolding htons_buff
htons_buff-outside zero m a i h = refl
htons_buff-outside (suc n) m a i h =
    ground (arith, htons_buff-outside n (upd (upd m a (m (a + 1))) (a + 1) (m a)) (a + 2) i)

-- The word `k` is swapped.
pub htons_buff-inside :
    (n : ℕ) (m : Bytes) (a k : ℕ)
    → k < n
    → htons_buff m a n (a + k * 2) ≡ m (a + k * 2 + 1)
      × htons_buff m a n (a + k * 2 + 1) ≡ m (a + k * 2)
unfolding htons_buff
htons_buff-inside zero m a k h = absurd (omega arith)
htons_buff-inside (suc n) m a zero h =
    let m' = upd (upd m a (m (a + 1))) (a + 1) (m a) in
    (
      ground (arith, htons_buff-outside n m' (a + 2) (a + 0)),
      ground (arith, htons_buff-outside n m' (a + 2) (a + 0 + 1)),
    )
htons_buff-inside (suc n) m a (suc k) h =
    let m' = upd (upd m a (m (a + 1))) (a + 1) (m a) in
    let e : a + suc k * 2 ≡ a + 2 + k * 2 = omega arith in
    let (even, odd) = htons_buff-inside n m' (a + 2) k (omega arith) in
    rw e (ground (arith, even), ground (arith, odd))

module _ (pf : Platform) (tables : List RegsTable) where
  finish-state : (o : Outcome) → (finish pf tables o).state ≡ o.state
  unfolding finish
  finish-state o = elim (Bool-cases (o.error == 0)) [ inl e ↦ rw e refl | inr e ↦ rw e refl ]

  abbrev pub pointer : ℕ → ℕ → ℕ
  pointer address f = regs_description_get_pointer_by_modbus tables address f

  abbrev Keeps : State → Outcome → Type 0
  Keeps s o = o.state ≡ s

  read_coils-state : (f : ℕ) (pckt : Bytes) (s : State) → (read_coils pf tables f pckt s).state ≡ s
  unfolding read_coils
  read_coils-state f pckt s =
      if-holds (Keeps s)
        ((pointer (get_be16 pckt 2) f == 0)
          || (pointer ((get_be16 pckt 2 + get_be16 pckt 4 + 0xFFFF) % 0x10000) f == 0))
        (λ e. refl)
        (λ e.
          if-holds (Keeps s) ((get_be16 pckt 4 == 0) || ltb 2000 (get_be16 pckt 4)) (λ e. refl)
            (λ e. refl))

  read_words-state : (f : ℕ) (pckt : Bytes) (s : State) → (read_words pf tables f pckt s).state ≡ s
  unfolding read_words
  read_words-state f pckt s =
      let n = get_be16 pckt 4 in
      if-holds (Keeps s) (ltb n 1 || ltb 125 n) (λ e. refl)
        (λ e.
          if-holds (Keeps s) (pointer (get_be16 pckt 2) f == 0) (λ e. refl)
            (λ e.
              elim (Option-cases (regs_get_buffer s.mem (pointer (get_be16 pckt 2) f) (n * 2))) [
                | inl gone ↦ rw gone refl
                | inr (bytes, at) ↦ rw at refl
              ]))

  -- The functions 0 to 4 leave the registers, the temporary buffer and the signals unchanged,
  -- whatever the request asks for and whether it succeeds.
  pub modbus_rtu_packet-reads :
      (upper : ℕ → ℕ) (pckt : Bytes) (s : State)
      → pckt 1 ≤ 4
      → (modbus_rtu_packet pf tables upper pckt s).state ≡ s
  unfolding modbus_rtu_packet serve
  modbus_rtu_packet-reads upper pckt s h =
      finish-state (serve pf tables upper pckt s) ∙ (elim (Bool-cases (leb (pckt 1) 2)) [
        | inl e ↦ rw e (read_coils-state (pckt 1) pckt s)
        | inr e ↦
            let e' : leb (pckt 1) 4 ≡ true = ground arith in
            rw (e, e') (read_words-state (pckt 1) pckt s)
      ])

  -- An exception: the address stays, the function's high bit is set, the code follows and the
  -- registers are as they were.
  abbrev pub IsException : ℕ → Bytes → State → Outcome → Type 0
  IsException code pckt s o =
      o.state ≡ s
      × o.len_reply ≡ 5
      × o.pckt 0 ≡ pckt 0
      × o.pckt 1 ≡ bit_or (pckt 1) 0x80 % 256
      × o.pckt 2 ≡ code

  pub finish-IsException :
      (code len_reply : ℕ) (pckt : Bytes) (s : State)
      → 0 < code
      → code < 256
      → IsException code pckt s (
          finish pf tables (record { error = code; len_reply = len_reply; pckt = pckt; state = s }))
  unfolding finish
  finish-IsException code len_reply pckt s lo hi =
      let e : (code == 0) ≡ false = ground arith in rw e (refl, refl, refl, refl, omega arith)

  -- A function other than 0 to 6, 15 and 16 is answered by the exception 1, and the registers stay.
  pub modbus_rtu_packet-unknown :
      (upper : ℕ → ℕ) (pckt : Bytes) (s : State)
      → 6 < pckt 1
      → pckt 1 ≢ 15
      → pckt 1 ≢ 16
      → IsException 1 pckt s (modbus_rtu_packet pf tables upper pckt s)
  unfolding modbus_rtu_packet serve
  modbus_rtu_packet-unknown upper pckt s h h15 h16 =
      let e2 : leb (pckt 1) 2 ≡ false = ground arith in
      let e4 : leb (pckt 1) 4 ≡ false = ground arith in
      let e5 : (pckt 1 == 5) ≡ false = ground arith in
      let e6 : (pckt 1 == 6) ≡ false = ground arith in
      let e15 : (pckt 1 == 15) ≡ false = ground arith in
      let e16 : (pckt 1 == 16) ≡ false = ground arith in
      rw (e2, e4, e5, e6, e15, e16) (finish-IsException 1 5 pckt s (omega arith) (omega arith))

  write_word-protected :
      (pckt : Bytes) (s : State)
      → (pointer (get_be16 pckt 2) 3 == 0) ≡ false
      → IsProtected pf tables s (pointer (get_be16 pckt 2) 3)
      → write_word pf tables pckt s ≡ (record { error = 2; len_reply = 8; pckt = pckt; state = s })
  unfolding write_word error_of
  write_word-protected pckt s e h =
      let refused = (regs_set-protected pf tables s _ (word_access pckt) 0 [] h).0 in
      rw (e, refused, write_word) refl

  -- A write of one word (function 6) to a register that is protected is answered by the exception 2
  -- and leaves registers, temporary buffer and signals unchanged.
  pub modbus_rtu_packet-protected :
      (upper : ℕ → ℕ) (pckt : Bytes) (s : State)
      → pckt 1 ≡ 6
      → pointer (get_be16 pckt 2) 3 ≢ 0
      → IsProtected pf tables s (pointer (get_be16 pckt 2) 3)
      → IsException 2 pckt s (modbus_rtu_packet pf tables upper pckt s)
  unfolding modbus_rtu_packet serve
  modbus_rtu_packet-protected upper pckt s f found h =
      let e : (pointer (get_be16 pckt 2) 3 == 0) ≡ false = ground arith in
      let served : serve pf tables upper pckt s ≡ write_word pf tables pckt s = rw f refl in
      rw (served, write_word-protected pckt s e h)
        (finish-IsException 2 8 pckt s (omega arith) (omega arith))

  before : (m : Bytes) (v j w : ℕ) → 1 < j → put_u16 (put_u8 m 2 v) j w 1 ≡ m 1
  before m v j w h = ground arith

  between : (m : Bytes) (v j w i : ℕ) → 2 < i → i < j → put_u16 (put_u8 m 2 v) j w i ≡ m i
  between m v j w i above below = ground arith

  -- The reply with `n` words from `p` on
  abbrev words : Bytes → State → ℕ → ℕ → Outcome
  words pckt s p n = record {
    error = 0;
    len_reply = n * 2 % 256 + 5;
    pckt = put_u8 (htons_buff (store pckt 3 (load s.mem p (n * 2))) 3 n) 2 (n * 2 % 256);
    state = s;
  }

  serve-words :
      (upper : ℕ → ℕ) (pckt : Bytes) (s : State)
      → (pckt 1 ≡ 3) ⊎ (pckt 1 ≡ 4)
      → pointer (get_be16 pckt 2) (pckt 1) ≢ 0
      → 0 < get_be16 pckt 4
      → get_be16 pckt 4 ≤ 125
      → serve pf tables upper pckt s
        ≡ words pckt s (pointer (get_be16 pckt 2) (pckt 1)) (get_be16 pckt 4)
  unfolding serve read_words
  serve-words upper pckt s f found lo hi =
      let n = get_be16 pckt 4 in
      let p = pointer (get_be16 pckt 2) (pckt 1) in
      let e2 : leb (pckt 1) 2 ≡ false = ground arith in
      let e4 : leb (pckt 1) 4 ≡ true = ground arith in
      let within : (ltb n 1 || ltb 125 n) ≡ false = ground arith in
      let e : (p == 0) ≡ false = ground arith in
      let e0 : (n * 2 == 0) ≡ false = ground arith in rw (e2, e4, within, e, e0, read_words) refl

  copied :
      (pckt m : Bytes) (p n k : ℕ) → k < n * 2 → store pckt 3 (load m p (n * 2)) (3 + k) ≡ m (p + k)
  copied pckt m p n k below =
      store-inside (load m p (n * 2)) pckt 3 k (ground (arith, length-load (n * 2) m p))
      ∙ get_or-load (n * 2) m p k below

  finish-words :
      (pckt : Bytes) (s : State) (p n k : ℕ)
      → k < n
      → n ≤ 125
      → let o = finish pf tables (words pckt s p n) in
        o.len_reply ≡ n * 2 + 5
        × o.pckt 1 ≡ pckt 1
        × o.pckt 2 ≡ n * 2
        × o.pckt (3 + k * 2) ≡ s.mem (p + k * 2 + 1)
        × o.pckt (3 + k * 2 + 1) ≡ s.mem (p + k * 2)
  unfolding finish
  finish-words pckt s p n k lo hi =
      let q = store pckt 3 (load s.mem p (n * 2)) in
      let (even, odd) = htons_buff-inside n q 3 k lo in
      let e : 3 + k * 2 + 1 ≡ 3 + (k * 2 + 1) = omega arith in
      let low = even ∙ ap q e ∙ copied pckt s.mem p n (k * 2 + 1) (omega arith) in
      let high = odd ∙ copied pckt s.mem p n (k * 2) (omega arith) in
      let m = htons_buff q 3 n in
      let front = htons_buff-outside n q 3 1 (inl (omega arith)) in
      let kept = store-outside (load s.mem p (n * 2)) pckt 3 1 (inl (omega arith)) in
      let at : p + (k * 2 + 1) ≡ p + k * 2 + 1 = omega arith in
      (
        omega arith,
        before m (n * 2 % 256) (n * 2 % 256 + 5 - 2) _ (omega arith) ∙ front ∙ kept,
        ground arith,
        between m _ _ _ (3 + k * 2) (omega arith) (omega arith) ∙ low ∙ ap s.mem at,
        between m _ _ _ (3 + k * 2 + 1) (omega arith) (omega arith) ∙ high,
      )

  -- A read of 1 to 125 words (function 3 or 4) from an address that a register has is answered with
  -- the same function, twice the number, and the words from that address on, each with its high byte
  -- first.
  pub modbus_rtu_packet-words :
      (upper : ℕ → ℕ) (pckt : Bytes) (s : State) (k : ℕ)
      → (pckt 1 ≡ 3) ⊎ (pckt 1 ≡ 4)
      → pointer (get_be16 pckt 2) (pckt 1) ≢ 0
      → k < get_be16 pckt 4
      → get_be16 pckt 4 ≤ 125
      → let p = pointer (get_be16 pckt 2) (pckt 1) in
        let n = get_be16 pckt 4 in
        let o = modbus_rtu_packet pf tables upper pckt s in
        o.len_reply ≡ n * 2 + 5
        × o.pckt 1 ≡ pckt 1
        × o.pckt 2 ≡ n * 2
        × o.pckt (3 + k * 2) ≡ s.mem (p + k * 2 + 1)
        × o.pckt (3 + k * 2 + 1) ≡ s.mem (p + k * 2)
  unfolding modbus_rtu_packet
  modbus_rtu_packet-words upper pckt s k f found lo hi =
      rw (serve-words upper pckt s f found (omega arith) hi) (finish-words pckt s _ _ k lo hi)

  finish-first :
      (pckt : Bytes) (s : State) (p n : ℕ) → (finish pf tables (words pckt s p n)).pckt 0 ≡ pckt 0
  unfolding finish
  finish-first pckt s p n =
      let q = store pckt 3 (load s.mem p (n * 2)) in
      first (htons_buff q 3 n) (n * 2 % 256) (n * 2 % 256 + 5 - 2) _ (omega arith)
      ∙ htons_buff-outside n q 3 0 (inl (omega arith))
      ∙ store-outside (load s.mem p (n * 2)) pckt 3 0 (inl (omega arith))
    where
      first : (m : Bytes) (v j w : ℕ) → 1 < j → put_u16 (put_u8 m 2 v) j w 0 ≡ m 0
      first m v j w h = ground arith

  -- The address of the slave stays in such an answer.
  pub modbus_rtu_packet-first :
      (upper : ℕ → ℕ) (pckt : Bytes) (s : State)
      → (pckt 1 ≡ 3) ⊎ (pckt 1 ≡ 4)
      → pointer (get_be16 pckt 2) (pckt 1) ≢ 0
      → 0 < get_be16 pckt 4
      → get_be16 pckt 4 ≤ 125
      → (modbus_rtu_packet pf tables upper pckt s).pckt 0 ≡ pckt 0
  unfolding modbus_rtu_packet
  modbus_rtu_packet-first upper pckt s f found lo hi =
      rw (serve-words upper pckt s f found lo hi)
        (finish-first pckt s (pointer (get_be16 pckt 2) (pckt 1)) (get_be16 pckt 4))
