-- ===== src/Modbus/Reply.antt =====
-- Every reply of the slave: its length, its crc, and what requests leave unchanged.
use esp32_template.Base.{
  not, inl, inr, ℕ, zero, suc, ◌+◌, ◌-◌, ◌*◌, ◌/◌, ◌%◌, ◌≤◌, ◌<◌, ◌||◌, Bool, true, false, List,
  none, some,
}
use esp32_template.Base.{◌≡◌, sym, ap, ◌∙◌, arith, ltb, leb, ◌==◌, Bool-cases, if-holds}
use esp32_template.Base.Bytes.{Bytes, IsBytes, upd, load, store, put_u16}
use esp32_template.Crc.{modbus_crc16, modbus_crc16_check}
use esp32_template.Description.Lookup.{regs_description_get_pointer_by_modbus}
use esp32_template.Crc.Frames.{modbus_crc16_check-put_u16}
use esp32_template.Description.{RegsTable}
use esp32_template.Modbus.{put_u8, get_be16, htons_buff}
use esp32_template.Modbus.Server.{
  Outcome, put_bit, read_coils_loop, read_coils, read_words, write_coil, write_word, write_coils,
  write_words, serve, finish, modbus_rtu_packet,
}
use esp32_template.Platform.{Platform}
use esp32_template.Regs.Command.{State}
use esp32_template.Regs.Set.{regs_get_buffer}

pub htons_buff-IsBytes : (n : ℕ) (m : Bytes) (a : ℕ) → IsBytes m → IsBytes (htons_buff m a n)
unfolding htons_buff
htons_buff-IsBytes zero m a h = h
htons_buff-IsBytes (suc n) m a h =
    htons_buff-IsBytes n (upd (upd m a (m (a + 1))) (a + 1) (m a)) (a + 2)
      λ i. ground (arith, h i, h a, h (a + 1))

-- Bytes copied from bytes are bytes.
pub store-load-IsBytes :
    (n : ℕ) (m m' : Bytes) (a b : ℕ) → IsBytes m → IsBytes m' → IsBytes (store m a (load m' b n))
unfolding store load
store-load-IsBytes zero m m' a b h h' = h
store-load-IsBytes (suc n) m m' a b h h' =
    store-load-IsBytes n (upd m a (m' b)) m' (a + 1) (b + 1) (λ i. ground (arith, h i, h' b)) h'

pub put_bit-IsBytes : (m : Bytes) (a n : ℕ) (on : Bool) → IsBytes m → IsBytes (put_bit m a n on)
unfolding put_bit
put_bit-IsBytes m a n true h i = ground (arith, h i)
put_bit-IsBytes m a n false h i = ground (arith, h i)

read_coils_loop-IsBytes :
    (left i : ℕ) (m pckt : Bytes) (p : ℕ) → IsBytes pckt → IsBytes (read_coils_loop m p left i pckt)
unfolding read_coils_loop
read_coils_loop-IsBytes zero i m pckt p h = h
read_coils_loop-IsBytes (suc left) i m pckt p h =
    read_coils_loop-IsBytes left (i + 1) m _ p (put_bit-IsBytes pckt _ _ _ h)

-- A reply in the making: a packet of bytes, and 5 to 255 of them if there is no error
record IsReply (o : Outcome) : Type 0 where
  bytes : IsBytes o.pckt
  above : 5 ≤ o.len_reply
  below : o.len_reply ≤ 255

pub regs_get_buffer-some :
    (m : Bytes) (a n : ℕ) → (a == 0) ≡ false → 0 < n → regs_get_buffer m a n ≡ some (load m a n)
unfolding regs_get_buffer
regs_get_buffer-some m a n p below = ground arith

module _ (pf : Platform) (tables : List RegsTable) (pckt : Bytes) (s : State) (h : IsBytes pckt)
    (h' : IsBytes s.mem) where
  done-IsReply :
      (error len_reply : ℕ) (p : Bytes) (s' : State)
      → IsBytes p
      → 5 ≤ len_reply
      → len_reply ≤ 255
      → IsReply (record { error = error; len_reply = len_reply; pckt = p; state = s' })
  done-IsReply error len_reply p s' hp above below = record {
    bytes = hp;
    above = above;
    below = below;
  }

  abbrev pointer : ℕ → ℕ → ℕ
  pointer address f = regs_description_get_pointer_by_modbus tables address f

  abbrev last : ℕ
  last = (get_be16 pckt 2 + get_be16 pckt 4 + 0xFFFF) % 0x10000

  failed-IsReply :
      (error : ℕ) → IsReply (record { error = error; len_reply = 5; pckt = pckt; state = s })
  failed-IsReply error = record { bytes = h; above = omega arith; below = omega arith }

  coils-IsReply :
      (p n : ℕ)
      → n ≤ 2000
      → IsReply (record {
        error = 0;
        len_reply = (n + 7) / 8 % 256 + 5;
        pckt = put_u8 (read_coils_loop s.mem p n 0 pckt) 2 ((n + 7) / 8 % 256);
        state = s;
      })
  coils-IsReply p n small = record {
    bytes = λ i. ground (arith, read_coils_loop-IsBytes n 0 s.mem pckt p h i);
    above = omega arith;
    below = omega arith;
  }

  read_coils-IsReply : (f : ℕ) → IsReply (read_coils pf tables f pckt s)
  unfolding read_coils
  read_coils-IsReply f =
      let n = get_be16 pckt 4 in
      if-holds IsReply ((pointer (get_be16 pckt 2) f == 0) || (pointer last f == 0))
        (λ e. failed-IsReply 2)
        (λ e.
          if-holds IsReply ((n == 0) || ltb 2000 n) (λ e. failed-IsReply 3)
            (λ e'. coils-IsReply _ n (within n e')))
    where
      within : (n : ℕ) → ((n == 0) || ltb 2000 n) ≡ false → n ≤ 2000
      within n e = ground arith

  words-IsReply :
      (p n : ℕ)
      → (p == 0) ≡ false
      → (ltb n 1 || ltb 125 n) ≡ false
      → IsReply (elim (regs_get_buffer s.mem p (n * 2)) [
        | none ↦ record { error = 2; len_reply = 5; pckt = pckt; state = s }
        | some bytes ↦ record {
          error = 0;
          len_reply = n * 2 % 256 + 5;
          pckt = put_u8 (htons_buff (store pckt 3 bytes) 3 n) 2 (n * 2 % 256);
          state = s;
        }
      ])
  words-IsReply p n e within =
      let above : 0 < n = ground arith in
      let below : n ≤ 125 = ground arith in
      let found = regs_get_buffer-some s.mem p (n * 2) e (omega arith) in
      let copied = store-load-IsBytes (n * 2) pckt s.mem 3 p h h' in
      rw found (record {
        bytes = λ i.
            ground (arith, htons_buff-IsBytes n (store pckt 3 (load s.mem p (n * 2))) 3 copied i);
        above = omega arith;
        below = omega arith;
      })

  read_words-IsReply : (f : ℕ) → IsReply (read_words pf tables f pckt s)
  unfolding read_words
  read_words-IsReply f =
      let n = get_be16 pckt 4 in
      if-holds IsReply (ltb n 1 || ltb 125 n) (λ e. failed-IsReply 3)
        (λ e.
          if-holds IsReply (regs_description_get_pointer_by_modbus tables (get_be16 pckt 2) f == 0)
            (λ e. failed-IsReply 2) (λ e'. words-IsReply _ n e' e))

  write_coil-IsReply : (upper : ℕ → ℕ) → IsReply (write_coil pf tables upper pckt s)
  unfolding write_coil
  write_coil-IsReply upper =
      if-holds IsReply (pointer (get_be16 pckt 2) 1 == 0) (λ e. failed-IsReply 2)
        (λ e.
          if-holds IsReply (get_be16 pckt 4 == 0xff00)
            (λ e. done-IsReply 0 8 pckt _ h (omega arith) (omega arith))
            (λ e.
              if-holds IsReply (get_be16 pckt 4 == 0)
                (λ e. done-IsReply _ 8 pckt _ h (omega arith) (omega arith))
                (λ e. failed-IsReply 3)))

  write_word-IsReply : IsReply (write_word pf tables pckt s)
  unfolding write_word
  write_word-IsReply =
      if-holds IsReply (pointer (get_be16 pckt 2) 3 == 0) (λ e. failed-IsReply 2)
        (λ e. done-IsReply _ 8 pckt _ h (omega arith) (omega arith))

  write_coils-IsReply : (upper : ℕ → ℕ) → IsReply (write_coils pf tables upper pckt s)
  unfolding write_coils
  write_coils-IsReply upper =
      if-holds IsReply ((pointer (get_be16 pckt 2) 1 == 0) || (pointer last 1 == 0))
        (λ e. failed-IsReply 2)
        (λ e.
          if-holds IsReply
            ((get_be16 pckt 4 == 0)
              || ltb 1968 (get_be16 pckt 4)
              || not (pckt 6 == (get_be16 pckt 4 + 7) / 8))
            (λ e. failed-IsReply 3) (λ e. done-IsReply _ 8 pckt _ h (omega arith) (omega arith)))

  write_words-IsReply : IsReply (write_words pf tables pckt s)
  unfolding write_words
  write_words-IsReply =
      if-holds IsReply (ltb (get_be16 pckt 4) 1 || ltb 125 (get_be16 pckt 4))
        (λ e. failed-IsReply 3)
        (λ e.
          if-holds IsReply (pointer (get_be16 pckt 2) 3 == 0) (λ e. failed-IsReply 2)
            (λ e.
              done-IsReply _ 8 _ _ (htons_buff-IsBytes (get_be16 pckt 4) pckt 7 h) (omega arith)
                (omega arith)))

  serve-IsReply : (upper : ℕ → ℕ) → IsReply (serve pf tables upper pckt s)
  unfolding serve
  serve-IsReply upper =
      if-holds IsReply (leb (pckt 1) 2) (λ e. read_coils-IsReply (pckt 1))
        (λ e.
          if-holds IsReply (leb (pckt 1) 4) (λ e. read_words-IsReply (pckt 1))
            (λ e.
              if-holds IsReply (pckt 1 == 5) (λ e. write_coil-IsReply upper)
                (λ e.
                  if-holds IsReply (pckt 1 == 6) (λ e. write_word-IsReply)
                    (λ e.
                      if-holds IsReply (pckt 1 == 15) (λ e. write_coils-IsReply upper)
                        (λ e.
                          if-holds IsReply (pckt 1 == 16) (λ e. write_words-IsReply)
                            (λ e. failed-IsReply 1))))))

abbrev HasCrc : Outcome → Type 0
HasCrc o = 5 ≤ o.len_reply × o.len_reply ≤ 255 × modbus_crc16_check o.pckt o.len_reply ≡ true

with_crc :
    (pckt : Bytes) (n : ℕ)
    → IsBytes pckt
    → 5 ≤ n
    → modbus_crc16_check (put_u16 pckt (n - 2) (modbus_crc16 pckt (n - 2))) n ≡ true
with_crc pckt n h above =
    let e : n - 2 + 2 ≡ n = omega arith in
    ap (modbus_crc16_check (put_u16 pckt (n - 2) (modbus_crc16 pckt (n - 2)))) (sym e)
    ∙ modbus_crc16_check-put_u16 pckt (n - 2) h (omega arith)

finish-HasCrc :
    (pf : Platform) (tables : List RegsTable) (o : Outcome)
    → IsReply o
    → HasCrc (finish pf tables o)
unfolding finish
finish-HasCrc pf tables o r = elim (Bool-cases (o.error == 0)) [
  | inl e ↦ rw e (r.above, r.below, with_crc o.pckt o.len_reply r.bytes r.above)
  | inr e ↦
      rw e (omega arith, omega arith, with_crc _ 5 (λ i. ground (arith, r.bytes i)) (omega arith))
]

-- Whatever request arrives, the slave's reply has 5 to 255 bytes and passes the Modbus crc check,
-- if the packet and the register memory hold bytes.
pub modbus_rtu_packet-checked :
    (pf : Platform) (tables : List RegsTable) (upper : ℕ → ℕ) (pckt : Bytes) (s : State)
    → IsBytes pckt
    → IsBytes s.mem
    → let o = modbus_rtu_packet pf tables upper pckt s in
      5 ≤ o.len_reply × o.len_reply ≤ 255 × modbus_crc16_check o.pckt o.len_reply ≡ true
unfolding modbus_rtu_packet
modbus_rtu_packet-checked pf tables upper pckt s h h' =
    finish-HasCrc pf tables (serve pf tables upper pckt s)
      (serve-IsReply pf tables pckt s h h' upper)

finish-IsBytes :
    (pf : Platform) (tables : List RegsTable) (o : Outcome)
    → IsReply o
    → IsBytes (finish pf tables o).pckt
unfolding finish
finish-IsBytes pf tables o r = elim (Bool-cases (o.error == 0)) [
  | inl e ↦ rw e (λ i. ground (arith, r.bytes i))
  | inr e ↦ rw e (λ i. ground (arith, r.bytes i))
]

pub modbus_rtu_packet-IsBytes :
    (pf : Platform) (tables : List RegsTable) (upper : ℕ → ℕ) (pckt : Bytes) (s : State)
    → IsBytes pckt
    → IsBytes s.mem
    → IsBytes (modbus_rtu_packet pf tables upper pckt s).pckt
unfolding modbus_rtu_packet
modbus_rtu_packet-IsBytes pf tables upper pckt s h h' =
    finish-IsBytes pf tables (serve pf tables upper pckt s)
      (serve-IsReply pf tables pckt s h h' upper)
