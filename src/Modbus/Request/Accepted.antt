-- ===== src/Modbus/Request/Accepted.antt =====
-- The slave's check accepts what `modbus_make_packet` of main/modbus.c makes.
use mathlib.Core.Path.{subst}
use esp32_template.Base.{
  ℕ, zero, suc, ◌+◌, ◌*◌, ◌/◌, ◌%◌, ◌^◌, ◌≤◌, ◌<◌, bit_and, Bool, true, false, ◌||◌, ◌&&◌, Option,
  some, ◌⊎◌, inl, inr, ◌≡◌, ◌≢◌, refl, ◌∙◌, arith, ltb, leb, ◌==◌, if-holds,
}
use esp32_template.Base.Bytes.{Bytes, IsBytes, load, store, store-outside, put_u16}
use esp32_template.Base.Int.{ℤ, pos, negsuc, minus}
use esp32_template.Crc.{modbus_crc16, modbus_crc16_check}
use esp32_template.Crc.Frames.{modbus_crc16_check-put_u16}
use esp32_template.Modbus.{
  put_u8, htons_buff, get_be16, it_modbus_request_check, it_modbus_simply_check,
}
use esp32_template.Modbus.Exchange.{it_modbus_request_check-put_u16}
use esp32_template.Modbus.Holding.{htons_buff-outside}
use esp32_template.Modbus.Reply.{htons_buff-IsBytes, store-load-IsBytes, put_bit-IsBytes}
use esp32_template.Modbus.Request.{
  Pointer, put_be16, pack_bits_loop, request_head, request_body, request_crc, modbus_make_packet,
}
use esp32_template.Modbus.Server.{put_bit}

put_bit-outside : (m : Bytes) (a n i : ℕ) (on : Bool) → i ≢ a → put_bit m a n on i ≡ m i
unfolding put_bit
put_bit-outside m a n i true h = ground arith
put_bit-outside m a n i false h = ground arith

pack_bits_loop-outside :
    (left k i : ℕ) (bits m : Bytes) → i < 7 → pack_bits_loop bits left k m i ≡ m i
unfolding pack_bits_loop
pack_bits_loop-outside zero k i bits m h = refl
pack_bits_loop-outside (suc left) k i bits m h =
    pack_bits_loop-outside left (k + 1) i bits
      (put_bit m (7 + k / 8) (k % 8) (bit_and (bits k) 1 == 1)) h
    ∙ put_bit-outside m (7 + k / 8) (k % 8) i (bit_and (bits k) 1 == 1) (omega arith)

pack_bits_loop-IsBytes :
    (left k : ℕ) (bits m : Bytes) → IsBytes m → IsBytes (pack_bits_loop bits left k m)
unfolding pack_bits_loop
pack_bits_loop-IsBytes zero k bits m h = h
pack_bits_loop-IsBytes (suc left) k bits m h =
    pack_bits_loop-IsBytes left (k + 1) bits _ (put_bit-IsBytes m _ _ _ h)

-- A request without its crc: bytes that keep the head, of a length that the slave finds again
record IsBody (function : ℕ) (head : Bytes) (byte : ℕ) (q : Bytes) : Type 0 where
  bytes : IsBytes q
  kept : (i : ℕ) → i < 4 → q i ≡ head i
  sized : (byte ≡ 6 × function ≤ 6) ⊎ (byte ≡ 7 + q 6 × ((function ≡ 15) ⊎ (function ≡ 16)))

abbrev Made : ℕ → Bytes → ℤ × Bytes → Type 0
Made function head r = (byte : ℕ) → r.0 ≡ pos byte → IsBody function head byte r.1

of_length : (f b : ℕ) (head q : Bytes) → IsBody f head b q → Made f head (pos b, q)
of_length f b head q body byte e =
    let same : b ≡ byte = cc in subst (λ k. IsBody f head k q) same body

module _ (n : ℕ) (d : Pointer) (head : Bytes) (h : IsBytes head) (hd : IsBytes d.bytes) where
  refused-Made : (f : ℕ) (q : Bytes) → Made f head (minus 1, q)
  refused-Made f q byte e = absurd (cc)

  six-Made :
      (f : ℕ) (q : Bytes)
      → IsBytes q
      → ((i : ℕ) → i < 4 → q i ≡ head i)
      → f ≤ 6
      → Made f head (pos 6, q)
  six-Made f q bytes kept small =
      of_length f 6 head q (record { bytes = bytes; kept = kept; sized = inl (refl, small) })

  -- The words, or the bits, stand behind the seven bytes that count them.
  tail-Made :
      (f b : ℕ) (q : Bytes)
      → IsBytes q
      → ((i : ℕ) → i < 7 → q i ≡ put_u8 (put_be16 head 4 n) 6 (b % 256) i)
      → b < 256
      → (f ≡ 15) ⊎ (f ≡ 16)
      → Made f head (pos (7 + b), q)
  tail-Made f b q bytes kept small which = of_length f (7 + b) head q (record {
    bytes = bytes;
    kept = λ i lt. ground (arith, kept i);
    sized = inr (ground (arith, kept 6), which);
  })

  counted-IsBytes : (b : ℕ) → IsBytes (put_u8 (put_be16 head 4 n) 6 b)
  counted-IsBytes b i = ground (arith, h i)

  words-Made :
      (f b k : ℕ)
      → f ≡ 16
      → b < 256
      → Made f head (
        pos (7 + b),
        htons_buff (store (put_u8 (put_be16 head 4 n) 6 b) 7 (load d.bytes 0 b)) 7 k,
      )
  words-Made f b k which small =
      let counted = put_u8 (put_be16 head 4 n) 6 b in
      let copied = store counted 7 (load d.bytes 0 b) in
      tail-Made f b (htons_buff copied 7 k)
        (htons_buff-IsBytes k copied 7
          (store-load-IsBytes b counted d.bytes 7 0 (counted-IsBytes b) hd))
        (λ i lt.
          htons_buff-outside k copied 7 i (inl lt)
          ∙ store-outside (load d.bytes 0 b) counted 7 i (inl lt)
          ∙ ground arith)
        small (inr which)

  bits-Made :
      (f b : ℕ)
      → f ≡ 15
      → b < 256
      → Made f head (pos (7 + b), pack_bits_loop d.bytes n 0 (put_u8 (put_be16 head 4 n) 6 b))
  bits-Made f b which small =
      let counted = put_u8 (put_be16 head 4 n) 6 b in
      tail-Made f b (pack_bits_loop d.bytes n 0 counted)
        (pack_bits_loop-IsBytes n 0 d.bytes counted (counted-IsBytes b))
        (λ i lt. pack_bits_loop-outside n 0 i d.bytes counted lt ∙ ground arith) small (inl which)

  body-Made : (f : ℕ) → Made f head (request_body f n d head)
  unfolding request_body
  body-Made f =
      if-holds (Made f head) ((f == 3) || (f == 4) || (f == 1) || (f == 2))
        (λ e. six-Made f _ (λ i. ground (arith, h i)) (λ i lt. ground arith) (ground arith))
        λ e.
          if-holds (Made f head) ((f == 16) && leb n 127)
            (λ e.
              if-holds (Made f head) d.null (λ e. refused-Made f head)
                (λ e'. words-Made f (n * 2 % 256) (n % 256) (ground arith) (omega arith)))
            λ e.
              if-holds (Made f head) ((f == 15) && leb n 254)
                (λ e.
                  if-holds (Made f head) d.null (λ e. refused-Made f head)
                    (λ e'. bits-Made f ((n + 7) / 8 % 256) (ground arith) (omega arith)))
                λ e.
                  if-holds (Made f head) (f == 6)
                    (λ e.
                      if-holds (Made f head) d.null (λ e. refused-Made f head)
                        (λ e'.
                          six-Made f _ (λ i. ground (arith, h i, hd 0, hd 1)) (λ i lt. ground arith)
                            (ground arith)))
                    λ e.
                      if-holds (Made f head) (f == 5)
                        (λ e.
                          six-Made f _ (λ i. ground (arith, h i)) (λ i lt. ground arith)
                            (ground arith))
                        λ e. refused-Made f head

check_counted :
    (m : Bytes) (len : ℕ)
    → (m 1 ≡ 15) ⊎ (m 1 ≡ 16)
    → 9 + m 6 ≡ len
    → len ≤ 256
    → modbus_crc16_check m len ≡ true
    → it_modbus_request_check m len ≡ pos 1
unfolding it_modbus_request_check it_modbus_simply_check
check_counted m len (inl e) sized fits good =
    let small : leb len 256 ≡ true = ground arith in rw (small, e, sized, good) refl
check_counted m len (inr e) sized fits good =
    let small : leb len 256 ≡ true = ground arith in rw (small, e, sized, good) refl

-- With its crc, such a request is accepted.
with_crc-accepted :
    (f byte : ℕ) (head q : Bytes)
    → head 1 ≡ f
    → byte ≤ 254
    → IsBody f head byte q
    → it_modbus_request_check (put_u16 q byte (modbus_crc16 q byte)) (byte + 2) ≡ pos 1
with_crc-accepted f byte head q function small body = elim body.sized [
  | inl (six, low) ↦
      let f1 : q 1 ≤ 6 = ground (arith, body.kept 1) in
      rw six (it_modbus_request_check-put_u16 q body.bytes f1)
  | inr (counted, which) ↦
      let m = put_u16 q byte (modbus_crc16 q byte) in
      let good = modbus_crc16_check-put_u16 q byte body.bytes (omega arith) in
      let f1 : m 1 ≡ f = ground (arith, body.kept 1) in
      let e6 : 9 + m 6 ≡ byte + 2 = ground arith in
      check_counted m (byte + 2) (elim which [ inl e ↦ inl (f1 ∙ e) | inr e ↦ inr (f1 ∙ e) ]) e6
        (omega arith) good
]

crc-accepted :
    (f : ℕ) (head : Bytes) (r : ℤ × Bytes) (len : ℕ) (p : Bytes)
    → head 1 ≡ f
    → Made f head r
    → request_crc r ≡ (pos len, p)
    → len ≤ 256
    → it_modbus_request_check p len ≡ pos 1 × ((i : ℕ) → i < 4 → p i ≡ head i)
unfolding request_crc
crc-accepted f head (negsuc k, q) len p function made e fits = absurd (cc)
crc-accepted f head (pos byte, q) len p function made e fits =
    let body = made byte refl in
    let lo : 0 < byte = ground (arith, body.sized) in
    let long : ltb 0 byte ≡ true = ground arith in
    let e' = rw long at e in
    let same_len : byte + 2 ≡ len = ground arith in
    let short : byte % 2 ^ 16 ≡ byte = omega arith in
    let good = with_crc-accepted f byte head q function (omega arith) body in
    let same : put_u16 q byte (modbus_crc16 q (byte % 2 ^ 16)) ≡ p = cc in
    subst (λ k. it_modbus_request_check k len ≡ pos 1 × ((i : ℕ) → i < 4 → k i ≡ head i)) same
      (rw (short, ← same_len) good, λ i lt. ground (arith, body.kept i, body.sized))

both :
    (r : ℤ × Bytes) (l : ℤ) (p : Bytes)
    → ◌≡◌ {A = ℤ × Option Bytes} (r.0, some r.1) (l, some p)
    → ◌≡◌ {A = ℤ × Bytes} r (l, p)
both (a, q) l p e = cc

-- What `modbus_make_packet` makes for bytes is, if it fits the 256 bytes of a packet, accepted by the
-- slave's check, and carries slave, function and first address.
pub it_modbus_request_check-modbus_make_packet :
    (slave f start n len : ℕ) (d : Pointer) (packet p : Bytes)
    → IsBytes packet
    → IsBytes d.bytes
    → f < 256
    → len ≤ 256
    → modbus_make_packet slave f start n d (some packet) ≡ (pos len, some p)
    → it_modbus_request_check p len ≡ pos 1
      × p 0 ≡ slave % 256
      × p 1 ≡ f
      × get_be16 p 2 ≡ start % 0x10000
unfolding modbus_make_packet request_head
it_modbus_request_check-modbus_make_packet slave f start n len d packet p h hd small fits e =
    let head = request_head slave f start packet in
    let bytes : IsBytes head = λ i. ground (arith, h i) in
    let r = request_body f n d head in
    let made : request_crc r ≡ (pos len, p) = both (request_crc r) (pos len) p e in
    let (good, kept) =
      crc-accepted f head r len p (omega arith) (body-Made n d head bytes hd f) made fits in
    (good, ground (arith, kept 0), ground (arith, kept 1), ground (arith, kept 2, kept 3))
