-- ===== src/Udp/Messages.antt =====
-- A message that is sent to all appears on a line of the devices that receive it:
-- main/udp_broadcast/udp_broadcast.c and user_tasks/morse.c.
use mathlib.Core.List.{append_assoc}
use mathlib.Core.Path.{subst}
use esp32_template.Base.{
  ℕ, ◌+◌, ◌-◌, ◌*◌, ◌%◌, ◌^◌, ◌≤◌, ◌<◌, ◌≡◌, ◌⊎◌, inl, inr, refl, sym, ap, ◌∙◌, arith, Bool, true,
  false, Option, none, some, [], ◌∷◌, ◌++◌, ltb, leb, ◌==◌, length, length-append, get_or, lt→ltb,
}
use esp32_template.Base.Bytes.{Bytes, store, load, store-outside, load-store}
use esp32_template.Json.Output.{take}
use esp32_template.Json.Output.Holds.{take-all}
use esp32_template.Json.Request.{padded}
use esp32_template.Json.Strings.{Text, codes, begins_with, strstr, strcmp_same}
use esp32_template.Morse.{MorseState, zeros, get_pointer_to_line, message_is_new}
use esp32_template.Platform.{Platform}
use esp32_template.Udp.{
  udp_broadcast_max_packet_size, advertisment_request, drop, Known, advertisement_packet,
  learn_slave, check_packet, sender, put_line, take_message, handle_other, handle_received,
  udp_broadcast_server_recv,
}

drop-append : (s t : Text) → drop (length s) (s ++ t) ≡ t
drop-append [] t = refl
drop-append (c ∷ s) t = drop-append s t

take-append : (s t : Text) → take (length s) (s ++ t) ≡ s
take-append [] t = refl
take-append (c ∷ s) t = ap (◌∷◌ c) (take-append s t)

padded-append : (s t : Text) → padded (length s) (s ++ t) ≡ s
unfolding padded
padded-append [] t = refl
padded-append (c ∷ s) t = ap (◌∷◌ c) (padded-append s t)

strcmp_same_refl : (s : Text) → strcmp_same s s ≡ true
unfolding strcmp_same
strcmp_same_refl [] = refl
strcmp_same_refl (c ∷ s) =
    let rest = strcmp_same_refl s in
    let same : (c == c) ≡ true = ground arith in rw (same, rest) refl

-- A check value has 32 bytes.
abbrev pub HasLength : Option (Text → Text) → Type 0
HasLength none = Unit {0}
HasLength (some hmac) = (text : Text) → length (hmac text) ≡ 32

-- The packet without its check value, and what stands behind the message in the whole packet
abbrev text_of : Text → Text
text_of message = codes "{\"device_name\": \"morse\",\"message\": \"" ++ (message ++ codes "\"}")

abbrev behind : Option (Text → Text) → Text → Text
behind none message = codes "\"}"
behind (some hmac) message = codes "\"}" ++ hmac (text_of message)

packet_parts :
    (hmac : Option (Text → Text)) (message : Text)
    → advertisement_packet hmac message
      ≡ codes "{\"device_name\": \"morse\",\"message\": \"" ++ (message ++ behind hmac message)
unfolding advertisement_packet
packet_parts none message = refl
packet_parts (some hmac) message =
    ap (λ t. codes "{\"device_name\": \"morse\",\"message\": \"" ++ t)
      (append_assoc message (codes "\"}") (hmac (text_of message)))

length-behind :
    (hmac : Option (Text → Text)) (message : Text)
    → HasLength hmac
    → length (behind hmac message) ≤ 34
length-behind none message h = omega arith
length-behind (some hmac) message h = omega (arith, h (text_of message))

length-text_of : (message : Text) → length (text_of message) ≡ 38 + length message
length-text_of message = omega (arith, length-append message (codes "\"}"))

-- A text with its own check value behind it is valid.
check_packet-own :
    (hmac : Text → Text) (text : Text)
    → length (hmac text) ≡ 32
    → 0 < length text
    → check_packet (some hmac) (text ++ hmac text) ≡ (true, (length text + 254) % 256)
unfolding check_packet
check_packet-own hmac text h some_bytes =
    let sum = length-append text (hmac text) in
    let long : ltb 32 (length (text ++ hmac text)) ≡ true =
      lt→ltb 32 (length (text ++ hmac text)) (omega arith) in
    let n : length (text ++ hmac text) - 32 ≡ length text = omega arith in
    let front = take-append text (hmac text) in
    let back = drop-append text (hmac text) in
    let same = strcmp_same_refl (hmac text) in rw (long, n, front, back, same, check_packet) refl

-- The receiver finds the check value right, and the end of the message.
check_packet-advertisement_packet :
    (hmac : Option (Text → Text)) (message : Text)
    → HasLength hmac
    → length message ≤ 28
    → check_packet hmac (advertisement_packet hmac message) ≡ (true, 36 + length message)
unfolding check_packet advertisement_packet
check_packet-advertisement_packet none message h small =
    ap {B = Bool × ℕ} (λ n. (true, n)) (omega (arith, length-append message (codes "\"}")))
check_packet-advertisement_packet (some hmac) message h small =
    check_packet-own hmac (text_of message) (h (text_of message)) (omega arith)
    ∙ ap {B = Bool × ℕ} (λ n. (true, n)) (omega (arith, length-append message (codes "\"}")))

take_message-found :
    (s : MorseState) (ip3 : ℕ) (receive found message tail : Text) (last position : ℕ)
    → strstr (codes "message") receive ≡ some found
    → length receive - length found + 11 ≡ position
    → drop 11 found ≡ message ++ tail
    → 11 < length found
    → (last + 512 - position) % 256 ≡ length message
    → 0 < length message
    → position + length message ≤ 513
    → take_message s ip3 receive last ≡ some (put_line s (sender ip3 ++ message))
unfolding take_message
take_message-found s ip3 receive found message tail last position at p text long len some_bytes
      room =
    let is_long = lt→ltb 11 (length found) long in
    let is_some = lt→ltb 0 (length message) some_bytes in
    let has_room : leb (position + length message) 513 ≡ true = ground arith in
    let whole = padded-append message tail in
    rw (at, p, len, is_long, is_some, has_room, text, whole, take_message) refl

take_message-text :
    (s : MorseState) (ip3 : ℕ) (message tail : Text)
    → 0 < length message
    → length message ≤ 28
    → take_message s ip3
        (codes "{\"device_name\": \"morse\",\"message\": \"" ++ (message ++ tail))
        (36 + length message)
      ≡ some (put_line s (sender ip3 ++ message))
unfolding strstr begins_with
take_message-text s ip3 message tail some_bytes small =
    let sum = length-append message tail in
    take_message-found s ip3
      (codes "{\"device_name\": \"morse\",\"message\": \"" ++ (message ++ tail))
      (codes "message\": \"" ++ (message ++ tail)) message tail (36 + length message) 36 refl
      (omega arith) refl (omega arith) (omega arith) some_bytes (omega arith)

put_line-new :
    (s : MorseState) (message : Text)
    → message_is_new s.regs (some (λ k. get_or message k 0)) (length message % 256) ≡ true
    → put_line s message ≡ record s {
      regs =
          store
            (store s.regs (64 + s.morse_counter % 4 * 32) (zeros 32))
            (64 + s.morse_counter % 4 * 32)
            message;
      morse_counter = (s.morse_counter + 1) % 2 ^ 32;
    }
unfolding put_line get_pointer_to_line
put_line-new s message new =
    let line : ltb (s.morse_counter % 4) 4 ≡ true = ground arith in
    rw (new, line, put_line, get_pointer_to_line) refl

length-packet :
    (hmac : Option (Text → Text)) (message : Text)
    → HasLength hmac
    → length message ≤ 28
    → length (advertisement_packet hmac message) ≤ udp_broadcast_max_packet_size
length-packet hmac message h small = omega (
  arith,
  ap length (packet_parts hmac message),
  length-append message (behind hmac message),
  length-behind hmac message h,
)

no_request :
    (hmac : Option (Text → Text)) (message : Text)
    → begins_with (advertisment_request ++ 0 ∷ []) (advertisement_packet hmac message ++ 0 ∷ [])
      ≡ false
unfolding begins_with advertisement_packet
no_request none message = refl
no_request (some hmac) message = refl

-- The line that is next, and the line after a message of the device whose address ends with `ip3`
abbrev pub next_line : MorseState → ℕ
next_line s = 64 + s.morse_counter % 4 * 32

pub record IsShown (ip3 : ℕ) (message : Text) (s s' : MorseState) : Type 0 where
  pub on_line : load s'.regs (next_line s) (length (sender ip3 ++ message)) ≡ sender ip3 ++ message
  pub counted : s'.morse_counter ≡ (s.morse_counter + 1) % 2 ^ 32
  pub elsewhere : (i : ℕ) → (i < next_line s) ⊎ (next_line s + 32 ≤ i) → s'.regs i ≡ s.regs i

shown :
    (s : MorseState) (ip3 : ℕ) (message : Text)
    → length message ≤ 28
    → IsShown ip3 message s (record s {
      regs = store (store s.regs (next_line s) (zeros 32)) (next_line s) (sender ip3 ++ message);
      morse_counter = (s.morse_counter + 1) % 2 ^ 32;
    })
shown s ip3 message small =
    let cleared = store s.regs (next_line s) (zeros 32) in
    record {
      on_line = load-store (sender ip3 ++ message) cleared (next_line s);
      counted = refl;
      elsewhere = λ i out.
          store-outside (sender ip3 ++ message) cleared (next_line s) i
            (outside (next_line s) i (length (sender ip3 ++ message)) (omega arith) out)
          ∙ store-outside (zeros 32) s.regs (next_line s) i
              (outside (next_line s) i (length (zeros 32)) (omega arith) out);
    }
  where
    outside : (a i n : ℕ) → n ≤ 32 → (i < a) ⊎ (a + 32 ≤ i) → (i < a) ⊎ (a + n ≤ i)
    outside a i n h (inl p) = inl p
    outside a i n h (inr p) = inr (omega arith)

module _ (pf : Platform) (hmac : Option (Text → Text)) (m : Bytes) where
  handles_message :
      (k : Known) (ip ip3 : ℕ) (message : Text)
      → HasLength hmac
      → 0 < length message
      → length message ≤ 28
      → handle_other pf hmac k ip ip3 (advertisement_packet hmac message)
        ≡ some (record {
          slaves = learn_slave k.slaves ip (advertisement_packet hmac message);
          morse = put_line k.morse (sender ip3 ++ message);
        })
  unfolding handle_other
  handles_message k ip ip3 message h some_bytes small =
      let checked = check_packet-advertisement_packet hmac message h small in
      let parts = packet_parts hmac message in
      let taken : take_message k.morse ip3 (advertisement_packet hmac message) (36 + length message)
          ≡ some (put_line k.morse (sender ip3 ++ message)) =
        rw parts (take_message-text k.morse ip3 message (behind hmac message) some_bytes small) in
      rw (checked, taken, handle_other) refl

  received :
      (k : Known) (ip ip3 : ℕ) (receive : Text) (k' : Known)
      → length receive ≤ udp_broadcast_max_packet_size
      → begins_with (advertisment_request ++ 0 ∷ []) (receive ++ 0 ∷ []) ≡ false
      → handle_other pf hmac k ip ip3 receive ≡ some k'
      → udp_broadcast_server_recv pf hmac m k ip ip3 receive ≡ some ([], k')
  unfolding udp_broadcast_server_recv handle_received
  received k ip ip3 receive k' short other handled =
      let whole = take-all udp_broadcast_max_packet_size receive short in
      rw (whole, other, handled, udp_broadcast_server_recv, handle_received) refl

  -- A message of 1 to 28 bytes that a device sends to all is taken by a device with the same check
  -- value, if it has one, of 32 bytes. If it is on no line yet, it is put on the next line behind the
  -- last byte of the sender's address, the messages are counted, and no register outside the line
  -- changes; no answer is sent.
  pub udp_broadcast_server_recv-advertisement_packet :
      (k : Known) (ip ip3 : ℕ) (message : Text)
      → HasLength hmac
      → 0 < length message
      → length message ≤ 28
      → message_is_new k.morse.regs
          (some (λ i. get_or (sender ip3 ++ message) i 0))
          (length (sender ip3 ++ message) % 256)
        ≡ true
      → (k' : Known) × (udp_broadcast_server_recv pf hmac m k ip ip3
              (advertisement_packet hmac message)
            ≡ some ([], k')
          × IsShown ip3 message k.morse k'.morse)
  udp_broadcast_server_recv-advertisement_packet k ip ip3 message h some_bytes small new =
      let packet = advertisement_packet hmac message in
      let k' : Known = record {
        slaves = learn_slave k.slaves ip packet;
        morse = put_line k.morse (sender ip3 ++ message);
      } in
      (
        k',
        (
          received k ip ip3 packet k' (length-packet hmac message h small) (no_request hmac message)
              (handles_message k ip ip3 message h some_bytes small),
          subst (IsShown ip3 message k.morse)
              (sym (put_line-new k.morse (sender ip3 ++ message) new))
              (shown k.morse ip3 message small),
        ),
      )
