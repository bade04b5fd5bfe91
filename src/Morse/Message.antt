-- ===== src/Morse/Message.antt =====
-- The message that is keyed and broadcast: `fill_morse_log_buffer` and `handle_next_letter` of
-- user_tasks/morse.c.
use esp32_template.Base.{
  ℕ, zero, suc, ◌+◌, ◌%◌, ◌^◌, ◌≤◌, ◌<◌, none, some, List, [], ◌∷◌, ◌⊎◌, inr, ◌≡◌, refl, ap, ◌∙◌,
  arith, ltb, if◌then◌else◌, length, get_or,
}
use esp32_template.Base.Bytes.{Bytes, upd, load, store-outside, length-load}
use esp32_template.Morse.{
  MorseType, MorseNode, null, node, MorseState, fill_morse_log_buffer, zeros, handle_type,
  handle_next_letter,
}

-- The place stays within the message, and what lies behind it stays as it was.
fill-inside :
    (letter : List ℕ) (buffer : Bytes) (p max i : ℕ)
    → p ≤ max
    → max < 2 ^ 16
    → max < i
    → let r = fill_morse_log_buffer buffer letter p max in r.0 ≤ max × r.1 i ≡ buffer i
unfolding fill_morse_log_buffer
fill-inside [] buffer p max i h small out = (h, refl)
fill-inside (c ∷ letter) buffer p max i h small out =
    let p' = if ltb p max then (p + 1) % 2 ^ 16 else 0 in
    let inside : p' ≤ max = ground arith in
    let (bound, kept) = fill-inside letter (upd buffer p c) p' max i inside small out in
    (bound, kept ∙ ground arith)

pub length-zeros : (n : ℕ) → length (zeros n) ≡ n
length-zeros zero = refl
length-zeros (suc n) = ap suc (length-zeros n)

pub get_or-zeros : (n k : ℕ) → get_or (zeros n) k 0 ≡ 0
get_or-zeros zero k = refl
get_or-zeros (suc n) zero = refl
get_or-zeros (suc n) (suc k) = get_or-zeros n k

-- The place of the next byte is within the message, and registers behind both messages, and between
-- them, are untouched.
abbrev pub StaysInside : ℕ → MorseState → MorseState → Type 0
StaysInside max s s' =
    s'.log_pointer ≤ max × ((i : ℕ) → max < i → (i < 32) ⊎ (32 + max ≤ i) → s'.regs i ≡ s.regs i)

filled-StaysInside :
    (max : ℕ) (letter : List ℕ) (s : MorseState)
    → s.log_pointer ≤ max
    → max < 2 ^ 16
    → let r = fill_morse_log_buffer s.regs letter s.log_pointer max in
      StaysInside max s (record s { log_pointer = r.0; regs = r.1 })
filled-StaysInside max letter s h small = (
  (fill-inside letter s.regs s.log_pointer max (max + 1) h small (omega arith)).0,
  λ i out apart. (fill-inside letter s.regs s.log_pointer max i h small out).1,
)

handle_type-StaysInside :
    (max : ℕ) (type : MorseType) (letter : List ℕ) (s : MorseState)
    → s.log_pointer ≤ max
    → max < 2 ^ 16
    → StaysInside max s (handle_type max type letter s)
unfolding handle_type
handle_type-StaysInside max MorseType.morse_command_enable_bl letter s h small =
    (h, λ i out apart. refl)
handle_type-StaysInside max MorseType.morse_command_disable_bl letter s h small =
    (h, λ i out apart. refl)
handle_type-StaysInside max MorseType.morse_command_sleep letter s h small =
    (h, λ i out apart. refl)
handle_type-StaysInside max MorseType.morse_command_remove_last letter s h small =
    (ground arith, λ i out apart. ground arith)
handle_type-StaysInside max MorseType.morse_command_broadcast letter s h small = (
  omega arith,
  λ i out apart.
      store-outside (zeros max) _ 0 i (inr (ground (arith, length-zeros max)))
      ∙ store-outside (load s.regs 0 max) s.regs 32 i (ground (arith, length-load max s.regs 0)),
)
handle_type-StaysInside max MorseType.morse_letter letter s h small =
    filled-StaysInside max letter s h small
handle_type-StaysInside max MorseType.morse_digit letter s h small =
    filled-StaysInside max letter s h small
handle_type-StaysInside max MorseType.morse_sign letter s h small =
    filled-StaysInside max letter s h small
handle_type-StaysInside max MorseType.morse_space letter s h small =
    filled-StaysInside max letter s h small
handle_type-StaysInside max MorseType.morse_new_line letter s h small =
    filled-StaysInside max letter s h small
handle_type-StaysInside max MorseType.morse_end letter s h small =
    filled-StaysInside max letter s h small

-- Whatever is keyed, the place of the next byte stays at most the length of the message, the register
-- shows that place, and no register is written but those of the message, the one behind it, and, up
-- to that length, those that are sent.
pub handle_next_letter-inside :
    (max : ℕ) (n : MorseNode) (s : MorseState)
    → s.log_pointer ≤ max
    → max < 2 ^ 16
    → let s' = handle_next_letter max n s in
      StaysInside max s s' × s'.morse_message_position ≡ s'.log_pointer
unfolding handle_next_letter
handle_next_letter-inside max null s h small = ((h, λ i out apart. refl), refl)
handle_next_letter-inside max (node none type dit dah) s h small = ((h, λ i out apart. refl), refl)
handle_next_letter-inside max (node (some letter) type dit dah) s h small =
    (handle_type-StaysInside max type letter s h small, refl)
