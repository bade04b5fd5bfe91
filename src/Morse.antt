-- ===== src/Morse.antt =====
-- The user task user_tasks/morse.c: its nodes, the message in the task's registers, and what a
-- letter or a command does with them.
pub mod Letters
pub mod Decode
pub mod Message
pub mod Broadcast
use esp32_template.Base.{
  ℕ, zero, suc, ◌+◌, ◌-◌, ◌*◌, ◌%◌, ◌^◌, Bool, true, false, ◌||◌, Option, none, some, List, [], ◌∷◌,
}
use esp32_template.Base.{ltb, ◌==◌, not, if◌then◌else◌}
use esp32_template.Base.Bytes.{Bytes, upd, load, store}

-- `morse_type_t`
pub data MorseType : Type 0 where
  morse_letter : MorseType
  morse_digit : MorseType
  morse_sign : MorseType
  morse_space : MorseType
  morse_new_line : MorseType
  morse_command_enable_bl : MorseType
  morse_command_disable_bl : MorseType
  morse_command_sleep : MorseType
  morse_command_remove_last : MorseType
  morse_command_broadcast : MorseType
  morse_end : MorseType

-- `struct morse_node`: a NULL pointer, or the text, the kind, and what a dit and a dah lead to
pub data MorseNode : Type 0 where
  null : MorseNode
  node : Option (List ℕ) → MorseType → MorseNode → MorseNode → MorseNode

-- The registers `morse_message`, of 32 bytes, and `morse_send` behind it, from address 0 on
abbrev pub morse_send : ℕ
morse_send = 32

-- The task's registers and `log_pointer`, the pin of the backlight, and the signals sent to the
-- sleep task
pub record MorseState : Type 0 where
  pub log_pointer : ℕ
  pub regs : Bytes
  pub morse_counter : ℕ
  pub morse_message_position : ℕ
  pub backlight : Bool
  pub sleep_signals : ℕ

-- The buffer, and the place for the next byte
unfoldable pub fill_morse_log_buffer : Bytes → List ℕ → ℕ → ℕ → ℕ × Bytes
fill_morse_log_buffer buffer [] log_pointer max_log_size = (log_pointer, buffer)
fill_morse_log_buffer buffer (c ∷ letter) log_pointer max_log_size =
    fill_morse_log_buffer (upd buffer log_pointer c) letter
      (if ltb log_pointer max_log_size then (log_pointer + 1) % 2 ^ 16 else 0) max_log_size

-- The bytes that `memset` writes
abbrev pub zeros : ℕ → List ℕ
zeros zero = []
zeros (suc n) = 0 ∷ zeros n

-- What a letter of that kind does
unfoldable pub handle_type : ℕ → MorseType → List ℕ → MorseState → MorseState
unfolding fill_morse_log_buffer store load
handle_type max_log_size MorseType.morse_command_enable_bl letter s = record s { backlight = true }
handle_type max_log_size MorseType.morse_command_disable_bl letter s = record s {
  backlight = false;
}
handle_type max_log_size MorseType.morse_command_sleep letter s = record s {
  sleep_signals = s.sleep_signals + 1;
}
handle_type max_log_size MorseType.morse_command_remove_last letter s =
    let log_pointer = if ltb 0 s.log_pointer then s.log_pointer - 1 else s.log_pointer in
    record s { log_pointer = log_pointer; regs = upd s.regs log_pointer 0 }
handle_type max_log_size MorseType.morse_command_broadcast letter s =
    let sent = store s.regs morse_send (load s.regs 0 max_log_size) in
    record s {
      log_pointer = 0;
      regs = store sent 0 (zeros max_log_size);
      morse_counter = (s.morse_counter + 1) % 2 ^ 32;
    }
handle_type max_log_size type letter s =
    let r = fill_morse_log_buffer s.regs letter s.log_pointer max_log_size in
    record s { log_pointer = r.0; regs = r.1 }

-- The letter of a node, if it has one, and the register that shows the place
unfoldable pub handle_next_letter : ℕ → MorseNode → MorseState → MorseState
unfolding handle_type
handle_next_letter max_log_size null s = record s { morse_message_position = s.log_pointer }
handle_next_letter max_log_size (node none type dit dah) s = record s {
  morse_message_position = s.log_pointer;
}
handle_next_letter max_log_size (node (some letter) type dit dah) s =
    let s' = handle_type max_log_size type letter s in
    record s' { morse_message_position = s'.log_pointer }

-- The inner loop of `morse_task`: the signals are pairs of the time that the pin is held and the
-- time until it is pressed again, as `time_state` measures them. The node reached, and the number
-- of signals taken. Each call of `time_state` returns here; in the code it does not while the key is
-- held.
unfoldable pub read_letter : ℕ → (ℕ → ℕ × ℕ) → MorseNode → ℕ → MorseNode × ℕ
read_letter unit signals null i = (null, i)
read_letter unit signals (node letter type dit dah) i =
    let from_dah = read_letter unit signals dah (i + 1) in
    let from_dit = read_letter unit signals dit (i + 1) in
    let (held, gap) = signals i in
    let stops = ltb (7 * unit) gap || ltb (3 * unit) gap in
    if ltb (3 * unit) held
    then (if stops then (dah, i + 1) else from_dah)
    else (if stops then (dit, i + 1) else from_dit)

-- The received lines stand behind the two messages, 32 bytes each.
abbrev pub display_lines_num : ℕ
display_lines_num = 4

-- The address of a line, or nothing for NULL
unfoldable pub get_pointer_to_line : ℕ → Option ℕ
get_pointer_to_line line = if ltb line display_lines_num then some (64 + line * 32) else none

-- `strncmp` of two texts is 0: the bytes are the same up to a 0 or up to the length.
unfoldable pub same_text : Bytes → Bytes → ℕ → ℕ → Bool
same_text first second zero i = true
same_text first second (suc len) i =
    let rest = same_text first second len (i + 1) in
    if first i == second i then (if first i == 0 then true else rest) else false

-- Whether one of the lines from `i` on is the message
unfoldable pub is_a_line : Bytes → Bytes → ℕ → ℕ → ℕ → Bool
unfolding same_text
is_a_line regs message len zero i = false
is_a_line regs message len (suc left) i =
    let rest = is_a_line regs message len left (i + 1) in
    if same_text message (λ k. regs (64 + i * 32 + k)) len 0 then true else rest

-- A message that is not NULL and none of the lines
unfoldable pub message_is_new : Bytes → Option Bytes → ℕ → Bool
unfolding is_a_line
message_is_new regs none len = false
message_is_new regs (some message) len = not (is_a_line regs message len display_lines_num 0)
