-- ===== src/Tests/Tasks.antt =====
-- The frames that wait for the serial line, and the Morse key: main/slip_handle.c and
-- user_tasks/morse.c.
use esp32_template.Base.{
  ℕ, ◌+◌, ◌%◌, ◌^◌, ◌≡◌, ◌⊎◌, refl, arith, true, false, [], ◌∷◌, ◌++◌, if◌then◌else◌, ◌==◌, some,
  get_or,
}
use esp32_template.Base.Bytes.{Bytes, load}
use esp32_template.Base.Int.{pos}
use esp32_template.Morse.{
  MorseState, handle_next_letter, read_letter, message_is_new, is_a_line, same_text,
}
use esp32_template.Morse.Broadcast.{
  Spells, spells_nothing, spells_letter, key_all, handle_next_letter-broadcast,
}
use esp32_template.Morse.Decode.{walk, IsKeyed, last_one, one_before, read_letter-walk}
use esp32_template.Morse.Letters.{
  root_letter, s_letter, o_letter, h_letter, v_letter, otto_letter, chapter,
  broadcast_the_message_command,
}
use esp32_template.Sleep.{Sleeper, sleep_control_round, handle_sleeping}
use esp32_template.Sleep.Calm.{IsCalm, sleep_control_round-IsCalm}
use esp32_template.Sleep.Wakes.{Rests, handle_sleeping-SleepsFor}
use esp32_template.Slip.{FlowControl, no_slot, slot_at, buffer_of, slip_add_to_send_queue}
use esp32_template.Slip.Drain.{slip_flow_control_rounds, slip_flow_control_rounds-pending}
use esp32_template.Slip.Queue.{
  Absent, absent_nil, no_frames, one_more, IsWell, IsDropped, pending,
  slip_add_to_send_queue-pending,
}

-- One frame waits in the second of three slots.
abbrev flow : FlowControl
flow = record {
  slots = no_slot ∷ record { packet = buffer_of (1 ∷ 2 ∷ []); len = 2 } ∷ no_slot ∷ [];
  queue = 1 ∷ [];
}

flow-IsWell : IsWell flow
flow-IsWell = one_more 1 [] (omega arith) (omega arith) absent_nil no_frames

slip_add_to_send_queue-pending_example :
    let r = slip_add_to_send_queue flow (buffer_of (5 ∷ 6 ∷ [])) 1 true in
    IsWell r.1
    × ((pending r.1 ≡ pending flow ++ (load (buffer_of (5 ∷ 6 ∷ [])) 0 1 ∷ []) × r.0 ≡ pos 0)
        ⊎ (pending r.1 ≡ pending flow × IsDropped flow 1 true r.0))
slip_add_to_send_queue-pending_example =
    slip_add_to_send_queue-pending flow (buffer_of (5 ∷ 6 ∷ [])) 1 true flow-IsWell (omega arith)

slip_flow_control_rounds-pending_example :
    let r = slip_flow_control_rounds 1 flow in
    r.0 ≡ pending flow
    × r.1.queue ≡ []
    × ((i : ℕ) → Absent i flow.queue ⊎ ((slot_at r.1.slots i).len ≡ 0))
slip_flow_control_rounds-pending_example = slip_flow_control_rounds-pending flow flow-IsWell

-- A dit of one unit and a dah of five, of 100 ms each
abbrev keyed : ℕ → ℕ × ℕ
keyed i = if i == 0 then (100, 100) else (500, 1000)

keyed_a : IsKeyed 100 keyed 0 (false ∷ true ∷ [])
keyed_a =
    one_before 0 false true [] (omega arith) (omega arith)
      (last_one 1 true (omega arith) (omega arith))

read_letter-walk_example :
    read_letter 100 keyed root_letter 0 ≡ (walk (false ∷ true ∷ []) root_letter, 2)
read_letter-walk_example = read_letter-walk 100 keyed (false ∷ true ∷ []) keyed_a (λ e. cc)

abbrev morse_state : MorseState
morse_state = record {
  log_pointer = 0;
  regs = λ i. 0;
  morse_counter = 4;
  morse_message_position = 0;
  backlight = false;
  sleep_signals = 0;
}

-- S and O
so-Spells : Spells (s_letter ∷ o_letter ∷ []) (b'S' ∷ b'O' ∷ [])
so-Spells =
    spells_letter (b'S' ∷ []) h_letter v_letter (o_letter ∷ []) (b'O' ∷ [])
      (spells_letter (b'O' ∷ []) otto_letter chapter [] [] spells_nothing)

handle_next_letter-broadcast_example :
    let s' =
      handle_next_letter 32 broadcast_the_message_command
        (key_all 32 (s_letter ∷ o_letter ∷ []) morse_state) in
    s'.regs (32 + 1) ≡ get_or (b'S' ∷ b'O' ∷ []) 1 0
    × s'.regs 1 ≡ 0
    × s'.log_pointer ≡ 0
    × s'.morse_counter ≡ (4 + 1) % 2 ^ 32
handle_next_letter-broadcast_example =
    handle_next_letter-broadcast 32 1 (s_letter ∷ o_letter ∷ []) (b'S' ∷ b'O' ∷ []) morse_state
      so-Spells refl (λ j lt. ground arith) (omega arith) (omega arith) (omega arith)

-- The second line holds S.
abbrev lines : Bytes
lines a = if a == 96 then b'S' else 0

abbrev letter_s : Bytes
letter_s k = if k == 0 then b'S' else 0

is_known : message_is_new lines (some letter_s) 32 ≡ false
unfolding message_is_new is_a_line same_text
is_known = refl

is_new : message_is_new lines (some (λ k. b'O')) 32 ≡ true
unfolding message_is_new is_a_line same_text
is_new = refl

-- Three more rounds to stay awake, and a sleep of 120 seconds asked for
abbrev sleeper : Sleeper
sleeper = record {
  signal_in_process = 2;
  sleep_time = 120;
  alive_timer = 3;
  table_to_save = 0;
  async_flags = 1;
}

-- At 34 minutes past a feeding, with 26 to go
handle_sleeping-SleepsFor_example : Rests sleeper 60 1234
handle_sleeping-SleepsFor_example =
    handle_sleeping-SleepsFor sleeper 60 1234 (omega arith) (omega arith) (omega arith)

sleep_control_round-IsCalm_example : IsCalm 10 3 (sleep_control_round 10 1 sleeper)
sleep_control_round-IsCalm_example = sleep_control_round-IsCalm 10 1 sleeper (omega arith)

handle_sleeping_runs : handle_sleeping 60 1234 ≡ some 102236164
unfolding handle_sleeping
handle_sleeping_runs = refl
