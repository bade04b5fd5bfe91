-- ===== src/Sleep.antt =====
-- When the device sleeps: the loop of sleep_control_task, main/sleep_control.c, and what the feeder
-- asks of it, handle_sleeping of user_tasks/feeder.c. Signals, flags and times are u32 and u16.
pub mod Calm
pub mod Wakes
use esp32_template.Base.{ℕ, zero, suc, ◌-◌, ◌*◌, ◌/◌, ◌%◌, ◌^◌, bit_and, bit_or, Option, none, some}
use esp32_template.Base.{ltb, leb, ◌==◌, not, if◌then◌else◌}
use esp32_template.Mirror.{set_from_bkram_to_flash}

-- `enum sleep_task_event`
abbrev pub sleep_task_stop_child_procces : ℕ
sleep_task_stop_child_procces = 1

abbrev pub sleep_task_deep_sleep_for_120_sec : ℕ
sleep_task_deep_sleep_for_120_sec = 2

abbrev pub sleep_task_deep_sleep_for_n_sec : ℕ
sleep_task_deep_sleep_for_n_sec = 4

abbrev pub sleep_task_deep_sleep : ℕ
sleep_task_deep_sleep = 8

-- The task's variables and the two registers that it writes
pub record Sleeper : Type 0 where
  pub signal_in_process : ℕ
  pub sleep_time : ℕ
  pub alive_timer : ℕ
  pub table_to_save : ℕ
  pub async_flags : ℕ

-- What a round of the loop comes to: another round, the end of the task, or deep sleep with the
-- microseconds of the wakeup timer, if it is set
pub data Round : Type 0 where
  awake : Sleeper → Round
  deleted : Round
  asleep : Option ℕ → Sleeper → Round

-- All tables are to be saved before the device sleeps.
unfoldable pub save_all : Sleeper → Sleeper
save_all s = record {
  signal_in_process = s.signal_in_process;
  sleep_time = s.sleep_time;
  alive_timer = s.alive_timer;
  table_to_save = 0xffffffff;
  async_flags = bit_or s.async_flags set_from_bkram_to_flash;
}

-- `signal_in_process = p; sleep_time = t`
unfoldable pub ask : ℕ → ℕ → Sleeper → Sleeper
ask p t s = record {
  signal_in_process = p;
  sleep_time = t;
  alive_timer = s.alive_timer;
  table_to_save = s.table_to_save;
  async_flags = s.async_flags;
}

unfoldable pub set_alive : ℕ → Sleeper → Sleeper
set_alive t s = record {
  signal_in_process = s.signal_in_process;
  sleep_time = s.sleep_time;
  alive_timer = t;
  table_to_save = s.table_to_save;
  async_flags = s.async_flags;
}

-- What a signal asks for
unfoldable pub take_signal : ℕ → Sleeper → Sleeper
unfolding ask
take_signal signal s =
    let s =
      if bit_and signal sleep_task_deep_sleep_for_120_sec == 0
      then s
      else ask (bit_or s.signal_in_process sleep_task_deep_sleep_for_120_sec) 120 s in
    let s =
      if bit_and signal sleep_task_deep_sleep_for_n_sec == 0
      then s
      else ask (bit_or s.signal_in_process sleep_task_deep_sleep_for_n_sec)
          (bit_and (signal / 2 ^ 16) 0x0000ffff) s in
    if bit_and signal sleep_task_deep_sleep == 0
    then s
    else ask (bit_or s.signal_in_process sleep_task_deep_sleep) s.sleep_time s

-- `rtc_setup_wakeup_timer` asks for this many microseconds.
unfoldable pub rtc_setup_wakeup_timer : ℕ → ℕ
rtc_setup_wakeup_timer seconds = seconds * 1000000

-- `p &= ~flag`
abbrev pub clear_flag : ℕ → ℕ → ℕ
clear_flag p flag = bit_and p (0xffffffff - flag)

unfoldable pub clear_timed : ℕ → ℕ
clear_timed p =
    if not (bit_and p sleep_task_deep_sleep_for_n_sec == 0)
    then clear_flag p sleep_task_deep_sleep_for_n_sec
    else if not (bit_and p sleep_task_deep_sleep_for_120_sec == 0)
    then clear_flag p sleep_task_deep_sleep_for_120_sec
    else p

abbrev pub alive_init_value : ℕ
alive_init_value = 500

-- The sleep that no timer ends, and the pin, which keeps the device awake
unfoldable pub until_pin : ℕ → Sleeper → Round
unfolding ask save_all set_alive
until_pin pin s =
    if bit_and s.signal_in_process sleep_task_deep_sleep == 0
    then awake (if 1 == pin then set_alive alive_init_value s else s)
    else asleep none
        (save_all (ask (clear_flag s.signal_in_process sleep_task_deep_sleep) s.sleep_time s))

-- One round of the loop, with the signals that wait, 0 if none, and the level of the pin
unfoldable pub sleep_control_round : ℕ → ℕ → Sleeper → Round
unfolding take_signal clear_timed until_pin ask save_all rtc_setup_wakeup_timer set_alive
sleep_control_round signal pin s =
    let s' = take_signal signal s in
    if not (bit_and signal sleep_task_stop_child_procces == 0)
    then deleted
    else if s'.alive_timer == 0
    then (let s'' = ask (clear_timed s'.signal_in_process) s'.sleep_time s' in
        if s''.sleep_time == 0
        then until_pin pin s''
        else asleep (some (rtc_setup_wakeup_timer s''.sleep_time)) (save_all s''))
    else until_pin pin (set_alive (s'.alive_timer - 1) s')

-- `n` more rounds without a signal and with the pin low, as long as the task runs
unfoldable pub quiet_rounds : ℕ → Round → Round
unfolding sleep_control_round
quiet_rounds zero r = r
quiet_rounds (suc n) (awake s) = quiet_rounds n (sleep_control_round 0 0 s)
quiet_rounds (suc n) deleted = deleted
quiet_rounds (suc n) (asleep timer s) = asleep timer s

abbrev pub min_work_time_minute : ℕ
min_work_time_minute = 1

abbrev pub max_sleep_time_minute : ℕ
max_sleep_time_minute = 240

-- The signal to the sleep task, in the feeder
unfoldable pub sleep_signal : ℕ → ℕ
sleep_signal sleep_time_sec =
    bit_or sleep_task_deep_sleep_for_n_sec (bit_and (sleep_time_sec * 2 ^ 16 % 2 ^ 32) 0xffff0000)

-- The signal that the feeder sends, if it sends one
unfoldable pub handle_sleeping : ℕ → ℕ → Option ℕ
unfolding sleep_signal
handle_sleeping interval_minute minutes_of_the_day =
    if ltb min_work_time_minute interval_minute
    then (let time_without_feeding = minutes_of_the_day % interval_minute in
        if leb min_work_time_minute time_without_feeding
        then (let left = interval_minute - time_without_feeding in
            let sleep_time_minutes =
              if ltb max_sleep_time_minute left then max_sleep_time_minute else left in
            if sleep_time_minutes == 0 then none else some (sleep_signal (sleep_time_minutes * 60)))
        else none)
    else none
