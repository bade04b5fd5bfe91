-- ===== src/Sleep/Calm.antt =====
-- The signals in process in sleep_control_task of main/sleep_control.c.
use esp32_template.Base.{
  ℕ, ◌-◌, ◌*◌, ◌/◌, ◌^◌, ◌<◌, bit_and, bit_or, none, some, ◌≡◌, ◌≢◌, ◌⊎◌, inl, inr, refl, sym, ◌∙◌,
  arith, Bool, true, false, if-holds, ==_iff,
}
use esp32_template.Base.{ltb, ◌==◌, not, if◌then◌else◌}
use esp32_template.Crc.Detect.{each_below, each_below→holds}
use esp32_template.Sleep.{
  Sleeper, Round, awake, deleted, asleep, ask, save_all, rtc_setup_wakeup_timer, set_alive,
  take_signal, clear_timed, until_pin, sleep_control_round,
}

-- What a round comes to that gets the signal, with the alive timer at `alive`: another round, only
-- when no sleep without a timer is asked for, and then none is in process; the end of the task, for its
-- signal; sleep with a timer, when the alive timer has run out; sleep without one, when it is asked for
pub data IsCalm (signal alive : ℕ) : Round → Type 0 where
  calm_awake :
      (s : Sleeper)
      → s.signal_in_process < 8
      → bit_and signal 1 ≡ 0
      → bit_and signal 8 ≡ 0
      → IsCalm signal alive (awake s)
  calm_deleted : bit_and signal 1 ≢ 0 → IsCalm signal alive deleted
  calm_timer :
      (us : ℕ) (s : Sleeper)
      → bit_and signal 1 ≡ 0
      → alive ≡ 0
      → 0 < us
      → s.table_to_save ≡ 0xffffffff
      → IsCalm signal alive (asleep (some us) s)
  calm_pin :
      (s : Sleeper)
      → bit_and signal 1 ≡ 0
      → bit_and signal 8 ≢ 0
      → s.table_to_save ≡ 0xffffffff
      → IsCalm signal alive (asleep none s)

-- What holds of both branches holds of the choice.
if_holds : {A : Type 0} (P : A → Type 0) (c : Bool) (a b : A) → P a → P b → P (if c then a else b)
if_holds P true a b pa pb = pa
if_holds P false a b pa pb = pb

HasLow : Sleeper → Type 0
HasLow s = s.signal_in_process < 8

asked : ℕ → ℕ → ℕ → Sleeper → Sleeper
unfolding ask
asked signal flag t s =
    if bit_and signal flag == 0 then s else ask (bit_or s.signal_in_process flag) t s

asked-HasLow :
    (signal flag t : ℕ) (s : Sleeper)
    → each_below 8 (λ p. ltb (bit_or p flag) 8) ≡ true
    → HasLow s
    → HasLow (asked signal flag t s)
unfolding asked ask HasLow
asked-HasLow signal flag t s table h =
    if_holds HasLow (bit_and signal flag == 0) s (ask (bit_or s.signal_in_process flag) t s) h
      (ground (arith, each_below→holds 8 (λ p. ltb (bit_or p flag) 8) s.signal_in_process table h))

asked-alive :
    (signal flag t : ℕ) (s : Sleeper) → (asked signal flag t s).alive_timer ≡ s.alive_timer
unfolding asked ask
asked-alive signal flag t s =
    if_holds (λ (r : Sleeper). r.alive_timer ≡ s.alive_timer) (bit_and signal flag == 0) s
      (ask (bit_or s.signal_in_process flag) t s) refl refl

take_signal-alive : (signal : ℕ) (s : Sleeper) → (take_signal signal s).alive_timer ≡ s.alive_timer
unfolding take_signal asked ask
take_signal-alive signal s =
    let s2 = asked signal 2 120 s in
    let s4 = asked signal 4 (bit_and (signal / 2 ^ 16) 0xffff) s2 in
    asked-alive signal 8 s4.sleep_time s4
    ∙ asked-alive signal 4 (bit_and (signal / 2 ^ 16) 0xffff) s2
    ∙ asked-alive signal 2 120 s

-- The flag of the sleep without a timer is in process if and only if the signal has it.
Deep : ℕ → ℕ → Type 0
Deep signal p = (bit_and signal 8 ≡ 0 × p < 8) ⊎ (bit_and signal 8 ≢ 0 × p < 16 × bit_and p 8 ≢ 0)

deep_flag : (p : ℕ) → p < 8 → bit_or p 8 < 16 × bit_and (bit_or p 8) 8 ≢ 0
unfolding each_below
deep_flag p h = (
  ground (arith, each_below→holds 8 (λ p. ltb (bit_or p 8) 16) p refl h),
  ground (arith, each_below→holds 8 (λ p. bit_and (bit_or p 8) 8 == 8) p refl h),
)

take_signal-Deep :
    (signal : ℕ) (s : Sleeper) → HasLow s → Deep signal (take_signal signal s).signal_in_process
unfolding take_signal asked ask each_below HasLow Deep
take_signal-Deep signal s h =
    let s2 = asked signal 2 120 s in
    let s4 = asked signal 4 (bit_and (signal / 2 ^ 16) 0xffff) s2 in
    let low : HasLow s4 =
      asked-HasLow signal 4 (bit_and (signal / 2 ^ 16) 0xffff) s2 refl
        (asked-HasLow signal 2 120 s refl h) in
    if-holds (λ (s : Sleeper). Deep signal s.signal_in_process) (bit_and signal 8 == 0)
      (λ e. inl (ground (arith, e), low))
      (λ e.
        let (small, set) = deep_flag s4.signal_in_process low in
        inr (ground (arith, e), small, set))

clear_timed-Deep : (signal p : ℕ) → Deep signal p → Deep signal (clear_timed p)
unfolding clear_timed each_below Deep
clear_timed-Deep signal p (inl (e, low)) =
    inl (e, ground (arith, each_below→holds 8 (λ p. ltb (clear_timed p) 8) p refl low))
clear_timed-Deep signal p (inr (e, small, set)) = inr (
  e,
  ground (arith, each_below→holds 16 (λ p. ltb (clear_timed p) 16) p refl small),
  λ z.
      ground
        (arith, each_below→holds 16 (λ p. bit_and (clear_timed p) 8 == bit_and p 8) p refl small),
)

until_pin-IsCalm :
    (signal alive pin : ℕ) (s : Sleeper)
    → bit_and signal 1 ≡ 0
    → Deep signal s.signal_in_process
    → IsCalm signal alive (until_pin pin s)
unfolding until_pin set_alive save_all ask HasLow Deep each_below
until_pin-IsCalm signal alive pin s stays (inl (quiet, low)) =
    let e : (bit_and s.signal_in_process 8 == 0) ≡ true =
      each_below→holds 8 (λ p. bit_and p 8 == 0) s.signal_in_process refl low in
    rw e (calm_awake _ (if_holds HasLow (1 == pin) _ _ low low) stays quiet)
until_pin-IsCalm signal alive pin s stays (inr (deep, small, set)) =
    let e : (bit_and s.signal_in_process 8 == 0) ≡ false = ground arith in
    rw e (calm_pin _ stays deep refl)

-- A round that begins with no sleep without a timer in process comes to one of four: the task ends,
-- for its signal; it sleeps with the wakeup timer set to a time that is not 0, when the alive timer has
-- run out; it sleeps without a timer, when the signal asks for that; or it goes on, only when the signal asks neither for the end
-- nor for such a sleep, and leaves none in process for the next round. Before a sleep the save of all
-- tables is asked for.
pub sleep_control_round-IsCalm :
    (signal pin : ℕ) (s : Sleeper)
    → s.signal_in_process < 8
    → IsCalm signal s.alive_timer (sleep_control_round signal pin s)
unfolding sleep_control_round ask set_alive save_all rtc_setup_wakeup_timer HasLow
sleep_control_round-IsCalm signal pin s h =
    let s' = take_signal signal s in
    let n = s.alive_timer in
    let taken = take_signal-Deep signal s h in
    let due = ask (clear_timed s'.signal_in_process) s'.sleep_time s' in
    let later = set_alive (s'.alive_timer - 1) s' in
    if-holds (IsCalm signal n) (not (bit_and signal 1 == 0))
      (λ stop. calm_deleted (ground (arith, stop)))
      (λ goes.
        let stays : bit_and signal 1 ≡ 0 = ground (arith, goes) in
        if-holds (IsCalm signal n) (s'.alive_timer == 0)
          (λ out.
            if-holds (IsCalm signal n) (s'.sleep_time == 0)
              (λ e.
                until_pin-IsCalm signal n pin due stays
                  (clear_timed-Deep signal s'.signal_in_process taken))
              (λ e.
                calm_timer (s'.sleep_time * 1000000) (save_all due) stays
                  (sym (take_signal-alive signal s) ∙ (==_iff s'.alive_timer 0).0 out)
                  (ground (arith, e)) refl))
          (λ more. until_pin-IsCalm signal n pin later stays taken))
