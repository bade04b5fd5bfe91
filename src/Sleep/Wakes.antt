-- ===== src/Sleep/Wakes.antt =====
-- The feeder's pauses: what handle_sleeping of user_tasks/feeder.c asks for is what
-- sleep_control_task of main/sleep_control.c does.
use native.Mathlib.Decide.{dec_lt}
use native.Mathlib.Nat.{mod-lt, mod-add-mod, mod_self}
use esp32_template.Base.{
  ℕ, zero, suc, ◌+◌, ◌-◌, ◌*◌, ◌/◌, ◌%◌, ◌^◌, ◌≤◌, ◌<◌, bit_and, bit_or, ◌≡◌, ◌≢◌, ◌⊎◌, inl, inr,
  refl, ap, ◌∙◌, sym, arith, true, false, some,
}
use esp32_template.Base.{ltb, leb, ◌==◌, ==_iff, if◌then◌else◌}
use esp32_template.Crc.Detect.{each_below, each_below→holds}
use esp32_template.Sleep.{
  Sleeper, Round, asleep, ask, save_all, set_alive, take_signal, until_pin, rtc_setup_wakeup_timer,
  sleep_control_round, quiet_rounds, sleep_signal, handle_sleeping,
}

-- Deep sleep with the wakeup timer at that many microseconds, with the save of all tables asked for
pub data SleepsFor : ℕ → Round → Type 0 where
  sleeps_for :
      (us : ℕ) (s : Sleeper) → s.table_to_save ≡ 0xffffffff → SleepsFor us (asleep (some us) s)

-- `k` minutes are left to the next feeding, or it is farther away than the longest sleep.
pub IsPause : ℕ → ℕ → ℕ → Type 0
IsPause interval minutes k =
    ((minutes + k) % interval ≡ 0) ⊎ ((k ≡ 240) × (k < interval - minutes % interval))

-- The device sleeps for a pause of whole minutes that the feeder asked for.
pub record Rests (s : Sleeper) (interval minutes : ℕ) : Type 0 where
  pub pause : ℕ
  pub not_zero : 0 < pause
  pub not_too_long : pause ≤ 240
  pub until_feeding : IsPause interval minutes pause
  pub sent : handle_sleeping interval minutes ≡ some (sleep_signal (pause * 60))
  pub slept :
      SleepsFor
        (pause * 60 * 1000000)
        (quiet_rounds s.alive_timer (sleep_control_round (sleep_signal (pause * 60)) 0 s))

by_table :
    (bound : ℕ) (f g : ℕ → ℕ)
    → each_below bound (λ x. f x == g x) ≡ true
    → (x : ℕ) → x < bound
    → f x ≡ g x
by_table bound f g table x below = (==_iff (f x) (g x)).0 (each_below→holds bound _ x table below)

-- Only the flag of a timed sleep is set in the feeder's signals, ...
signal_flags :
    (k : ℕ)
    → k < 241
    → bit_and (sleep_signal (k * 60)) 1
        + bit_and (sleep_signal (k * 60)) 2
        + bit_and (sleep_signal (k * 60)) 8
      ≡ 0
unfolding each_below sleep_signal
signal_flags =
    by_table 241
      (λ k.
        bit_and (sleep_signal (k * 60)) 1
        + bit_and (sleep_signal (k * 60)) 2
        + bit_and (sleep_signal (k * 60)) 8)
      (λ k. 0) refl

signal_flag : (k : ℕ) → k < 241 → bit_and (sleep_signal (k * 60)) 4 ≡ 4
unfolding each_below sleep_signal
signal_flag = by_table 241 (λ k. bit_and (sleep_signal (k * 60)) 4) (λ k. 4) refl

-- ... and the seconds are read back from them.
signal_seconds : (k : ℕ) → k < 241 → bit_and (sleep_signal (k * 60) / 2 ^ 16) 0xffff ≡ k * 60
unfolding each_below sleep_signal
signal_seconds =
    by_table 241 (λ k. bit_and (sleep_signal (k * 60) / 2 ^ 16) 0xffff) (λ k. k * 60) refl

low_flags : (p : ℕ) → p < 8 → bit_and (bit_or p 4) 8 ≡ 0
unfolding each_below
low_flags = by_table 8 (λ p. bit_and (bit_or p 4) 8) (λ p. 0) refl

take_signal-sleep_signal :
    (k : ℕ) (s : Sleeper)
    → k < 241
    → take_signal (sleep_signal (k * 60)) s ≡ ask (bit_or s.signal_in_process 4) (k * 60) s
unfolding take_signal
take_signal-sleep_signal k s h =
    let two : bit_and (sleep_signal (k * 60)) 2 ≡ 0 = ground (arith, signal_flags k h) in
    let eight : bit_and (sleep_signal (k * 60)) 8 ≡ 0 = ground (arith, signal_flags k h) in
    rw (two, eight, signal_flag k h, signal_seconds k h) refl

-- A device that is to sleep for a time does so when its timer has run out.
counts_down :
    (n : ℕ) (p t : ℕ) (s : Sleeper)
    → 0 < t
    → bit_and p 8 ≡ 0
    → SleepsFor (t * 1000000) (quiet_rounds n (sleep_control_round 0 0 (ask p t (set_alive n s))))
unfolding quiet_rounds sleep_control_round take_signal until_pin ask set_alive save_all
    rtc_setup_wakeup_timer
counts_down zero p t s pos clear =
    let e : (t == 0) ≡ false = ground arith in rw e (sleeps_for (t * 1000000) _ refl)
counts_down (suc n) p t s pos clear =
    let e : (suc n == 0) ≡ false = ground arith in
    let d : suc n - 1 ≡ n = omega arith in rw (e, d, clear) (counts_down n p t s pos clear)

-- The round that gets the signal
first_round :
    (k : ℕ) (s : Sleeper)
    → k < 241
    → sleep_control_round (sleep_signal (k * 60)) 0 s
      ≡ sleep_control_round 0 0 (ask (bit_or s.signal_in_process 4) (k * 60) s)
unfolding sleep_control_round
first_round k s h =
    let one : bit_and (sleep_signal (k * 60)) 1 ≡ 0 = ground (arith, signal_flags k h) in
    rw (one, take_signal-sleep_signal k s h) refl

-- The minutes that the feeder asks for
pause_of : ℕ → ℕ
pause_of left = if ltb 240 left then 240 else left

handle_sleeping-signal :
    (interval minutes : ℕ)
    → 1 < interval
    → minutes % interval ≢ 0
    → handle_sleeping interval minutes
      ≡ some (sleep_signal (pause_of (interval - minutes % interval) * 60))
unfolding handle_sleeping pause_of
handle_sleeping-signal interval minutes long off =
    let r : minutes % interval < interval = mod-lt minutes (omega arith) in
    let a : ltb 1 interval ≡ true = ground arith in
    let b : leb 1 (minutes % interval) ≡ true = ground arith in
    let c : (pause_of (interval - minutes % interval) == 0) ≡ false = ground arith in
    rw (a, b, c) refl

pause_of-IsPause :
    (interval minutes : ℕ)
    → 1 < interval
    → IsPause interval minutes (pause_of (interval - minutes % interval))
unfolding pause_of IsPause
pause_of-IsPause interval minutes long = elim (dec_lt 240 (interval - minutes % interval)) [
  | yes far ↦
      let e : ltb 240 (interval - minutes % interval) ≡ true = ground arith in
      rw e (inr (refl, far))
  | no near ↦
      let r : minutes % interval < interval = mod-lt minutes (omega arith) in
      let e : ltb 240 (interval - minutes % interval) ≡ false = ground arith in
      let whole : minutes % interval + (interval - minutes % interval) ≡ interval = omega arith in
      rw e (
        inl (
          sym (mod-add-mod minutes interval (interval - minutes % interval))
          ∙ ap (λ (t : ℕ). t % interval) whole
          ∙ mod_self interval))
]

-- Between two feedings, with an interval of at least two minutes, the feeder's signal puts the
-- device to sleep: when no other signal comes, the pin stays low and no sleep without a timer was
-- asked for, the sleep task goes to deep sleep as soon as its alive timer has run out, with the
-- save of all tables asked for, and the wakeup timer is set to a whole number of minutes, from 1 to
-- 240, that ends in a minute of feeding or, when that is more than 240 minutes away, to 240.
pub handle_sleeping-SleepsFor :
    (s : Sleeper) (interval minutes : ℕ)
    → s.signal_in_process < 8
    → 1 < interval
    → minutes % interval ≢ 0
    → Rests s interval minutes
unfolding pause_of ask set_alive
handle_sleeping-SleepsFor s interval minutes calm long off =
    let r : minutes % interval < interval = mod-lt minutes (omega arith) in
    let k = pause_of (interval - minutes % interval) in
    let lo : 0 < k = ground arith in
    let hi : k ≤ 240 = ground arith in
    record {
      pause = k;
      not_zero = lo;
      not_too_long = hi;
      until_feeding = pause_of-IsPause interval minutes long;
      sent = handle_sleeping-signal interval minutes long off;
      slept = rw (first_round k s (omega arith)) (
          counts_down s.alive_timer (bit_or s.signal_in_process 4) (k * 60) s (omega arith)
            (low_flags s.signal_in_process calm));
    }
