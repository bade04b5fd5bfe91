-- ===== src/Slip/Drain.antt =====
-- The task that empties the queue of frames, `slip_flow_control_task` of main/slip_handle.c: it sends
-- all that waits.
use esp32_template.Base.{
  ℕ, zero, suc, false, List, [], ◌∷◌, ◌⊎◌, inl, inr, ◌≡◌, refl, ap, ◌∙◌, arith, ◌==◌, length, set,
  get_or-set_self,
}
use native.Mathlib.Decide.{ℕ_discrete}
use mathlib.Core.Path.{ap₂}
use esp32_template.Slip.{Slot, FlowControl, no_slot, slot_at, release, slip_flow_control_step}
use esp32_template.Slip.Queue.{
  frame_in, frames, Absent, absent_nil, absent_cons, IsQueue, one_more, set-IsQueue, pending,
  IsWell,
}

-- Rounds of the task
unfoldable pub slip_flow_control_rounds : ℕ → FlowControl → List (List ℕ) × FlowControl
slip_flow_control_rounds zero f = ([], f)
slip_flow_control_rounds (suc n) f =
    let (sent, f') = slip_flow_control_step f in
    let (more, f'') = slip_flow_control_rounds n f' in (sent ∷ more, f'')

step-pending :
    (slots : List Slot) (i : ℕ) (queue : List ℕ)
    → IsQueue slots (i ∷ queue)
    → let r = slip_flow_control_step (record { slots = slots; queue = i ∷ queue }) in
      IsWell r.1
      × r.0 ≡ frame_in (slot_at slots i)
      × r.1.queue ≡ queue
      × pending r.1 ≡ frames slots queue
      × (slot_at r.1.slots i).len ≡ 0
unfolding slip_flow_control_step release
step-pending slots i queue (one_more _ _ lt busy a q) =
    let free : Slot = record { packet = (slot_at slots i).packet; len = 0 } in
    let (q', same) = set-IsQueue slots i free queue a q in
    let size : ((slot_at slots i).len == 0) ≡ false = ground arith in
    let here : slot_at (set slots i free) i ≡ free = get_or-set_self slots i free no_slot lt in
    (q', rw size refl, refl, same, ap Slot.len here)

set-free :
    (slots : List Slot) (i k : ℕ) (v : Slot)
    → v.len ≡ 0
    → (slot_at slots k).len ≡ 0
    → (slot_at (set slots i v) k).len ≡ 0
set-free [] i k v e free = free
set-free (x ∷ slots) zero zero v e free = e
set-free (x ∷ slots) zero (suc k) v e free = free
set-free (x ∷ slots) (suc i) zero v e free = free
set-free (x ∷ slots) (suc i) (suc k) v e free = set-free slots i k v e free

step-free :
    (slots : List Slot) (queue : List ℕ) (k : ℕ)
    → (slot_at slots k).len ≡ 0
    → (slot_at (slip_flow_control_step (record { slots = slots; queue = queue })).1.slots k).len ≡ 0
unfolding slip_flow_control_step release
step-free slots [] k free = free
step-free slots (i ∷ queue) k free = set-free slots i k _ refl free

rounds-free :
    (n : ℕ) (f : FlowControl) (k : ℕ)
    → (slot_at f.slots k).len ≡ 0
    → (slot_at (slip_flow_control_rounds n f).1.slots k).len ≡ 0
unfolding slip_flow_control_rounds
rounds-free zero f k free = free
rounds-free (suc n) f k free =
    rounds-free n (slip_flow_control_step f).1 k (step-free f.slots f.queue k free)

-- All is sent, and the slots are free.
abbrev IsDrained : FlowControl → List (List ℕ) × FlowControl → Type 0
IsDrained f r =
    r.0 ≡ pending f
    × r.1.queue ≡ []
    × ((i : ℕ) → Absent i f.queue ⊎ ((slot_at r.1.slots i).len ≡ 0))

rounds-IsDrained :
    (queue : List ℕ) (slots : List Slot)
    → IsQueue slots queue
    → let f : FlowControl = record { slots = slots; queue = queue } in
      IsDrained f (slip_flow_control_rounds (length queue) f)
unfolding slip_flow_control_rounds slip_flow_control_step release
rounds-IsDrained [] slots q = (refl, refl, λ i. inl absent_nil)
rounds-IsDrained (i ∷ queue) slots q =
    let f : FlowControl = record { slots = slots; queue = i ∷ queue } in
    let r = slip_flow_control_step f in
    let (well, packet, left, same, free) = step-pending slots i queue q in
    let (sent, empty, released) = rounds-IsDrained queue r.1.slots well in
    (
      ap₂ ◌∷◌ packet (sent ∙ same),
      empty,
      λ k. elim (ℕ_discrete k i) [
        | yes e ↦ inr (rw e (rounds-free (length queue) r.1 i free))
        | no differ ↦ elim (released k) [
          | inl a ↦ inl (absent_cons i queue differ a)
          | inr z ↦ inr z
        ]
      ],
    )

-- Once as many rounds have been made as frames wait, all of them have been sent, each with as many
-- bytes as its slot's length says, in the order in which they came, none waits any more, and their
-- slots are free.
pub slip_flow_control_rounds-pending :
    (f : FlowControl)
    → IsWell f
    → let r = slip_flow_control_rounds (length f.queue) f in
      r.0 ≡ pending f
      × r.1.queue ≡ []
      × ((i : ℕ) → Absent i f.queue ⊎ ((slot_at r.1.slots i).len ≡ 0))
slip_flow_control_rounds-pending f q = rounds-IsDrained f.queue f.slots q
