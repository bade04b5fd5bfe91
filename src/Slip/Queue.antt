-- ===== src/Slip/Queue.antt =====
-- The queue of frames of main/slip_handle.c: frames leave in the order in which they came.
use esp32_template.Base.{
  ℕ, zero, suc, ◌+◌, ◌-◌, ◌≤◌, ◌<◌, Bool, true, false, Option, none, some, List, [], ◌∷◌, ◌++◌, ◌⊎◌,
  inl, inr,
}
use esp32_template.Base.{
  ◌≡◌, ◌≢◌, refl, ap, sym, ◌∙◌, arith, ltb, ◌==◌, if◌then◌else◌, length, set, get_or-set_self,
  get_or-set_ne, length-set, Bool-cases, Option-cases,
}
use mathlib.Core.Path.{ap₂}
use esp32_template.Base.Bytes.{Bytes, load, store, length-load, load-store}
use esp32_template.Base.Int.{ℤ, pos, minus}
use esp32_template.Slip.{
  Slot, FlowControl, no_slot, slot_at, fill, last_free, slip_get_buffer, slip_fill_buffer, release,
  enqueue, slip_add_to_send_queue,
}

-- The frame in a slot: as many bytes as its length says
abbrev pub frame_in : Slot → List ℕ
frame_in x = load x.packet 0 x.len

-- The frames that wait, in their order
abbrev pub frames : List Slot → List ℕ → List (List ℕ)
frames slots [] = []
frames slots (i ∷ queue) = frame_in (slot_at slots i) ∷ frames slots queue

pub data Absent (i : ℕ) : List ℕ → Type 0 where
  absent_nil : Absent i []
  absent_cons : (j : ℕ) (queue : List ℕ) → i ≢ j → Absent i queue → Absent i (j ∷ queue)

-- The slots of a queue are there, are not free, and are different from each other.
pub data IsQueue (slots : List Slot) : List ℕ → Type 0 where
  no_frames : IsQueue slots []
  one_more :
      (i : ℕ) (queue : List ℕ)
      → i < length slots
      → (slot_at slots i).len ≢ 0
      → Absent i queue
      → IsQueue slots queue
      → IsQueue slots (i ∷ queue)

pub set-IsQueue :
    (slots : List Slot) (i : ℕ) (v : Slot) (queue : List ℕ)
    → Absent i queue
    → IsQueue slots queue
    → IsQueue (set slots i v) queue × frames (set slots i v) queue ≡ frames slots queue
set-IsQueue slots i v [] a q = (no_frames, refl)
set-IsQueue slots i v (j ∷ queue) (absent_cons _ _ differ a) (one_more _ _ lt busy new q) =
    let (q', same) = set-IsQueue slots i v queue a q in
    let kept : slot_at (set slots i v) j ≡ slot_at slots j =
      get_or-set_ne slots i j v no_slot differ in
    let size = length-set slots i v in
    (one_more j queue (rw size lt) (rw kept busy) new q', ap₂ ◌∷◌ (ap frame_in kept) same)

free-Absent :
    (slots : List Slot) (i : ℕ) (queue : List ℕ)
    → (slot_at slots i).len ≡ 0
    → IsQueue slots queue
    → Absent i queue
free-Absent slots i [] free q = absent_nil
free-Absent slots i (j ∷ queue) free (one_more _ _ lt busy new q) =
    absent_cons j queue (λ e. busy (ap (λ k. (slot_at slots k).len) (sym e) ∙ free))
      (free-Absent slots i queue free q)

snoc-Absent : (i j : ℕ) (queue : List ℕ) → i ≢ j → Absent i queue → Absent i (queue ++ j ∷ [])
snoc-Absent i j [] differ a = absent_cons j [] differ absent_nil
snoc-Absent i j (k ∷ queue) differ (absent_cons _ _ d a) =
    absent_cons k (queue ++ j ∷ []) d (snoc-Absent i j queue differ a)

snoc-IsQueue :
    (slots : List Slot) (i : ℕ) (queue : List ℕ)
    → i < length slots
    → (slot_at slots i).len ≢ 0
    → Absent i queue
    → IsQueue slots queue
    → IsQueue slots (queue ++ i ∷ [])
      × frames slots (queue ++ i ∷ []) ≡ frames slots queue ++ (frame_in (slot_at slots i) ∷ [])
snoc-IsQueue slots i [] lt busy a q = (one_more i [] lt busy absent_nil no_frames, refl)
snoc-IsQueue slots i (j ∷ queue) lt busy (absent_cons _ _ differ a) (one_more _ _ lt' busy' new q) =
    let (q', same) = snoc-IsQueue slots i queue lt busy a q in
    (
      one_more j (queue ++ i ∷ []) lt' busy' (snoc-Absent j i queue (λ e. differ (sym e)) new) q',
      ap (λ rest. frame_in (slot_at slots j) ∷ rest) same,
    )

some_none : (i : ℕ) → ◌≢◌ {A = Option ℕ} (some i) none
some_none i e = cc

-- What the search for a free slot finds
abbrev IsFree : List Slot → ℕ → ℕ → Type 0
IsFree slots i j = i ≤ j × j < i + length slots × (slot_at slots (j - i)).len ≡ 0

last_free-IsFree :
    (slots : List Slot) (i j : ℕ) (found : Option ℕ)
    → last_free slots i found ≡ some j
    → (found ≡ some j) ⊎ IsFree slots i j
unfolding last_free
last_free-IsFree [] i j found e = inl e
last_free-IsFree (x ∷ slots) i j found e =
    elim (last_free-IsFree slots (i + 1) j (if x.len == 0 then some i else found) e) [
      | inr (lo, hi, free) ↦ inr (omega arith, omega arith, later x slots j i lo free)
      | inl e' ↦ elim (Bool-cases (x.len == 0)) [
        | inl z ↦ inr (first x slots i j z (rw z at e'))
        | inr z ↦ inl (rw z at e')
      ]
    ]
  where
    later :
        (x : Slot) (slots : List Slot) (j i : ℕ)
        → i + 1 ≤ j
        → (slot_at slots (j - (i + 1))).len ≡ 0
        → (slot_at (x ∷ slots) (j - i)).len ≡ 0
    later x slots j i lo free = let e : j - i ≡ suc (j - (i + 1)) = omega arith in rw e free

    first :
        (x : Slot) (slots : List Slot) (i j : ℕ)
        → (x.len == 0) ≡ true
        → some i ≡ some j
        → IsFree (x ∷ slots) i j
    first x slots i j z e =
        let same : i ≡ j = cc in
        let none_over : j - i ≡ 0 = omega arith in
        (omega arith, omega arith, rw none_over (ground arith))

slip_get_buffer-IsFree :
    (f : FlowControl) (i : ℕ)
    → slip_get_buffer f ≡ some i
    → i < length f.slots × (slot_at f.slots i).len ≡ 0
unfolding slip_get_buffer
slip_get_buffer-IsFree f i e = elim (last_free-IsFree f.slots 0 i none e) [
  | inl e' ↦ absurd (cc)
  | inr (lo, hi, free) ↦
      let same : i - 0 ≡ i = omega arith in
      (omega arith, sym (ap (λ k. (slot_at f.slots k).len) same) ∙ free)
]

-- A search without a result has seen no free slot.
last_free-none :
    (slots : List Slot) (i k : ℕ) (found : Option ℕ)
    → last_free slots i found ≡ none
    → found ≡ none × (k < length slots → (slot_at slots k).len ≢ 0)
unfolding last_free
last_free-none [] i k found e = (e, λ lt. absurd (omega arith))
last_free-none (x ∷ slots) i zero found e =
    let (kept, rest) = last_free-none slots (i + 1) zero _ e in
    elim (Bool-cases (x.len == 0)) [
      | inl z ↦ absurd (some_none i (rw z at kept))
      | inr z ↦ (rw z at kept, λ lt. ground (arith, z))
    ]
last_free-none (x ∷ slots) i (suc k) found e =
    let (kept, rest) = last_free-none slots (i + 1) k _ e in
    elim (Bool-cases (x.len == 0)) [
      | inl z ↦ absurd (some_none i (rw z at kept))
      | inr z ↦ (rw z at kept, λ lt. rest (omega arith))
    ]

slip_get_buffer-none :
    (f : FlowControl)
    → slip_get_buffer f ≡ none
    → (k : ℕ) → k < length f.slots
    → (slot_at f.slots k).len ≢ 0
unfolding slip_get_buffer
slip_get_buffer-none f e k lt = (last_free-none f.slots 0 k none e).1 lt

-- The frames that wait for the UART
abbrev pub pending : FlowControl → List (List ℕ)
pending f = frames f.slots f.queue

abbrev pub IsWell : FlowControl → Type 0
IsWell f = IsQueue f.slots f.queue

frame_in-fill :
    (slot : Slot) (buffer : Bytes) (len : ℕ) → frame_in (fill slot buffer len) ≡ load buffer 0 len
frame_in-fill slot buffer len =
    ap (λ (n : ℕ). load (store slot.packet 0 (load buffer 0 len)) 0 n)
      (sym (length-load len buffer 0))
    ∙ load-store (load buffer 0 len) slot.packet 0

enqueue-pending :
    (f : FlowControl) (buffer : Bytes) (len i : ℕ) (accepted : Bool)
    → IsWell f
    → 0 < len
    → slip_get_buffer f ≡ some i
    → let slots = set f.slots i (fill (slot_at f.slots i) buffer len) in
      let r = enqueue (record f { slots = slots }) i accepted in
      IsWell r.1
      × (pending r.1 ≡ (if accepted then pending f ++ (load buffer 0 len ∷ []) else pending f))
      × (r.0 ≡ (if accepted then pos 0 else minus 1))
unfolding enqueue release
enqueue-pending f buffer len i true q lo e =
    let v : Slot = fill (slot_at f.slots i) buffer len in
    let (lt, free) = slip_get_buffer-IsFree f i e in
    let a = free-Absent f.slots i f.queue free q in
    let (q', same) = set-IsQueue f.slots i v f.queue a q in
    let here : slot_at (set f.slots i v) i ≡ v = get_or-set_self f.slots i v no_slot lt in
    let (q'', last) =
      snoc-IsQueue (set f.slots i v) i f.queue (rw length-set lt) (rw here (omega arith)) a q' in
    (
      q'',
      last
          ∙ ap₂ ◌++◌ same (
              ap (λ (x : Slot). frame_in x ∷ []) here
              ∙ ap (λ t. t ∷ []) (frame_in-fill (slot_at f.slots i) buffer len)),
      refl,
    )
enqueue-pending f buffer len i false q lo e =
    let v : Slot = fill (slot_at f.slots i) buffer len in
    let (lt, free) = slip_get_buffer-IsFree f i e in
    let a = free-Absent f.slots i f.queue free q in
    let (q', same) = set-IsQueue f.slots i v f.queue a q in
    let (q'', same') = set-IsQueue (set f.slots i v) i _ f.queue a q' in (q'', same' ∙ same, refl)

filled :
    (f : FlowControl) (buffer : Bytes) (len i : ℕ)
    → ltb len 664 ≡ true
    → (slip_fill_buffer f (some i) buffer len).1
      ≡ (record f { slots = set f.slots i (fill (slot_at f.slots i) buffer len) })
unfolding slip_fill_buffer
filled f buffer len i e = rw e refl

-- The result of a frame that is not put into the queue: too long, no free slot, or refused by the
-- queue, and only the last is reported
pub data IsDropped (f : FlowControl) (len : ℕ) (accepted : Bool) : ℤ → Type 0 where
  too_long : 664 ≤ len → IsDropped f len accepted (pos 0)
  no_space :
      ((i : ℕ) → i < length f.slots → (slot_at f.slots i).len ≢ 0)
      → IsDropped f len accepted (pos 0)
  refused : accepted ≡ false → IsDropped f len accepted (minus 1)

-- A frame that is not empty, the first `len` bytes of the buffer, is put behind those that wait, with
-- the result 0, or those that wait stay as they are, because the frame has 664 bytes or more or each
-- slot is in use (the result is 0 too) or the queue refuses it; the slots of the waiting frames stay in use and different from each other.
pub slip_add_to_send_queue-pending :
    (f : FlowControl) (buffer : Bytes) (len : ℕ) (accepted : Bool)
    → IsWell f
    → 0 < len
    → let r = slip_add_to_send_queue f buffer len accepted in
      IsWell r.1
      × ((pending r.1 ≡ pending f ++ (load buffer 0 len ∷ []) × r.0 ≡ pos 0)
          ⊎ (pending r.1 ≡ pending f × IsDropped f len accepted r.0))
unfolding slip_add_to_send_queue
slip_add_to_send_queue-pending f buffer len accepted q lo = elim (Bool-cases (ltb len 664)) [
  | inr e ↦ rw e (q, inr (refl, too_long (ground arith)))
  | inl e ↦ elim (Option-cases (slip_get_buffer f)) [
    | inl gone ↦ rw (e, gone) (q, inr (refl, no_space (slip_get_buffer-none f gone)))
    | inr (i, at) ↦ rw (e, at, filled f buffer len i e) (added accepted i at)
  ]
]
  where
    added :
        (accepted : Bool) (i : ℕ)
        → slip_get_buffer f ≡ some i
        → let r =
            enqueue
              (record f { slots = set f.slots i (fill (slot_at f.slots i) buffer len) })
              i
              accepted in
          IsWell r.1
          × ((pending r.1 ≡ pending f ++ (load buffer 0 len ∷ []) × r.0 ≡ pos 0)
              ⊎ (pending r.1 ≡ pending f × IsDropped f len accepted r.0))
    added true i at =
        let (q', p, res) = enqueue-pending f buffer len i true q lo at in (q', inl (p, res))
    added false i at =
        let (q', p, res) = enqueue-pending f buffer len i false q lo at in
        (q', inr (p, rw res (refused refl)))
