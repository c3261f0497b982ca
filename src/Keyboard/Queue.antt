-- ===== src/Keyboard/Queue.antt =====
-- The event queue of src/kernel/keyboard.c as a bounded first-in first-out list.
use native.Mathlib.Decide.{ℕ_discrete}
use pyrenis.Base.{
  ℕ, zero, suc, ◌+◌, ◌-◌, ◌%◌, ◌<◌, ◌≡◌, ◌≢◌, refl, ap, ◌∙◌, true, false, some, List, [], ◌∷◌, ◌++◌,
  arith, ◌==◌, if◌then◌else◌, length, get_or, set, length-set, get_or-set_self, get_or-set_ne,
}
use pyrenis.Base.Words.{inc64}
use pyrenis.Keyboard.{ok, Event, no_event, KeyboardState, queue_size, enqueue, keyboard_read}

-- The events from a place of the ring on.
unfoldable pub ring_run : ℕ → ℕ → List Event → List Event
ring_run zero place queue = []
ring_run (suc n) place queue =
    get_or queue (place % queue_size) no_event ∷ ring_run n (place + 1) queue

-- How many events wait, and which, the oldest first.
abbrev pub queued : KeyboardState → ℕ
queued s = (s.tail + queue_size - s.head) % queue_size

abbrev pub waiting : KeyboardState → List Event
waiting s = ring_run (queued s) s.head s.queue

pub record IsValid (s : KeyboardState) : Type 0 where
  pub slots : length s.queue ≡ queue_size
  pub head_in : s.head < queue_size
  pub tail_in : s.tail < queue_size

ring_run_last :
    (n place : ℕ) (queue : List Event)
    → ring_run (suc n) place queue
      ≡ ring_run n place queue ++ (get_or queue ((place + n) % queue_size) no_event ∷ [])
unfolding ring_run
ring_run_last zero place queue = let e : place + 0 ≡ place = omega arith in rw e refl
ring_run_last (suc n) place queue =
    let e : place + suc n ≡ place + 1 + n = omega arith in
    rw e (ap (◌∷◌ (get_or queue (place % queue_size) no_event)) (ring_run_last n (place + 1) queue))

-- A write past the end of the run does not change it.
ring_run-set :
    (n place i : ℕ) (e : Event) (queue : List Event)
    → ((j : ℕ) → j < n → i ≢ (place + j) % queue_size)
    → ring_run n place (set queue i e) ≡ ring_run n place queue
unfolding ring_run
ring_run-set zero place i e queue apart = refl
ring_run-set (suc n) place i e queue apart =
    let here : place + 0 ≡ place = omega arith in
    let first : i ≢ place % queue_size = rw here at (apart 0 (omega arith)) in
    rw
      (
        get_or-set_ne queue i (place % queue_size) e no_event first,
        ring_run-set n (place + 1) i e queue
            (λ j l q. apart (suc j) (omega arith) (omega (arith, q))),
      )
      refl

-- Only the place of the start modulo the size counts.
ring_run_wrap :
    (n p q : ℕ) (queue : List Event)
    → p % queue_size ≡ q % queue_size
    → ring_run n p queue ≡ ring_run n q queue
unfolding ring_run
ring_run_wrap zero p q queue e = refl
ring_run_wrap (suc n) p q queue e =
    rw (e, ring_run_wrap n (p + 1) (q + 1) queue (omega (arith, e))) refl

-- The state with an event stored at the tail.
abbrev stored : Event → KeyboardState → KeyboardState
stored e s = record s {
  queue = set s.queue s.tail e;
  tail = (s.tail + 1) % queue_size;
  events = inc64 s.events;
}

enqueue_room :
    (e : Event) (s : KeyboardState) → (s.tail + 1) % queue_size ≢ s.head → enqueue e s ≡ stored e s
unfolding enqueue
enqueue_room e s n = ground arith

enqueue_full :
    (e : Event) (s : KeyboardState)
    → (s.tail + 1) % queue_size ≡ s.head
    → enqueue e s ≡ record s { dropped = inc64 s.dropped }
unfolding enqueue
enqueue_full e s n = ground arith

stored-IsValid : (e : Event) (s : KeyboardState) → IsValid s → IsValid (stored e s)
stored-IsValid e s v = record {
  slots = length-set s.queue s.tail e ∙ v.slots;
  head_in = v.head_in;
  tail_in = omega arith;
}

waiting-stored :
    (e : Event) (s : KeyboardState)
    → IsValid s
    → (s.tail + 1) % queue_size ≢ s.head
    → waiting (stored e s) ≡ waiting s ++ (e ∷ [])
waiting-stored e s v n =
    let more : queued (stored e s) ≡ suc (queued s) = omega (arith, v.head_in, v.tail_in, n) in
    let place : (s.head + queued s) % queue_size ≡ s.tail = omega (arith, v.head_in, v.tail_in) in
    rw
      (
        more,
        ring_run_last (queued s) s.head (set s.queue s.tail e),
        place,
        get_or-set_self s.queue s.tail e no_event (omega (arith, v.slots, v.tail_in)),
        ring_run-set (queued s) s.head s.tail e s.queue
            (λ j l q. omega (arith, v.head_in, v.tail_in)),
      )
      refl

-- For a valid ring of 64 places, enqueue keeps it valid and appends the event to the waiting ones,
-- or changes nothing of them when 63 wait.
pub enqueue_lem :
    (e : Event) (s : KeyboardState)
    → IsValid s
    → IsValid (enqueue e s)
      × (waiting (enqueue e s)
          ≡ (if queued s == queue_size - 1 then waiting s else waiting s ++ (e ∷ [])))
enqueue_lem e s v = elim (ℕ_discrete ((s.tail + 1) % queue_size) s.head) [
  | yes full ↦
      let n : (queued s == queue_size - 1) ≡ true = ground (arith, v.head_in, v.tail_in, full) in
      rw (enqueue_full e s full, n)
        (record { slots = v.slots; head_in = v.head_in; tail_in = v.tail_in }, refl)
  | no space ↦
      let n : (queued s == queue_size - 1) ≡ false = ground (arith, v.head_in, v.tail_in, space) in
      rw (enqueue_room e s space, n) (stored-IsValid e s v, waiting-stored e s v space)
]

-- For a valid and active keyboard with an event waiting, keyboard_read answers ok and the oldest
-- waiting event, and leaves a valid keyboard in which the others wait in their order.
pub keyboard_read_lem :
    (s : KeyboardState)
    → IsValid s
    → s.active ≡ true
    → 0 < queued s
    → (e : Event) × (t : KeyboardState) × (keyboard_read true s ≡ (ok, some e, t))
      × IsValid t
      × (waiting s ≡ e ∷ waiting t)
unfolding keyboard_read ring_run
keyboard_read_lem s v running some_queued =
    let apart : s.head ≢ s.tail = λ e. omega (arith, v.head_in, v.tail_in) in
    let t : KeyboardState = record s { head = (s.head + 1) % queue_size } in
    let fewer : queued s ≡ suc (queued t) = omega (arith, v.head_in, v.tail_in, apart) in
    let place : s.head % queue_size ≡ s.head = omega (arith, v.head_in) in
    (
      get_or s.queue s.head no_event,
      t,
      ground (arith, running, apart),
      record { slots = v.slots; head_in = omega arith; tail_in = v.tail_in },
      rw (fewer, place)
          (ap (◌∷◌ (get_or s.queue s.head no_event)) (
            ring_run_wrap (queued t) (s.head + 1) ((s.head + 1) % queue_size) s.queue
              (omega arith))),
    )
