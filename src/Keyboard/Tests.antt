-- ===== src/Keyboard/Tests.antt =====
-- Runs and instances of src/kernel/keyboard.c: an empty queue whose next place is its last, and
-- one with the events of a shifted letter.
use pyrenis.Base.{
  ◌-◌, ◌≡◌, refl, true, false, some, [], ◌∷◌, ◌++◌, replicate, arith, if◌then◌else◌, ◌==◌,
}
use pyrenis.Keyboard.{
  Event, no_event, KeyboardState, ok, queue_size, enqueue, handle_byte, keyboard_read,
  update_modifiers, event_for, keyboard_character_for, other_case,
}
use pyrenis.Keyboard.Queue.{ring_run, queued, waiting, IsValid, enqueue_lem, keyboard_read_lem}

abbrev quiet : KeyboardState
quiet = record {
  queue = replicate queue_size no_event;
  head = 63;
  tail = 63;
  expecting_extended = false;
  active = true;
  events = 0;
  dropped = 0;
  extended = 0;
  shift = false;
  caps_lock = false;
}

quiet-IsValid : IsValid quiet
quiet-IsValid = record { slots = refl; head_in = omega arith; tail_in = omega arith }

abbrev shift_down : Event
shift_down = record { scancode = 0x2a; pressed = true; shift = true; character = 0 }

abbrev letter_down : Event
letter_down = record { scancode = 0x1e; pressed = true; shift = true; character = 65 }

-- Shift, then the key of the letter a.
abbrev typed : KeyboardState
typed = handle_byte 0x1e (handle_byte 0x2a quiet)

types : waiting typed ≡ shift_down ∷ letter_down ∷ []
unfolding handle_byte enqueue update_modifiers event_for keyboard_character_for other_case ring_run
types = refl

typed-IsValid : IsValid typed
unfolding handle_byte enqueue update_modifiers
typed-IsValid = record { slots = refl; head_in = omega arith; tail_in = omega arith }

enqueue_lem_example :
    IsValid (enqueue letter_down quiet)
    × (waiting (enqueue letter_down quiet) ≡ (
        if queued quiet == queue_size - 1
        then waiting quiet
        else waiting quiet ++ (letter_down ∷ [])))
enqueue_lem_example = enqueue_lem letter_down quiet quiet-IsValid

keyboard_read_lem_example :
    (e : Event) × (t : KeyboardState) × (keyboard_read true typed ≡ (ok, some e, t))
    × IsValid t
    × (waiting typed ≡ e ∷ waiting t)
unfolding handle_byte enqueue update_modifiers
keyboard_read_lem_example = keyboard_read_lem typed typed-IsValid refl (omega arith)
