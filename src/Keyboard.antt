-- ===== src/Keyboard.antt =====
-- The decoding of scancodes and the event queue of src/kernel/keyboard.c. Characters are their
-- codes. A byte from the controller is the argument of handle_byte.
pub mod Queue
mod Tests
use Prim.Native.Nat.{bit_and}
use pyrenis.Base.{
  ℕ, ◌+◌, ◌-◌, ◌%◌, Bool, true, false, not, ◌&&◌, ◌||◌, Option, none, some, List, [], ◌∷◌, leb,
  ◌==◌, if◌then◌else◌, get_or, set,
}
use pyrenis.Base.Words.{inc64}

abbrev pub queue_size : ℕ
queue_size = 64

pub data Status : Type 0 where
  ok already_initialized not_initialized interrupts_enabled no_ioapic : Status
  controller_timeout controller_refused self_test_failed port_test_failed : Status
  ioapic_failure handler_failure empty : Status

pub record Event : Type 0 where
  pub scancode : ℕ
  pub pressed : Bool
  pub shift : Bool
  pub character : ℕ

abbrev pub no_event : Event
no_event = record { scancode = 0; pressed = false; shift = false; character = 0 }

-- The file-scope state: the queue, and the counts and modifiers of `struct keyboard_state`.
pub record KeyboardState : Type 0 where
  pub queue : List Event
  pub head : ℕ
  pub tail : ℕ
  pub expecting_extended : Bool
  pub active : Bool
  pub events : ℕ
  pub dropped : ℕ
  pub extended : ℕ
  pub shift : Bool
  pub caps_lock : Bool

-- The entries of the two tables; those past the end are zero.
abbrev pub unshifted : List ℕ
unshifted =
    0 ∷ 0 ∷ 49 ∷ 50 ∷ 51 ∷ 52 ∷ 53 ∷ 54 ∷ 55 ∷ 56 ∷ 57 ∷ 48 ∷ 45 ∷ 61 ∷ 8 ∷ 9 ∷ 113 ∷ 119 ∷ 101
    ∷ 114 ∷ 116 ∷ 121 ∷ 117 ∷ 105 ∷ 111 ∷ 112 ∷ 91 ∷ 93 ∷ 10 ∷ 0 ∷ 97 ∷ 115 ∷ 100 ∷ 102 ∷ 103 ∷ 104
    ∷ 106 ∷ 107 ∷ 108 ∷ 59 ∷ 39 ∷ 96 ∷ 0 ∷ 92 ∷ 122 ∷ 120 ∷ 99 ∷ 118 ∷ 98 ∷ 110 ∷ 109 ∷ 44 ∷ 46 ∷ 47
    ∷ 0 ∷ 42 ∷ 0 ∷ 32 ∷ []

abbrev pub shifted : List ℕ
shifted =
    0 ∷ 0 ∷ 33 ∷ 64 ∷ 35 ∷ 36 ∷ 37 ∷ 94 ∷ 38 ∷ 42 ∷ 40 ∷ 41 ∷ 95 ∷ 43 ∷ 8 ∷ 9 ∷ 81 ∷ 87 ∷ 69 ∷ 82
    ∷ 84 ∷ 89 ∷ 85 ∷ 73 ∷ 79 ∷ 80 ∷ 123 ∷ 125 ∷ 10 ∷ 0 ∷ 65 ∷ 83 ∷ 68 ∷ 70 ∷ 71 ∷ 72 ∷ 74 ∷ 75 ∷ 76
    ∷ 58 ∷ 34 ∷ 126 ∷ 0 ∷ 124 ∷ 90 ∷ 88 ∷ 67 ∷ 86 ∷ 66 ∷ 78 ∷ 77 ∷ 60 ∷ 62 ∷ 63 ∷ 0 ∷ 42 ∷ 0 ∷ 32
    ∷ []

-- Caps lock turns a letter into the other case.
unfoldable pub other_case : ℕ → ℕ
other_case c =
    if leb 97 c && leb c 122 then c - 97 + 65 else if leb 65 c && leb c 90 then c - 65 + 97 else c

unfoldable pub keyboard_character_for : ℕ → Bool → Bool → ℕ
keyboard_character_for scancode shift caps_lock =
    let make = bit_and scancode 0x7f in
    let character = if shift then get_or shifted make 0 else get_or unshifted make 0 in
    if leb 128 make then 0 else if caps_lock then other_case character else character

-- `& KEYBOARD_QUEUE_MASK` is the remainder by the size, a power of two.
unfoldable pub enqueue : Event → KeyboardState → KeyboardState
enqueue e s =
    let next = (s.tail + 1) % queue_size in
    if next == s.head
    then record s { dropped = inc64 s.dropped }
    else record s { queue = set s.queue s.tail e; tail = next; events = inc64 s.events }

-- The modifiers after a key edge.
unfoldable pub update_modifiers : ℕ → Bool → KeyboardState → KeyboardState
update_modifiers make pressed s =
    if make == 0x2a || make == 0x36
    then record s { shift = pressed }
    else if make == 0x3a && pressed
    then record s { caps_lock = not s.caps_lock }
    else s

-- The event that the byte stands for, with the modifiers already updated.
unfoldable pub event_for : ℕ → Bool → KeyboardState → Event
event_for make pressed s = record {
  scancode = make;
  pressed = pressed;
  shift = s.shift;
  character = if pressed then keyboard_character_for make s.shift s.caps_lock else 0;
}

unfoldable pub handle_byte : ℕ → KeyboardState → KeyboardState
handle_byte byte s =
    let make = bit_and byte 0x7f in
    let pressed = bit_and byte 0x80 == 0 in
    let t = update_modifiers make pressed (record s { expecting_extended = false }) in
    if byte == 0xe0
    then record s { expecting_extended = true; extended = inc64 s.extended }
    else enqueue (event_for make pressed t) t

-- `given` is false for a null pointer. The interrupt flag is restored on every path.
unfoldable pub keyboard_read : Bool → KeyboardState → Status × Option Event × KeyboardState
keyboard_read given s =
    if not s.active
    then (not_initialized, none, s)
    else if not given
    then (controller_refused, none, s)
    else if s.head == s.tail
    then (empty, none, s)
    else (ok, some (get_or s.queue s.head no_event), record s { head = (s.head + 1) % queue_size })
