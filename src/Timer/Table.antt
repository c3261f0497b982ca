-- ===== src/Timer/Table.antt =====
-- The table of src/kernel/timer.c and the scans over it. The list holds `capacity` entries, none
-- before timer_start.
use pyrenis.Base.{
  ℕ, suc, ◌+◌, Bool, true, false, not, ◌&&◌, Option, none, some, List, [], ◌∷◌, ltb, leb, ◌==◌,
  if◌then◌else◌, get_or,
}

-- A callback that is null is 0, as is a context.
pub record Entry : Type 0 where
  pub deadline_ns : ℕ
  pub identifier : ℕ
  pub callback : ℕ
  pub context : ℕ
  pub in_use : Bool

abbrev pub vacant : Entry
vacant = record { deadline_ns = 0; identifier = 0; callback = 0; context = 0; in_use = false }

abbrev pub entry_at : List Entry → ℕ → Entry
entry_at entries slot = get_or entries slot vacant

-- The loops that look for an index; `none` is the capacity.
unfoldable pub find_entry : (Entry → Bool) → ℕ → List Entry → Option ℕ
find_entry test slot [] = none
find_entry test slot (e ∷ entries) = elim (test e) [
  | true ↦ some slot
  | false ↦ find_entry test (suc slot) entries
]

unfoldable pub slot_of : ℕ → List Entry → Option ℕ
slot_of identifier entries = elim (identifier == 0) [
  | true ↦ none
  | false ↦ find_entry (λ e. e.in_use && e.identifier == identifier) 0 entries
]

unfoldable pub free_slot : List Entry → Option ℕ
free_slot entries = find_entry (λ e. not e.in_use) 0 entries

-- The lower of a deadline and that of an entry in use; on a tie the first stays.
unfoldable pub earlier : Option ℕ → Entry → Option ℕ
earlier none e = if e.in_use then some e.deadline_ns else none
earlier (some d) e = if e.in_use && ltb e.deadline_ns d then some e.deadline_ns else some d

unfoldable pub earliest_from : Option ℕ → List Entry → Option ℕ
earliest_from found [] = found
earliest_from found (e ∷ entries) = earliest_from (earlier found e) entries

unfoldable pub earliest_deadline : List Entry → Option ℕ
earliest_deadline entries = earliest_from none entries

unfoldable pub pending_slots : List Entry → ℕ
pending_slots [] = 0
pending_slots (e ∷ entries) = (if e.in_use then 1 else 0) + pending_slots entries

-- Whether the instant has reached the deadline of the entry.
abbrev pub is_due : ℕ → Entry → Bool
is_due now e = e.in_use && leb e.deadline_ns now

-- The scan of expire_reached: the due entry with the lowest deadline, the first of them on a tie.
-- `chosen` is the index and the deadline found so far.
unfoldable pub better : ℕ → ℕ → Option (ℕ × ℕ) → Entry → Option (ℕ × ℕ)
better now slot none e = if is_due now e then some (slot, e.deadline_ns) else none
better now slot (some (best, d)) e =
    if is_due now e && ltb e.deadline_ns d then some (slot, e.deadline_ns) else some (best, d)

unfoldable pub choose_due : ℕ → ℕ → Option (ℕ × ℕ) → List Entry → Option (ℕ × ℕ)
choose_due now slot chosen [] = chosen
choose_due now slot chosen (e ∷ entries) =
    choose_due now (suc slot) (better now slot chosen e) entries
