-- ===== src/Timer/Waking.antt =====
-- What ends a sleep of src/kernel/timer.c: that timer_sleep_ns returns, and what its answer says.
use pyrenis.Base.{
  ℕ, suc, ◌≡◌, Bool, true, false, ◌||◌, Option, some, List, [], ◌∷◌, ltb, ◌==◌, length,
}
use pyrenis.Timer.Table.{Entry}
use pyrenis.Timer.Calls.{Outside, TimerState, Status, ok, Behaviour, expire_reached}
use pyrenis.Timer.Expiry.{all_later, ascends}
use pyrenis.Timer.Sleep.{Sleeper, Event, expiry, calling, Turn, with_sleep, deliver}

-- The clock does not read less in a callback's calls than at the start of its interrupt.
abbrev pub IsLater : Event → Type 0
IsLater (expiry act o) = (e : Entry) (u : TimerState) → all_later o.now (act e u) ≡ true
IsLater (calling r) = Unit {0}

abbrev pub AreLater : List Event → Type 0
AreLater [] = Unit {0}
AreLater (e ∷ events) = IsLater e × AreLater events

-- Every halt returns.
abbrev pub AllReturn : List Turn → Type 0
AllReturn [] = Unit {0}
AllReturn (turn ∷ turns) =
    AreLater turn.meanwhile
    × ((events : List Event) × (turn.halt ≡ some events) × AreLater events)
    × AllReturn turns

-- The clock is past the bound at one of the turns.
unfoldable pub passes : ℕ → List Turn → Bool
passes abandon_ns [] = false
passes abandon_ns (turn ∷ turns) = ltb abandon_ns turn.clock || passes abandon_ns turns

module _ (callback : ℕ) where
  unfoldable pub has_callback : List Entry → Bool
  has_callback [] = false
  has_callback (e ∷ fired) = e.callback == callback || has_callback fired

  -- What events lead to.
  pub data Served (s : Sleeper) : Sleeper → Type 0 where
    start : Served s s
    next : (e : Event) {t u : Sleeper} → Served s t → deliver callback e t ≡ some u → Served s u

  -- An expiry interrupt after `s` fires an entry whose callback is sleep_callback, and whose
  -- deadline has come.
  pub record IsWoken (s : Sleeper) : Type 0 where
    pub before : Sleeper
    pub on_the_way : Served s before
    pub act : Behaviour
    pub o : Outside
    pub fired : List Entry
    pub after : TimerState
    pub pass :
        expire_reached
          (suc (length before.timer.entries))
          (with_sleep callback act)
          o.now
          before.timer
        ≡ some (fired, after)
    pub among : has_callback fired ≡ true
    pub due : ascends o.now 0 fired ≡ true

  -- The flag is set only by such an interrupt.
  record Honest (s t : Sleeper) : Type 0 where
    there : Served s t
    woken : t.sleep_expired ≡ true → IsWoken s

  -- The wait returns, and answers ok only if sleep_callback ran.
  Returns : Sleeper → Option (Status × Sleeper) → Type 0
  Returns s w = (st : Status) × (t : Sleeper) × (w ≡ some (st, t)) × (st ≡ ok → IsWoken s)
