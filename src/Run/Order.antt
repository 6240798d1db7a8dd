-- ===== src/Run/Order.antt =====
-- gtests/net/packetdrill/run.c: get_next_event and the order of the events of a script.
use packetdrill_mptcp.Base.{
  ℕ, suc, ◌≡◌, refl, inl, inr, Bool, true, false, not, ◌&&◌, List, [], ◌∷◌, some, ok, status_err,
  if◌then◌else◌, Bool-cases,
}
use mathlib.Core.Bool.{false≢true}
use packetdrill_mptcp.Base.Int.{ℤ}
use packetdrill_mptcp.Run.{
  Event, EventType, invalid_event, packet_event, syscall_event, command_event, code_event,
  num_event_types, State, is_event_time_absolute, is_backward, check_type, is_absolute, is_from_now,
  EventTime, absolute_time, absolute_range_time, relative_time, any_time, relative_range_time,
  num_time_types, get_next_event, adjust_relative_event_times,
}

abbrev pub is_valid : EventType → Bool
is_valid invalid_event = false
is_valid num_event_types = false
is_valid event_type = true

-- An absolute time never precedes the absolute time of the event just before it.
unfoldable pub is_forward : Event → List Event → Bool
is_forward last [] = true
is_forward last (event ∷ rest) =
    not (is_backward last.time_usecs (some last) event) && is_forward event rest

abbrev pub are_valid : List Event → Bool
are_valid [] = true
are_valid (event ∷ rest) = is_valid event.event_type && are_valid rest

-- Event i of the list, adjusted when the clock shows clock (k + i).
unfoldable pub adjusted : State → (ℕ → ℤ) → ℕ → List Event → List Event
adjusted state clock k [] = []
adjusted state clock k (event ∷ rest) =
    adjust_relative_event_times state (clock k) event ∷ adjusted state clock (suc k) rest

-- The interpreter at an event that it has adjusted.
abbrev pub at_event : State → Event → List Event → State
at_event state event rest = record state { event = event ∷ rest }

-- The event that get_next_event has moved away from.
abbrev pub after : State → Event → List Event → State
after state event rest = record state {
  script_last_time_usecs = event.time_usecs;
  last_event = some event;
  event = rest;
}

pub adjust_live_start :
    (s t : State) (now : ℤ) (event : Event)
    → s.live_start_time_usecs ≡ t.live_start_time_usecs
    → adjust_relative_event_times s now event ≡ adjust_relative_event_times t now event
unfolding adjust_relative_event_times
adjust_live_start s t now event h = rw h refl

pub adjusted_live_start :
    (s t : State) (clock : ℕ → ℤ) (k : ℕ) (events : List Event)
    → s.live_start_time_usecs ≡ t.live_start_time_usecs
    → adjusted s clock k events ≡ adjusted t clock k events
unfolding adjusted
adjusted_live_start s t clock k [] h = refl
adjusted_live_start s t clock k (event ∷ rest) h =
    rw (adjust_live_start s t (clock k) event h, adjusted_live_start s t clock (suc k) rest h) refl

pub check_type-valid :
    (event_type : EventType) (is_late : Bool) (state : State)
    → is_valid event_type ≡ true
    → check_type event_type is_late state ≡ (if is_late then status_err else ok state)
check_type-valid invalid_event is_late state h = absurd (false≢true h)
check_type-valid num_event_types is_late state h = absurd (false≢true h)
check_type-valid packet_event is_late state h = refl
check_type-valid syscall_event is_late state h = refl
check_type-valid command_event is_late state h = refl
check_type-valid code_event is_late state h = refl

-- What get_next_event does while the script goes on.
pub get_next_event-next :
    (state : State) (last event : Event) (rest : List Event)
    → is_valid event.event_type ≡ true
    → get_next_event (at_event state last (event ∷ rest)) ≡ (
        if is_backward last.time_usecs (some last) event
        then status_err
        else ok (after state last (event ∷ rest)))
unfolding get_next_event
get_next_event-next state last event rest h =
    check_type-valid event.event_type (is_backward last.time_usecs (some last) event)
      (after state last (event ∷ rest)) h

pub absolute-not_from_now : (τ : EventTime) → is_absolute τ ≡ true → is_from_now τ ≡ false
absolute-not_from_now absolute_time h = refl
absolute-not_from_now absolute_range_time h = refl
absolute-not_from_now relative_time h = absurd (false≢true h)
absolute-not_from_now any_time h = absurd (false≢true h)
absolute-not_from_now relative_range_time h = absurd (false≢true h)
absolute-not_from_now num_time_types h = absurd (false≢true h)

pub adjust-time_type :
    (state : State) (now : ℤ) (event : Event)
    → (adjust_relative_event_times state now event).time_type ≡ event.time_type
unfolding adjust_relative_event_times
adjust-time_type state now event = elim (Bool-cases (is_from_now event.time_type)) [
  | inl e ↦ rw e refl
  | inr e ↦ rw e refl
]

pub adjust-absolute :
    (state : State) (now : ℤ) (event : Event)
    → is_event_time_absolute event ≡ true
    → adjust_relative_event_times state now event ≡ event
unfolding adjust_relative_event_times
adjust-absolute state now event h = rw (absolute-not_from_now event.time_type h) refl

-- Only the time of an absolute event counts, which is not adjusted.
pub backward_adjusted :
    (state : State) (now : ℤ) (last event : Event)
    → is_backward
        (adjust_relative_event_times state now last).time_usecs
        (some (adjust_relative_event_times state now last))
        event
      ≡ is_backward last.time_usecs (some last) event
backward_adjusted state now last event = elim (Bool-cases (is_event_time_absolute last)) [
  | inl e ↦ rw (adjust-absolute state now last e) refl
  | inr e ↦ rw (adjust-time_type state now last, e) refl
]
