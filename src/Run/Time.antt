-- ===== src/Run/Time.antt =====
-- gtests/net/packetdrill/run.c and run.h: script time, live time, and the times that verify_time
-- lets through.
use packetdrill_mptcp.Base.{
  ◌≡◌, ◌≢◌, ◌↔◌, refl, Bool, true, false, ◌||◌, List, [], ◌∷◌, Outcome, ok, status_err,
  if◌then◌else◌, arith,
}
use mathlib.Core.Bool.{true≢false}
use packetdrill_mptcp.Base.Int.{ℤ, ◌-ℤ◌, ◌+ℤ◌, ltb_ℤ, ◌≤ℤ◌, -ℤ_parts, +ℤ_parts, ℤ-eq_of_parts}
use packetdrill_mptcp.Run.{
  EventTime, any_time, absolute_time, relative_time, absolute_range_time, relative_range_time,
  num_time_types, State, verify_time, script_time_to_live_time_usecs,
  live_time_to_script_time_usecs, is_out_of_time, range_error, Event,
}

-- A script time that is turned into a live time and back, or a live time into a script time and
-- back, is the time that it was.
pub script_time-live_time :
    (state : State) (time : ℤ)
    → (live_time_to_script_time_usecs state (script_time_to_live_time_usecs state time) ≡ time)
      × (script_time_to_live_time_usecs state (live_time_to_script_time_usecs state time) ≡ time)
unfolding script_time_to_live_time_usecs live_time_to_script_time_usecs
script_time-live_time state time = (
  back_and_forth state.script_start_time_usecs state.live_start_time_usecs time,
  back_and_forth state.live_start_time_usecs state.script_start_time_usecs time,
)
  where
    back_and_forth : (x y t : ℤ) → x +ℤ (y +ℤ (t -ℤ x) -ℤ y) ≡ t
    back_and_forth x y t =
        let d : ℤ = t -ℤ x in
        let l : ℤ = y +ℤ d in
        let b : ℤ = l -ℤ y in
        ℤ-eq_of_parts (x +ℤ b) t
          (omega (arith, +ℤ_parts x b, -ℤ_parts l y, +ℤ_parts y d, -ℤ_parts t x))

-- Whether the live time of `start` is not later than `live`, and the live time of `end` not
-- earlier, each up to the tolerance.
unfoldable pub IsInWindow : State → ℤ → ℤ → ℤ → Type 0
IsInWindow state start end live =
    (script_time_to_live_time_usecs state start ≤ℤ live +ℤ state.tolerance_usecs)
    × (live ≤ℤ script_time_to_live_time_usecs state end +ℤ state.tolerance_usecs)

-- What each type of time asks of the live time.
unfoldable pub IsInTime : State → EventTime → ℤ → ℤ → ℤ → Type 0
IsInTime state any_time start end live = Unit
IsInTime state absolute_range_time start end live = IsInWindow state start end live
IsInTime state relative_range_time start end live = IsInWindow state start end live
IsInTime state time_type start end live = IsInWindow state start start live

lower : (s a l b t : ℤ) → (ltb_ℤ (l -ℤ b) (s -ℤ a -ℤ t) ≡ false) ↔ (b +ℤ (s -ℤ a) ≤ℤ l +ℤ t)
lower s a l b t =
    let d : ℤ = s -ℤ a in
    let w : ℤ = l -ℤ b in
    ground (arith, -ℤ_parts s a, -ℤ_parts l b, -ℤ_parts d t, +ℤ_parts b d, +ℤ_parts l t)

upper : (e a l b t : ℤ) → (ltb_ℤ (e -ℤ a +ℤ t) (l -ℤ b) ≡ false) ↔ (l ≤ℤ b +ℤ (e -ℤ a) +ℤ t)
upper e a l b t =
    let d : ℤ = e -ℤ a in
    let x : ℤ = b +ℤ d in
    ground (arith, -ℤ_parts e a, -ℤ_parts l b, +ℤ_parts d t, +ℤ_parts b d, +ℤ_parts x t)

-- An answer that is `ok` only where both of two tests fail.
gate :
    (p q : Bool) (P Q : Type 0) (late : Outcome {0} Unit)
    → late ≢ ok tt
    → (p ≡ false) ↔ P
    → (q ≡ false) ↔ Q
    → ((if p || q then late else ok tt) ≡ ok tt) ↔ (P × Q)
gate true q P Q late h e f = (λ k. absurd (h k), λ k. absurd (true≢false (e.1 (k.0))))
gate false true P Q late h e f = (λ k. absurd (h k), λ k. absurd (true≢false (f.1 (k.1))))
gate false false P Q late h e f = (λ k. (e.0 refl, f.0 refl), λ k. refl)

range_error≢ok :
    (time_type : EventTime) (events : List Event) → range_error time_type events ≢ ok tt
range_error≢ok relative_range_time [] e = cc
range_error≢ok relative_range_time (x ∷ xs) e = cc
range_error≢ok absolute_time xs e = cc
range_error≢ok relative_time xs e = cc
range_error≢ok any_time xs e = cc
range_error≢ok absolute_range_time xs e = cc
range_error≢ok num_time_types xs e = cc

-- The comparisons of verify_time, whatever it answers out of time.
window_test :
    (state : State) (start end live : ℤ) (late : Outcome {0} Unit)
    → late ≢ ok tt
    → ((if is_out_of_time
            (start -ℤ state.script_start_time_usecs)
            (end -ℤ state.script_start_time_usecs)
            (live -ℤ state.live_start_time_usecs)
            state.tolerance_usecs
          then late
          else ok tt)
        ≡ ok tt)
      ↔ IsInWindow state start end live
unfolding IsInWindow script_time_to_live_time_usecs
window_test state start end live late h =
    let a : ℤ = state.script_start_time_usecs in
    let b : ℤ = state.live_start_time_usecs in
    let t : ℤ = state.tolerance_usecs in
    gate (ltb_ℤ (live -ℤ b) (start -ℤ a -ℤ t)) (ltb_ℤ (end -ℤ a +ℤ t) (live -ℤ b))
      (b +ℤ (start -ℤ a) ≤ℤ live +ℤ t) (live ≤ℤ b +ℤ (end -ℤ a) +ℤ t) late h
      (lower start a live b t) (upper end a live b t)

-- verify_time answers STATUS_OK exactly if the live time lies in the window of the time's type:
-- any time at all, or not before the start and not after the end of a range, or not before
-- and not after the one time that there is, up to the tolerance and in terms of live times.
pub verify_time-IsInTime :
    (state : State) (time_type : EventTime) (start end live : ℤ)
    → (verify_time state time_type start end live ≡ ok tt) ↔ IsInTime state time_type start end live
unfolding verify_time IsInTime
verify_time-IsInTime state any_time start end live = (λ e. tt, λ e. refl)
verify_time-IsInTime state absolute_time start end live =
    window_test state start start live status_err (range_error≢ok absolute_time [])
verify_time-IsInTime state relative_time start end live =
    window_test state start start live status_err (range_error≢ok absolute_time [])
verify_time-IsInTime state num_time_types start end live =
    window_test state start start live status_err (range_error≢ok absolute_time [])
verify_time-IsInTime state absolute_range_time start end live =
    window_test state start end live (range_error absolute_range_time state.event)
      (range_error≢ok absolute_range_time state.event)
verify_time-IsInTime state relative_range_time start end live =
    window_test state start end live (range_error relative_range_time state.event)
      (range_error≢ok relative_range_time state.event)
