-- ===== src/Sdk/Stream.antt =====
-- `readSingleConnection` and `streamEvents`: one connection after another until the run is over.
-- What the world does is a record: what each request brings, and whether the signal was aborted. A
-- policy of the caller that throws is not modelled.
use open_rush.Prelude.{
  ℕ, zero, suc, Bool, true, false, ◌||◌, List, [], ◌∷◌, ◌++◌, any, Option, none, some, get_elem?,
  leb, if◌then◌else◌,
}
use open_rush.Sdk.{RunEvent}

-- How a connection ends, and what the policy is told.
pub data Ending : Type 0 where
  eof failed aborted : Ending

pub data Cause : Type 0 where
  at_eof on_error : Cause

-- `false`, `true` or a delay in milliseconds.
pub data Decision : Type 0 where
  stop again : Decision
  after : ℕ → Decision

abbrev pub default_reconnect_delays_ms : List ℕ
default_reconnect_delays_ms = 500 ∷ 1000 ∷ 2000 ∷ 4000 ∷ 8000 ∷ []

abbrev pub delay_or_stop : Option ℕ → Decision
delay_or_stop none = stop
delay_or_stop (some ms) = after ms

-- `a - 1` is an index from the first attempt on.
unfoldable pub default_policy : ℕ → ℕ → Cause → Decision
default_policy zero last cause = stop
default_policy (suc a) last cause = delay_or_stop (get_elem? default_reconnect_delays_ms a)

pub data StreamEnd : Type 0 where
  returned threw out_of_fuel : StreamEnd

-- `connect k last` is what the request after `k` reconnections brings: the frames, parsed, and how
-- the connection ends. The flags say whether the signal is aborted before that request, when the
-- policy has been asked for the `k`-th time, and during the pause that follows.
pub record World {ℓ} (Payload : Type ℓ) : Type ℓ where
  pub connect : ℕ → ℕ → List (Option (RunEvent Payload)) × Ending
  pub aborted_before : ℕ → Bool
  pub aborted_after : ℕ → Bool
  pub aborted_pause : ℕ → Bool

module _ {ℓ} {Payload : Type ℓ} where
  -- The events of one connection: malformed frames and old numbers are skipped.
  abbrev pub accept :
      ℕ → Option (RunEvent Payload) → List (RunEvent Payload) → List (RunEvent Payload)
  accept last none rest = rest
  accept last (some e) rest = if leb e.id last then rest else e ∷ rest

  unfoldable pub read_single_connection :
      ℕ → List (Option (RunEvent Payload)) → List (RunEvent Payload)
  read_single_connection last [] = []
  read_single_connection last (o ∷ os) =
      let rest = read_single_connection last os in accept last o rest

  -- The number of the last event that was yielded.
  abbrev pub last_id : ℕ → List (RunEvent Payload) → ℕ
  last_id last [] = last
  last_id last (e ∷ es) = last_id e.id es

  abbrev pub is_empty : List (RunEvent Payload) → Bool
  is_empty [] = true
  is_empty (e ∷ es) = false

abbrev pub Delivered {ℓ} : Type ℓ → Type ℓ
Delivered Payload = List (RunEvent Payload) × StreamEnd

abbrev pub first_then {ℓ} :
    {Payload : Type ℓ} → List (RunEvent Payload) → Delivered Payload → Delivered Payload
first_then events (rest, end) = (events ++ rest, end)

module _ {ℓ} {Payload : Type ℓ} (is_run_done : RunEvent Payload → Bool)
    (policy : ℕ → ℕ → Cause → Decision) (world : World Payload) where
  -- What the loop does with the policy's answer; `k` counts the times that it was asked, and a pause
  -- that is aborted throws an AbortError, which only the way of the end of file catches.
  abbrev pub go_on : ℕ → Cause → Decision → Delivered Payload → Delivered Payload
  go_on k at_eof stop next = ([], returned)
  go_on k at_eof again next = if world.aborted_after k then ([], returned) else next
  go_on k at_eof (after ms) next =
      if world.aborted_after k || world.aborted_pause k then ([], returned) else next
  go_on k on_error stop next = ([], threw)
  go_on k on_error again next = if world.aborted_after k then ([], threw) else next
  go_on k on_error (after ms) next =
      if world.aborted_after k || world.aborted_pause k then ([], threw) else next

  abbrev pub after_connection :
      ℕ → ℕ → List (RunEvent Payload) → Ending → Delivered Payload → Delivered Payload
  after_connection k last events aborted next = ([], returned)
  after_connection k last events failed next =
      go_on (suc k) on_error (policy (suc k) last on_error) next
  after_connection k last events eof next =
      if any is_run_done events || is_empty events
      then ([], returned)
      else go_on (suc k) at_eof (policy (suc k) last at_eof) next

  -- `k` is `attempt`; the fuel counts connections.
  unfoldable pub stream_from : ℕ → ℕ → ℕ → Delivered Payload
  unfolding read_single_connection
  stream_from zero k last = ([], out_of_fuel)
  stream_from (suc fuel) k last =
      let (frames, ending) = world.connect k last in
      let events = read_single_connection last frames in
      let last' = last_id last events in
      let next = stream_from fuel (suc k) last' in
      if world.aborted_before k
      then ([], returned)
      else first_then events (after_connection k last' events ending next)

  unfoldable pub stream_events : ℕ → Option ℕ → Delivered Payload
  unfolding stream_from
  stream_events fuel none = stream_from fuel 0 0
  stream_events fuel (some last) = stream_from fuel 0 last
