-- ===== src/Sdk/Delivery.antt =====
-- What `streamEvents` delivers over any connections to a server that replays the store in order.
use mathlib.Core.List.{append-nil, append_assoc}
use mathlib.Core.Path.{subst}
use mathlib.Core.Option.{get_or}
use open_rush.Prelude.{
  ℕ, zero, suc, ◌+◌, ◌≤◌, ◌<◌, Bool, true, false, ◌||◌, List, [], ◌∷◌, ◌++◌, map, any, Option, none,
  some, filter, ltb, leb, ◌≡◌, refl, sym, ◌∙◌, ◌⊎◌, inl, inr, if◌then◌else◌, Bool-cases, All, arith,
}
use open_rush.Sdk.{RunEvent}
use open_rush.Sdk.Stream.{
  Ending, eof, failed, aborted, Cause, at_eof, on_error, Decision, stop, again, after,
  default_policy, StreamEnd, returned, threw, World, read_single_connection, last_id, is_empty,
  Delivered, first_then, go_on, after_connection, stream_from, stream_events,
}

-- The numbers of a run's events, in the order of its store.
abbrev pub IsLog {ℓ} : {Payload : Type ℓ} → List (RunEvent Payload) → Type 0
IsLog [] = Unit
IsLog (e ∷ es) = All (λ f. e.id < f.id) es × IsLog es

-- What the store has behind a number.
abbrev pub behind {ℓ} : {Payload : Type ℓ} → ℕ → List (RunEvent Payload) → List (RunEvent Payload)
behind last log = filter (λ e. ltb last e.id) log

abbrev pub Prefix {ℓ} : {A : Type ℓ} → List A → List A → Type ℓ
Prefix {A = A} xs ys = (rest : List A) × (ys ≡ xs ++ rest)

module _ {ℓ} {Payload : Type ℓ} where
  behind_whole :
      (n : ℕ) (log : List (RunEvent Payload)) → All (λ f. n < f.id) log → behind n log ≡ log
  behind_whole n [] h = refl
  behind_whole n (e ∷ log) h = ground (arith, h.0, behind_whole n log h.1)

  behind-All : (n : ℕ) (log : List (RunEvent Payload)) → All (λ f. n < f.id) (behind n log)
  behind-All n [] = tt
  behind-All n (e ∷ log) = elim (Bool-cases (ltb n e.id)) [
    | inl newer ↦ rw newer ((ground arith), behind-All n log)
    | inr older ↦ rw older (behind-All n log)
  ]

  above_trans :
      (m n : ℕ) (log : List (RunEvent Payload))
      → m ≤ n
      → All (λ f. n < f.id) log
      → All (λ f. m < f.id) log
  above_trans m n [] h g = tt
  above_trans m n (e ∷ log) h g = (omega (arith, h, g.0), above_trans m n log h g.1)

  All-front {κ} :
      (P : RunEvent Payload → Type κ) (xs ys : List (RunEvent Payload))
      → All P (xs ++ ys)
      → All P xs
  All-front P [] ys h = tt
  All-front P (x ∷ xs) ys h = (h.0, All-front P xs ys h.1)

  -- A frame that the cut has left incomplete is malformed.
  abbrev pub cut_frame : Bool → List (Option (RunEvent Payload))
  cut_frame true = none ∷ []
  cut_frame false = []

  read_single_connection_lem :
      (last : ℕ) (events : List (RunEvent Payload)) (cut : Bool)
      → All (λ f. last < f.id) events
      → read_single_connection last (map some events ++ cut_frame cut) ≡ events
  unfolding read_single_connection
  read_single_connection_lem last [] true h = refl
  read_single_connection_lem last [] false h = refl
  read_single_connection_lem last (e ∷ events) cut h =
      rw (read_single_connection_lem last events cut h.1, old last e h.0)
    where
      old : (last : ℕ) (e : RunEvent Payload) → last < e.id → leb e.id last ≡ false
      old last e h = ground arith

  abbrev AfterHead : List (RunEvent Payload) → List (RunEvent Payload) → Type ℓ
  AfterHead log [] = log ≡ log
  AfterHead log (e ∷ t) = behind e.id log ≡ t

  -- One event further, the store has one event less.
  behind-head :
      (last : ℕ) (e : RunEvent Payload) (log t : List (RunEvent Payload))
      → IsLog log
      → behind last log ≡ e ∷ t
      → behind e.id log ≡ t
  behind-head last e [] t order h = absurd (nil-cons h)
    where
      nil-cons : {A : Type ℓ} {x : A} {xs : List A} → [] ≡ x ∷ xs → ⊥
      nil-cons h = ground (arith, h)
  behind-head last e (x ∷ log) t order h = elim (Bool-cases (ltb last x.id)) [
    | inl newer ↦
        let low : last ≤ x.id = ground arith in
        let all = behind_whole last log (above_trans last x.id log low order.0) in
        let met : x ∷ log ≡ e ∷ t = rw (← all) (rw newer at h) in
        let mine : behind x.id (x ∷ log) ≡ log = ground (arith, behind_whole x.id log order.0) in
        subst (AfterHead (x ∷ log)) met mine
    | inr older ↦
        let met : behind last log ≡ e ∷ t = rw older at h in
        let above = subst (All (λ f. last < f.id)) met (behind-All last log) in
        ground (arith, above.0, behind-head last e log t order.1 met)
  ]

  behind-last_id :
      (last : ℕ) (events log rest : List (RunEvent Payload))
      → IsLog log
      → behind last log ≡ events ++ rest
      → behind (last_id last events) log ≡ rest
  behind-last_id last [] log rest order h = h
  behind-last_id last (e ∷ events) log rest order h =
      behind-last_id e.id events log rest order (behind-head last e log (events ++ rest) order h)

  -- Every request brings the events behind the number that it names, from the first of them on,
  -- before the connection is cut, which may leave an incomplete frame at the end.
  abbrev pub Serves : List (RunEvent Payload) → World Payload → Type ℓ
  Serves log world =
      (k last : ℕ)
      → (events : List (RunEvent Payload)) × (cut : Bool) × Prefix events (behind last log)
        × ((world.connect k last).0 ≡ map some events ++ cut_frame cut)

  Prefix-nil : (ys : List (RunEvent Payload)) → Prefix [] ys
  Prefix-nil ys = (ys, refl)

abbrev pub Ended : StreamEnd → Type 0
Ended end = (end ≡ returned) ⊎ (end ≡ threw)

module _ {ℓ} {Payload : Type ℓ} (is_run_done : RunEvent Payload → Bool)
    (policy : ℕ → ℕ → Cause → Decision) (world : World Payload) where
  abbrev Goes : Delivered Payload → Delivered Payload → Type ℓ
  Goes out next = ((out.0 ≡ []) × Ended out.1) ⊎ (out ≡ next)

  if_Goes :
      (b : Bool) (end : StreamEnd) (next : Delivered Payload)
      → Ended end
      → Goes (if b then ([], end) else next) next
  if_Goes true end next h = inl (refl, h)
  if_Goes false end next h = inr refl

  go_on-cases :
      (k : ℕ) (cause : Cause) (d : Decision) (next : Delivered Payload)
      → Goes (go_on is_run_done policy world k cause d next) next
  go_on-cases k at_eof stop next = inl (refl, inl refl)
  go_on-cases k on_error stop next = inl (refl, inr refl)
  go_on-cases k at_eof again next = if_Goes (world.aborted_after k) returned next (inl refl)
  go_on-cases k on_error again next = if_Goes (world.aborted_after k) threw next (inr refl)
  go_on-cases k at_eof (after ms) next =
      if_Goes (world.aborted_after k || world.aborted_pause k) returned next (inl refl)
  go_on-cases k on_error (after ms) next =
      if_Goes (world.aborted_after k || world.aborted_pause k) threw next (inr refl)

  -- A policy that reconnects at most `limit` times.
  abbrev pub Stops : ℕ → Type 0
  Stops limit = (a last : ℕ) (cause : Cause) → limit < a → policy a last cause ≡ stop

  abbrev GoesWithin : ℕ → ℕ → Delivered Payload → Delivered Payload → Type ℓ
  GoesWithin limit k out next = ((out.0 ≡ []) × Ended out.1) ⊎ ((out ≡ next) × (k + 1 ≤ limit))

  stopped :
      (limit k : ℕ) (cause : Cause) (next : Delivered Payload)
      → GoesWithin limit k (go_on is_run_done policy world (suc k) cause stop next) next
  stopped limit k at_eof next = inl (refl, inl refl)
  stopped limit k on_error next = inl (refl, inr refl)

  asked :
      (limit k last : ℕ) (cause : Cause) (next : Delivered Payload)
      → Stops limit
      → GoesWithin limit k
          (go_on is_run_done policy world (suc k) cause (policy (suc k) last cause) next)
          next
  asked limit k last cause next stops = elim (Bool-cases (ltb limit (suc k))) [
    | inl late ↦ rw (stops (suc k) last cause (ground arith)) (stopped limit k cause next)
    | inr early ↦ elim (go_on-cases (suc k) cause (policy (suc k) last cause) next) [
      | inl over ↦ inl over
      | inr on ↦ inr (on, ground arith)
    ]
  ]

  after_connection-cases :
      (limit k last : ℕ) (events : List (RunEvent Payload)) (ending : Ending)
      (next : Delivered Payload)
      → Stops limit
      → GoesWithin limit k
          (after_connection is_run_done policy world k last events ending next)
          next
  after_connection-cases limit k last events aborted next stops = inl (refl, inl refl)
  after_connection-cases limit k last events failed next stops =
      asked limit k last on_error next stops
  after_connection-cases limit k last events eof next stops =
      elim (Bool-cases (any is_run_done events || is_empty events)) [
        | inl over ↦ rw over (inl (refl, inl refl))
        | inr cut ↦ rw cut (asked limit k last at_eof next stops)
      ]

  join :
      (limit k : ℕ) (ys events rest : List (RunEvent Payload)) (out next : Delivered Payload)
      → ys ≡ events ++ rest
      → GoesWithin limit k out next
      → (suc k ≤ limit → Prefix next.0 rest × Ended next.1)
      → Prefix (first_then events out).0 ys × Ended (first_then events out).1
  join limit k ys events rest out next whole (inl (nothing, ended)) more =
      rw nothing ((rest, whole ∙ rw append-nil), ended)
  join limit k ys events rest out next whole (inr (same, within)) more =
      let (tail, ended) = more (omega (arith, within)) in
      rw same ((tail.0, whole ∙ rw (tail.1) (sym (append_assoc events next.0 tail.0))), ended)

  module _ (log : List (RunEvent Payload)) (limit : ℕ) (order : IsLog log)
      (serves : Serves log world) (stops : Stops limit) where
    stream_from_lem :
        (fuel k last : ℕ)
        → k ≤ limit
        → limit < k + fuel
        → let out = stream_from is_run_done policy world fuel k last in
          Prefix out.0 (behind last log) × Ended out.1
    unfolding stream_from
    stream_from_lem zero k last low enough = absurd (omega arith)
    stream_from_lem (suc fuel) k last low enough =
        let (events, cut, (rest, whole), sent) = serves k last in
        let newer =
          All-front (λ f. last < f.id) events rest
            (subst (All (λ f. last < f.id)) whole (behind-All last log)) in
        let taken : read_single_connection last (world.connect k last).0 ≡ events =
          rw sent (read_single_connection_lem last events cut newer) in
        let next = stream_from is_run_done policy world fuel (suc k) (last_id last events) in
        let goes =
          after_connection-cases limit k (last_id last events) events (world.connect k last).1 next
            stops in
        let more : suc k ≤ limit → Prefix next.0 rest × Ended next.1 = λ asked_on.
          subst (λ r. Prefix next.0 r × Ended next.1)
            (behind-last_id last events log rest order whole)
            (stream_from_lem fuel (suc k) (last_id last events) asked_on (omega (arith, enough))) in
        elim (Bool-cases (world.aborted_before k)) [
          | inl over ↦ rw (stream_from, over) (Prefix-nil _, inl refl)
          | inr live ↦
              rw (stream_from, live, taken)
                (join limit k (behind last log) events rest _ next whole goes more)
        ]

pub default_policy-stops : (a last : ℕ) (cause : Cause) → 5 < a → default_policy a last cause ≡ stop
unfolding default_policy
default_policy-stops zero last cause h = absurd (omega arith)
default_policy-stops (suc zero) last cause h = absurd (omega arith)
default_policy-stops (suc (suc zero)) last cause h = absurd (omega arith)
default_policy-stops (suc (suc (suc zero))) last cause h = absurd (omega arith)
default_policy-stops (suc (suc (suc (suc zero)))) last cause h = absurd (omega arith)
default_policy-stops (suc (suc (suc (suc (suc zero))))) last cause h = absurd (omega arith)
default_policy-stops (suc (suc (suc (suc (suc (suc a)))))) last cause h = refl

-- From a server that answers every request with the events behind the number that it names, in the
-- order of a store with increasing numbers, up to some event behind which the connection is cut, the
-- stream delivers the events behind its first number one after the other, none twice and none left
-- out, up to some event; whatever the connections do, and with a policy that reconnects at most
-- `limit` times, it ends within `limit + 1` connections by returning or by throwing.
pub stream_events_lem {ℓ} :
    {Payload : Type ℓ} (is_run_done : RunEvent Payload → Bool) (policy : ℕ → ℕ → Cause → Decision)
    (world : World Payload) (log : List (RunEvent Payload)) (limit fuel : ℕ) (start : Option ℕ)
    → IsLog log
    → Serves log world
    → Stops is_run_done policy world limit
    → limit < fuel
    → let out = stream_events is_run_done policy world fuel start in
      Prefix out.0 (behind (get_or start 0) log) × Ended out.1
unfolding stream_events
stream_events_lem is_run_done policy world log limit fuel none order serves stops enough =
    stream_from_lem is_run_done policy world log limit order serves stops fuel 0 0 (omega arith)
      (omega (arith, enough))
stream_events_lem is_run_done policy world log limit fuel (some last) order serves stops enough =
    stream_from_lem is_run_done policy world log limit order serves stops fuel 0 last (omega arith)
      (omega (arith, enough))
