-- ===== src/Runtime/RateLimiter.antt =====
-- `RateLimiter` of packages/agent-runtime/src/rate-limiter.ts. The state is `timestamps`; the time of
-- a call is handed in. `ts > now - 60_000` is written without the subtraction.
use mathlib.Core.Path.{subst}
use native.Mathlib.Nat.{le_trans}
use open_rush.Prelude.{
  ℕ, ◌+◌, ◌-◌, ◌≤◌, Bool, true, false, ◌&&◌, List, [], ◌∷◌, ◌++◌, length, filter, ltb, leb,
  Bool-cases, leb→le, inl, inr, ◌≡◌, refl, sym, ap, ◌∙◌, arith,
}

abbrev pub is_active : ℕ → ℕ → Bool
is_active now ts = ltb now (ts + 60000)

-- What follows the test of the window: it is full, or the time is noted.
abbrev pub acquire_if : Bool → ℕ → List ℕ → Bool × List ℕ
acquire_if true now active = (false, active)
acquire_if false now active = (true, active ++ now ∷ [])

unfoldable pub try_acquire : ℕ → ℕ → List ℕ → Bool × List ℕ
try_acquire max_requests_per_minute now timestamps =
    let active = filter (is_active now) timestamps in
    acquire_if (leb max_requests_per_minute (length active)) now active

unfoldable pub get_remaining : ℕ → ℕ → List ℕ → ℕ
get_remaining max_requests_per_minute now timestamps =
    max_requests_per_minute - length (filter (is_active now) timestamps)

unfoldable pub get_retry_after_ms : ℕ → List ℕ → ℕ
get_retry_after_ms now [] = 0
get_retry_after_ms now (oldest ∷ timestamps) = (oldest + 60000) - now

unfoldable pub reset : List ℕ → List ℕ
reset timestamps = []

abbrev note_granted : Bool → ℕ → List ℕ → List ℕ
note_granted true now granted = granted ++ now ∷ []
note_granted false now granted = granted

-- The state after calls at these times, and the times at which `tryAcquire` gave true before and
-- in them.
unfoldable pub acquire_all : ℕ → List ℕ → List ℕ → List ℕ → List ℕ × List ℕ
unfolding try_acquire
acquire_all max_rpm [] timestamps granted = (timestamps, granted)
acquire_all max_rpm (now ∷ times) timestamps granted =
    let (is_granted, timestamps') = try_acquire max_rpm now timestamps in
    acquire_all max_rpm times timestamps' (note_granted is_granted now granted)

-- The times do not fall, from one on; and the last of them.
abbrev pub is_ascending : ℕ → List ℕ → Bool
is_ascending from [] = true
is_ascending from (t ∷ ts) = leb from t && is_ascending t ts

abbrev pub last_time : ℕ → List ℕ → ℕ
last_time from [] = from
last_time from (t ∷ ts) = last_time t ts

filter-append : (p : ℕ → Bool) (xs ys : List ℕ) → filter p (xs ++ ys) ≡ filter p xs ++ filter p ys
filter-append p [] ys = refl
filter-append p (x ∷ xs) ys = elim (Bool-cases (p x)) [
  | inl yes_ ↦ rw (yes_, filter-append p xs ys) refl
  | inr no_ ↦ rw (no_, filter-append p xs ys) refl
]

length-append : (xs ys : List ℕ) → length (xs ++ ys) ≡ length xs + length ys
length-append [] ys = ground arith
length-append (x ∷ xs) ys = ground (arith, length-append xs ys)

stays_inactive : (n m t : ℕ) → n ≤ m → is_active n t ≡ false → is_active m t ≡ false
stays_inactive n m t h k = ground arith

-- What is active later was active before.
filter_again :
    (n m : ℕ) (ts : List ℕ)
    → n ≤ m
    → filter (is_active m) (filter (is_active n) ts) ≡ filter (is_active m) ts
filter_again n m [] h = refl
filter_again n m (t ∷ ts) h = elim (Bool-cases (is_active n t)) [
  | inl before ↦ elim (Bool-cases (is_active m t)) [
    | inl after ↦ rw (before, after, filter_again n m ts h) refl
    | inr gone ↦ rw (before, gone, filter_again n m ts h) refl
  ]
  | inr gone ↦ rw (gone, filter_again n m ts h, stays_inactive n m t h gone) refl
]

length-filter : (p : ℕ → Bool) (xs : List ℕ) → length (filter p xs) ≤ length xs
length-filter p [] = ground arith
length-filter p (x ∷ xs) = ground (arith, length-filter p xs)

length-filter_later :
    (n m : ℕ) (ts : List ℕ)
    → n ≤ m
    → length (filter (is_active m) ts) ≤ length (filter (is_active n) ts)
length-filter_later n m ts h =
    subst (λ xs. length xs ≤ length (filter (is_active n) ts)) (filter_again n m ts h)
      (length-filter (is_active m) (filter (is_active n) ts))

-- The state has the active ones among the times granted, now and later.
Tracks : ℕ → List ℕ → List ℕ → Type 0
Tracks n ts granted = (m : ℕ) → n ≤ m → filter (is_active m) ts ≡ filter (is_active m) granted

Tracks-kept :
    (n now : ℕ) (ts granted : List ℕ)
    → n ≤ now
    → Tracks n ts granted
    → Tracks now (filter (is_active now) ts) granted
unfolding Tracks
Tracks-kept n now ts granted h k m l = filter_again now m ts l ∙ k m (omega arith)

Tracks-append :
    (n : ℕ) (ts granted : List ℕ) (t : ℕ)
    → Tracks n ts granted
    → Tracks n (ts ++ t ∷ []) (granted ++ t ∷ [])
unfolding Tracks
Tracks-append n ts granted t k m l =
    filter-append (is_active m) ts (t ∷ [])
    ∙ ap (λ xs. xs ++ filter (is_active m) (t ∷ [])) (k m l)
    ∙ sym (filter-append (is_active m) granted (t ∷ []))

granted_next :
    (max_rpm now : ℕ) (granted : List ℕ)
    → leb max_rpm (length (filter (is_active now) granted)) ≡ false
    → length (filter (is_active now) (granted ++ now ∷ [])) ≤ max_rpm
granted_next max_rpm now granted h =
    subst (λ xs. length xs ≤ max_rpm) (sym (filter-append (is_active now) granted (now ∷ [])))
      (subst (λ n. n ≤ max_rpm)
        (sym (length-append (filter (is_active now) granted) (filter (is_active now) (now ∷ []))))
        (ground (arith, length-filter (is_active now) (now ∷ []))))

Tracks-now :
    (n now : ℕ) (ts granted : List ℕ)
    → n ≤ now
    → Tracks n ts granted
    → filter (is_active now) ts ≡ filter (is_active now) granted
unfolding Tracks
Tracks-now n now ts granted h k = k now h

-- One call, by whether the window is full.
acquire_if-Tracks :
    (b : Bool) (now : ℕ) (active granted : List ℕ)
    → Tracks now active granted
    → let (is_granted, ts) = acquire_if b now active in
      Tracks now ts (note_granted is_granted now granted)
acquire_if-Tracks true now active granted k = k
acquire_if-Tracks false now active granted k = Tracks-append now active granted now k

acquire_if-bound :
    (b : Bool) (max_rpm now : ℕ) (active granted : List ℕ)
    → leb max_rpm (length (filter (is_active now) granted)) ≡ b
    → length (filter (is_active now) granted) ≤ max_rpm
    → length (filter (is_active now) (note_granted ((acquire_if b now active).0) now granted))
      ≤ max_rpm
acquire_if-bound true max_rpm now active granted e h = h
acquire_if-bound false max_rpm now active granted e h = granted_next max_rpm now granted e

acquire_all-bound :
    (max_rpm : ℕ) (times : List ℕ) (from : ℕ) (ts granted : List ℕ)
    → is_ascending from times ≡ true
    → Tracks from ts granted
    → length (filter (is_active from) granted) ≤ max_rpm
    → let final = (acquire_all max_rpm times ts granted).1 in
      length (filter (is_active (last_time from times)) final) ≤ max_rpm
unfolding acquire_all
acquire_all-bound max_rpm [] from ts granted a k b = b
acquire_all-bound max_rpm (now ∷ times) from ts granted a k b =
    let later : from ≤ now = ground (arith, leb→le from now) in
    let active = filter (is_active now) ts in
    let full = leb max_rpm (length active) in
    acquire_all-bound max_rpm times now _ _ (ground arith)
      (acquire_if-Tracks full now active granted (Tracks-kept from now ts granted later k))
      (acquire_if-bound full max_rpm now active granted
        (ap (λ xs. leb max_rpm (length xs)) (sym (Tracks-now from now ts granted later k)))
        (le_trans (length-filter_later from now granted later) b))

-- However often and whenever `tryAcquire` is called, if the clock does not run backwards: of the
-- calls that gave true, at most `maxRequestsPerMinute` lie in the last minute at any time of a call.
pub acquire_all_lem :
    (max_rpm : ℕ) (times : List ℕ)
    → is_ascending 0 times ≡ true
    → let granted = (acquire_all max_rpm times [] []).1 in
      length (filter (is_active (last_time 0 times)) granted) ≤ max_rpm
unfolding Tracks
acquire_all_lem max_rpm times h =
    acquire_all-bound max_rpm times 0 [] [] h (λ m l. refl) (omega arith)
