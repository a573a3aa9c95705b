-- ===== src/Runtime/Retry.antt =====
-- `withRetry` of packages/agent-runtime/src/retry.ts. The call that is tried is a function of the
-- number of the attempt; an error's class is read off its message in lower case.
use open_rush.Prelude.{
  ℕ, zero, suc, ◌+◌, ◌*◌, ◌^◌, ◌≤◌, min, String, Bool, true, false, ◌||◌, List, [], ◌∷◌, Option,
  none, some, ltb, nat_beq, ◌&&◌, length, inl, inr, Bool-cases, if◌then◌else◌, ◌≡◌, refl, sym, ap,
  ◌∙◌, lt→ltb, arith,
}
use text.Mathlib.Text.{find?}

pub data ErrorClassification : Type 0 where
  retryable fatal budget_exceeded : ErrorClassification

pub record RetryConfig : Type 0 where
  pub max_retries : ℕ
  pub base_delay_ms : ℕ
  pub max_delay_ms : ℕ
  pub jitter_ms : Option ℕ

abbrev pub default_retry_config : RetryConfig
default_retry_config = record {
  max_retries = 3;
  base_delay_ms = 1000;
  max_delay_ms = 30000;
  jitter_ms = some 500;
}

-- An error: the message in lower case, and none for a value that is no `Error`.
abbrev pub Error : Type 0
Error = Option String

pub data Attempt {ℓ} (T : Type ℓ) : Type ℓ where
  returned : T → Attempt T
  thrown : Error → Attempt T

abbrev pub contains : String → String → Bool
contains text part = elim (find? text part) [ some i ↦ true | none ↦ false ]

unfoldable pub classify_error : Error → ErrorClassification
classify_error none = fatal
classify_error (some msg) =
    if contains msg "rate_limit"
      || contains msg "rate limit"
      || contains msg "429"
      || contains msg "too many requests"
    then retryable
    else if contains msg "budget" || contains msg "token limit" || contains msg "cost limit"
    then budget_exceeded
    else if contains msg "invalid api key" || contains msg "authentication"
    then fatal
    else if contains msg "invalid_api_key" || contains msg "permission_denied"
    then fatal
    else if contains msg "timeout" || contains msg "econnreset" || contains msg "enotfound"
    then retryable
    else if contains msg "500" || contains msg "502" || contains msg "503" || contains msg "529"
    then retryable
    else if contains msg "overloaded"
    then retryable
    else fatal

abbrev pub is_retryable : ErrorClassification → Bool
is_retryable retryable = true
is_retryable fatal = false
is_retryable budget_exceeded = false

-- `Math.random() * jitterMs`, in whole milliseconds, is handed in.
unfoldable pub calculate_delay : ℕ → RetryConfig → ℕ → ℕ
calculate_delay attempt config random =
    min (config.base_delay_ms * 2 ^ attempt) config.max_delay_ms
    + elim config.jitter_ms [ none ↦ 0 | some j ↦ if nat_beq j 0 then 0 else random ]

ltb-suc : (m n : ℕ) → ltb (suc m) (suc n) ≡ ltb m n
ltb-suc m n = ground arith

ltb-none : (m n : ℕ) → n ≤ m → ltb m n ≡ false
ltb-none m n h = ground arith

abbrev pub is_failure {ℓ} : {T : Type ℓ} → Attempt T → Bool
is_failure (returned t) = false
is_failure (thrown e) = is_retryable (classify_error e)

module _ {ℓ} {T : Type ℓ} (fn : ℕ → Attempt T) (config : RetryConfig) (random : ℕ → ℕ) where
  -- What follows an attempt: its end, and the times that the loop sleeps from there on.
  unfoldable pub after_attempt : ℕ → Attempt T → (Error → Attempt T × List ℕ) → Attempt T × List ℕ
  unfolding classify_error calculate_delay
  after_attempt attempt (returned t) next = (returned t, [])
  after_attempt attempt (thrown e) next =
      let rest = next e in
      if is_retryable (classify_error e)
      then (
        rest.0,
        if ltb attempt config.max_retries
            then calculate_delay attempt config (random attempt) ∷ rest.1
            else rest.1,
      )
      else (thrown e, [])

  -- The loop from an attempt on, with the attempts that are left and the last error.
  unfoldable pub retry_from : ℕ → ℕ → Error → Attempt T × List ℕ
  unfolding after_attempt
  retry_from attempt zero last_error = (thrown last_error, [])
  retry_from attempt (suc left) last_error =
      after_attempt attempt (fn attempt) (λ e. retry_from (attempt + 1) left e)

  unfoldable pub with_retry : Attempt T × List ℕ
  unfolding retry_from
  with_retry = retry_from 0 (suc config.max_retries) none

  -- Whether an attempt fails with an error that is tried again.
  abbrev pub fails_again : ℕ → Bool
  fails_again n = is_failure (fn n)

  -- … and each of so many attempts from one on.
  abbrev pub all_fail_again : ℕ → ℕ → Bool
  all_fail_again n zero = true
  all_fail_again n (suc count) = fails_again n && all_fail_again (n + 1) count

  Follows : ℕ → ℕ → Attempt T × List ℕ → Type ℓ
  Follows a l (r, sleeps) =
      (r ≡ fn (a + length sleeps))
      × (length sleeps ≤ l)
      × (all_fail_again a (length sleeps) ≡ true)
      × ((ltb (length sleeps) l && fails_again (a + length sleeps)) ≡ false)

  Follows-end :
      (a l : ℕ) (r : Attempt T) → fn a ≡ r → (ltb 0 l && is_failure r) ≡ false → Follows a l (r, [])
  unfolding Follows
  Follows-end a l r h k =
      let here : fn (a + 0) ≡ r = ap fn (omega arith) ∙ h in
      (sym here, ground arith, refl, ap (λ r. ltb 0 l && is_failure r) here ∙ k)

  Follows-next :
      (a l : ℕ) (d : ℕ) (rest : Attempt T × List ℕ)
      → fails_again a ≡ true
      → Follows (a + 1) l rest
      → Follows a (suc l) (rest.0, d ∷ rest.1)
  unfolding Follows
  Follows-next a l d (r, sleeps) h (same, few, all, last) =
      let there : (a + 1) + length sleeps ≡ a + suc (length sleeps) = omega arith in
      (
        same ∙ ap fn there,
        ground arith,
        rw h all,
        ap (λ n. ltb (suc (length sleeps)) (suc l) && fails_again n) (sym there)
            ∙ ap (λ b. b && fails_again ((a + 1) + length sleeps)) (ltb-suc (length sleeps) l)
            ∙ last,
      )

  after_attempt-Follows :
      (a l : ℕ) (next : Error → Attempt T × List ℕ) (r : Attempt T)
      → fn a ≡ r
      → config.max_retries ≡ a + suc l
      → ((e : Error) → Follows (a + 1) l (next e))
      → Follows a (suc l) (after_attempt a r next)
  unfolding after_attempt
  after_attempt-Follows a l next (returned t) h m k =
      Follows-end a (suc l) (returned t) h (ground arith)
  after_attempt-Follows a l next (thrown e) h m k =
      elim (Bool-cases (is_retryable (classify_error e))) [
        | inl again ↦
            rw (again, lt→ltb a config.max_retries (omega arith))
              (Follows-next a l _ (next e) (ap is_failure h ∙ again) (k e))
        | inr stop ↦ rw stop (Follows-end a (suc l) (thrown e) h (rw stop (ground arith)))
      ]

  last_attempt-Follows :
      (a : ℕ) (r : Attempt T)
      → fn a ≡ r
      → config.max_retries ≡ a
      → Follows a 0 (after_attempt a r (λ e. (thrown e, [])))
  unfolding after_attempt
  last_attempt-Follows a (returned t) h m = Follows-end a 0 (returned t) h (ground arith)
  last_attempt-Follows a (thrown e) h m = elim (Bool-cases (is_retryable (classify_error e))) [
    | inl again ↦
        rw (again, ltb-none a config.max_retries (omega arith))
          (Follows-end a 0 (thrown e) h (ground arith))
    | inr stop ↦ rw stop (Follows-end a 0 (thrown e) h (ground arith))
  ]

  retry_from-Follows :
      (l a : ℕ) (last : Error)
      → config.max_retries ≡ a + l
      → Follows a l (retry_from a (suc l) last)
  unfolding retry_from
  retry_from-Follows zero a last h = last_attempt-Follows a (fn a) refl (omega arith)
  retry_from-Follows (suc l) a last h =
      after_attempt-Follows a l _ (fn a) refl h (λ e. retry_from-Follows l (a + 1) e (omega arith))

  -- `withRetry` sleeps at most `maxRetries` times and gives the result of the attempt after its
  -- last sleep; every attempt before that one failed with a retryable error, and that one did not,
  -- unless no retry was left.
  pub with_retry_lem :
      let (r, sleeps) = with_retry in
      (r ≡ fn (length sleeps))
      × (length sleeps ≤ config.max_retries)
      × (all_fail_again 0 (length sleeps) ≡ true)
      × ((ltb (length sleeps) config.max_retries && fails_again (length sleeps)) ≡ false)
  unfolding with_retry Follows
  with_retry_lem =
      let (same, few, all, last) = retry_from-Follows config.max_retries 0 none (omega arith) in
      let here : 0 + length (with_retry.1) ≡ length (with_retry.1) = omega arith in
      (
        same ∙ ap fn here,
        few,
        all,
        ap (λ n. ltb (length (with_retry.1)) config.max_retries && fails_again n) (sym here) ∙ last,
      )
