-- ===== src/Router/Recorder/Chained.antt =====
-- The flushes of the call recorder: none is in flight when the chain has ended.
use open_rush.Prelude.{
  ℕ, zero, suc, Bool, true, false, List, [], ◌∷◌, length, Option, none, some, leb, ◌≡◌, refl, sym,
  ◌∙◌, inl, inr, Bool-cases, arith,
}
use open_rush.Router.Recorder.{
  Limits, Recorder, flush, push, make_room, flush_if_full, enqueue, take_batch, start_next, start,
  settle_batch, settle, Event, enqueued, timer, started, settled, step, run,
}

-- A batch in flight belongs to a flush that has not ended.
unfoldable pub Chained {ℓ} : {Call : Type ℓ} → Recorder Call → Type ℓ
Chained s = s.flushes ≡ 0 → s.in_flight ≡ none

module _ {ℓ} {Call : Type ℓ} (lim : Limits) where
  flush_if_full-Chained : (s : Recorder Call) → Chained s → Chained (flush_if_full lim s)
  unfolding Chained flush
  flush_if_full-Chained s ch = elim (Bool-cases (leb lim.batch_size (length s.queue))) [
    | inl full ↦ rw full (λ e. omega (arith, e))
    | inr room ↦ rw room ch
  ]

  make_room-Chained : (s : Recorder Call) → Chained s → Chained (make_room lim s)
  unfolding Chained
  make_room-Chained s ch = elim (Bool-cases (leb lim.max_queue (length s.queue))) [
    | inl full ↦ rw full ch
    | inr room ↦ rw room ch
  ]

  take_batch-Chained :
      (n : ℕ) (queue : List Call) (s : Recorder Call)
      → s.in_flight ≡ none
      → s.flushes ≡ suc n
      → Chained (take_batch lim n queue s)
  unfolding Chained
  take_batch-Chained n [] s i f = λ _. i
  take_batch-Chained n (c ∷ cs) s i f = λ e. absurd (let k = sym f ∙ e in omega (arith, k))

  start_next-Chained :
      (batch : Option (List Call)) (flushes : ℕ) (s : Recorder Call)
      → s.in_flight ≡ batch
      → s.flushes ≡ flushes
      → Chained s
      → Chained (start_next lim batch flushes s)
  start_next-Chained none zero s i f ch = ch
  start_next-Chained none (suc n) s i f ch = take_batch-Chained n s.queue s i f
  start_next-Chained (some batch) zero s i f ch = ch
  start_next-Chained (some batch) (suc n) s i f ch = ch

  settle_batch-Chained :
      (kept : Bool) (batch : Option (List Call)) (s : Recorder Call)
      → Chained s
      → Chained (settle_batch kept batch s)
  unfolding Chained
  settle_batch-Chained kept none s ch = ch
  settle_batch-Chained true (some batch) s ch = λ _. refl
  settle_batch-Chained false (some batch) s ch = λ _. refl

  step-Chained : (e : Event Call) (s : Recorder Call) → Chained s → Chained (step lim e s)
  unfolding step enqueue start settle flush Chained
  step-Chained (enqueued call) s ch =
      flush_if_full-Chained (push call (make_room lim s)) (make_room-Chained s ch)
  step-Chained timer s ch = λ e. omega (arith, e)
  step-Chained started s ch = start_next-Chained s.in_flight s.flushes s refl refl ch
  step-Chained (settled kept) s ch = settle_batch-Chained kept s.in_flight s ch

  pub run-Chained :
      (events : List (Event Call)) (s : Recorder Call) → Chained s → Chained (run lim events s)
  unfolding run
  run-Chained [] s ch = ch
  run-Chained (e ∷ events) s ch = run-Chained events (step lim e s) (step-Chained e s ch)
