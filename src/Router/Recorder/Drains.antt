-- ===== src/Router/Recorder/Drains.antt =====
-- `drain` of the call recorder: it ends, and what it leaves.
use mathlib.Core.Option.{get_or}
use mathlib.Core.List.{append-nil}
use open_rush.Prelude.{
  ℕ, zero, suc, ◌+◌, ◌≤◌, ◌<◌, Bool, true, false, List, [], ◌∷◌, ◌++◌, length, Option, none, max,
  ◌≡◌, refl, ap, inl, inr, Bool-cases, arith,
}
use mathlib.Core.Path.{subst}
use open_rush.Router.Recorder.{
  Limits, limits, Recorder, fresh, flush, start, settle, Event, run, run_chain, drain, is_empty,
}
use open_rush.Router.Recorder.Conserves.{
  Sub, Conserved, flying, calls_of, flush-Conserved, start-Conserved, settle-Conserved,
  run-Conserved,
}
use open_rush.Router.Recorder.Chained.{Chained, run-Chained}
use open_rush.Router.Recorder.Turns.{Rested, run_chain-Rested, flush-Worked}

-- What a recorder that has been given `calls` is after it has been drained.
pub record Drained {ℓ} {Call : Type ℓ} (calls : List Call) (s : Recorder Call) : Type ℓ where
  pub emptied : s.queue ≡ []
  pub landed : s.in_flight ≡ none
  pub ended : s.flushes ≡ 0
  pub accounted : length calls ≡ s.written + s.dropped
  pub in_order : Sub s.stored calls
  pub counted : s.written ≡ length s.stored

module _ {ℓ} {Call : Type ℓ} (lim : Limits) (positive : 1 ≤ lim.max_queue) where
  run_chain-Conserved :
      (calls : List Call) (kept : ℕ → Bool) (n : ℕ) (s : Recorder Call)
      → Conserved lim calls s
      → Conserved lim calls (run_chain lim kept n s)
  unfolding run_chain
  run_chain-Conserved calls kept zero s h = h
  run_chain-Conserved calls kept (suc n) s h =
      run_chain-Conserved calls (λ k. kept (suc k)) n (settle (kept 0) (start lim s))
        (settle-Conserved lim positive calls (kept 0) (start lim s)
          (start-Conserved lim positive calls s h))

  flush_all-Conserved :
      (calls : List Call) (kept : ℕ → Bool) (s : Recorder Call)
      → Conserved lim calls s
      → Conserved lim calls (run_chain lim kept (s.flushes + 1) (flush s))
  flush_all-Conserved calls kept s h =
      run_chain-Conserved calls kept (s.flushes + 1) (flush s)
        (flush-Conserved lim positive calls s h)

  is_empty-nil : (queue : List Call) → is_empty queue ≡ true → queue ≡ []
  is_empty-nil [] e = refl
  is_empty-nil (c ∷ cs) e = ground arith

  nil-length : (queue : List Call) → length queue ≤ 0 → queue ≡ []
  nil-length [] e = refl
  nil-length (c ∷ cs) e = ground arith

  some-queued : (queue : List Call) → is_empty queue ≡ false → 1 ≤ length queue
  some-queued [] e = ground arith
  some-queued (c ∷ cs) e = omega arith

  Rested-Drained :
      (calls : List Call) (s t : Recorder Call)
      → s.queue ≡ []
      → Rested s t
      → Conserved lim calls t
      → Drained calls t
  Rested-Drained calls s t e r h =
      let k = ap length e in
      let k' = ap (λ b. length (flying b)) r.landed in
      let q : t.queue ≡ [] = nil-length t.queue (omega (arith, r.no_longer, k)) in
      let k2 = ap length q in
      let o : Sub (t.stored ++ ([] ++ [])) calls =
        subst (λ q. Sub (t.stored ++ ([] ++ q)) calls) q
          (subst (λ b. Sub (t.stored ++ (flying b ++ t.queue)) calls) r.landed h.in_order) in
      record {
        emptied = q;
        landed = r.landed;
        ended = r.ended;
        accounted = omega (arith, h.accounted, k', k2);
        in_order = subst (λ l. Sub l calls) (append-nil t.stored) o;
        counted = h.counted;
      }

  drain_ends :
      1 ≤ lim.batch_size
      → (calls : List Call) (kept : ℕ → ℕ → Bool) (fuel : ℕ) (s : Recorder Call)
      → suc (length s.queue) ≤ fuel
      → Chained s
      → Conserved lim calls s
      → Drained calls (drain lim kept fuel s)
  unfolding drain Chained
  drain_ends size calls kept zero s enough ch h = absurd (omega (arith, enough))
  drain_ends size calls kept (suc fuel) s enough ch h = elim (Bool-cases (is_empty s.queue)) [
    | inl nothing ↦ rw nothing (
        Rested-Drained calls s _ (is_empty-nil s.queue nothing)
          (run_chain-Rested lim size (kept fuel) s.flushes s refl ch)
          (run_chain-Conserved calls (kept fuel) s.flushes s h))
    | inr more ↦
        let w = flush-Worked lim size (kept fuel) s ch in
        let l = w.shorter (some-queued s.queue more) in
        rw more (
          drain_ends size calls kept fuel (run_chain lim (kept fuel) (s.flushes + 1) (flush s))
            (omega (arith, l, enough)) (λ _. w.landed) (flush_all-Conserved calls (kept fuel) s h))
  ]

one_max : (n : ℕ) → 1 ≤ max 1 n
one_max n = omega arith

-- Whatever limits a recorder is given, whatever has happened to it and whatever the store
-- answers, `drain` ends within one round more than there are calls in the queue. Then nothing is
-- queued or in flight, every call that was enqueued is counted as written or as dropped, and the
-- stored calls are as many as those counted as written and in the order in which they were
-- enqueued.
pub drain-Drained {ℓ} :
    {Call : Type ℓ} (batch queue : Option ℕ) (events : List (Event Call)) (kept : ℕ → ℕ → Bool)
    (fuel : ℕ)
    → length (run (limits batch queue) events fresh).queue < fuel
    → Drained
        (calls_of events)
        (drain (limits batch queue) kept fuel (run (limits batch queue) events fresh))
unfolding limits Chained
drain-Drained batch queue events kept fuel enough =
    let room = one_max (get_or queue 10000) in
    drain_ends (limits batch queue) room (one_max (get_or batch 100)) (calls_of events) kept fuel
      (run (limits batch queue) events fresh) (omega (arith, enough))
      (run-Chained (limits batch queue) events fresh (λ _. refl))
      (run-Conserved (limits batch queue) room events)

-- Whatever limits a recorder is given and whatever has happened to it: each call that was enqueued
-- is written, dropped, in flight or in the queue; the stored calls, the batch in flight and the
-- queue are together in the order in which the calls were enqueued, with none of them twice; the
-- stored calls are as many as those counted as written; the queue is not longer than its limit and
-- the batch in flight not longer than the batch size.
pub run_lem {ℓ} :
    {Call : Type ℓ} (batch queue : Option ℕ) (events : List (Event Call))
    → Conserved (limits batch queue) (calls_of events) (run (limits batch queue) events fresh)
unfolding limits
run_lem batch queue events =
    run-Conserved (limits batch queue) (one_max (get_or queue 10000)) events
