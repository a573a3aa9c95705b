-- ===== src/Router/Recorder.antt =====
-- `BatchingCallRecorder` of packages/llm-router/src/metering/call-recorder.ts: the bounded queue of
-- call records and the chain of flushes. A flush of the chain is two steps, the start, which takes a
-- batch off the queue and hands it to the store, and the settling of the store's promise; calls may
-- come between them. `stored` is what the store has been given and has kept.
pub mod Chained
pub mod Conserves
pub mod Drains
pub mod Turns
use mathlib.Core.Option.{get_or}
use open_rush.Prelude.{
  ℕ, zero, suc, ◌+◌, max, Bool, true, false, List, [], ◌∷◌, ◌++◌, length, take, drop, Option, none,
  some, leb, if◌then◌else◌,
}

pub record Limits : Type 0 where
  pub batch_size : ℕ
  pub max_queue : ℕ

-- The constructor's limits.
unfoldable pub limits : Option ℕ → Option ℕ → Limits
limits batch queue = record {
  batch_size = max 1 (get_or batch 100);
  max_queue = max 1 (get_or queue 10000);
}

-- `flushes` are those of the chain that have not ended; the first of them may have a batch in flight.
pub record Recorder {ℓ} (Call : Type ℓ) : Type ℓ where
  pub queue : List Call
  pub in_flight : Option (List Call)
  pub flushes : ℕ
  pub dropped : ℕ
  pub written : ℕ
  pub failures : ℕ
  pub stored : List Call

abbrev pub fresh {ℓ} : {Call : Type ℓ} → Recorder Call
fresh = record {
  queue = [];
  in_flight = none;
  flushes = 0;
  dropped = 0;
  written = 0;
  failures = 0;
  stored = [];
}

abbrev pub minus_one : ℕ → ℕ
minus_one zero = 0
minus_one (suc n) = n

module _ {ℓ} {Call : Type ℓ} where
  unfoldable pub flush : Recorder Call → Recorder Call
  flush s = record s { flushes = s.flushes + 1 }

  -- `queue.shift()`, counted as a loss.
  abbrev pub shift : Recorder Call → Recorder Call
  shift s = record s { queue = drop 1 s.queue; dropped = s.dropped + 1 }

  abbrev pub push : Call → Recorder Call → Recorder Call
  push call s = record s { queue = s.queue ++ call ∷ [] }

  abbrev pub make_room : Limits → Recorder Call → Recorder Call
  make_room lim s = if leb lim.max_queue (length s.queue) then shift s else s

  abbrev pub flush_if_full : Limits → Recorder Call → Recorder Call
  flush_if_full lim s = if leb lim.batch_size (length s.queue) then flush s else s

  unfoldable pub enqueue : Limits → Call → Recorder Call → Recorder Call
  unfolding flush
  enqueue lim call s = flush_if_full lim (push call (make_room lim s))

  -- The first half of `flushOnce`: an empty queue ends the flush, else a batch is on its way.
  abbrev pub take_batch : Limits → ℕ → List Call → Recorder Call → Recorder Call
  take_batch lim rest [] s = record s { flushes = rest }
  take_batch lim rest (c ∷ cs) s = record s {
    queue = drop lim.batch_size (c ∷ cs);
    in_flight = some (take lim.batch_size (c ∷ cs));
  }

  abbrev pub start_next : Limits → Option (List Call) → ℕ → Recorder Call → Recorder Call
  start_next lim none (suc n) s = take_batch lim n s.queue s
  start_next lim _ _ s = s

  unfoldable pub start : Limits → Recorder Call → Recorder Call
  start lim s = start_next lim s.in_flight s.flushes s

  -- The second half, where the store has kept the batch, or has thrown.
  abbrev pub settle_batch : Bool → Option (List Call) → Recorder Call → Recorder Call
  settle_batch kept none s = s
  settle_batch true (some batch) s = record s {
    in_flight = none;
    flushes = minus_one s.flushes;
    written = s.written + length batch;
    stored = s.stored ++ batch;
  }
  settle_batch false (some batch) s = record s {
    in_flight = none;
    flushes = minus_one s.flushes;
    dropped = s.dropped + length batch;
    failures = s.failures + 1;
  }

  unfoldable pub settle : Bool → Recorder Call → Recorder Call
  settle kept s = settle_batch kept s.in_flight s

-- What happens to a recorder: a call of `enqueue`, a flush by the timer, and the two halves.
pub data Event {ℓ} (Call : Type ℓ) : Type ℓ where
  enqueued : Call → Event Call
  timer started : Event Call
  settled : Bool → Event Call

module _ {ℓ} {Call : Type ℓ} where
  unfoldable pub step : Limits → Event Call → Recorder Call → Recorder Call
  unfolding enqueue start settle
  step lim (enqueued call) s = enqueue lim call s
  step lim timer s = flush s
  step lim started s = start lim s
  step lim (settled kept) s = settle kept s

  unfoldable pub run : Limits → List (Event Call) → Recorder Call → Recorder Call
  unfolding step
  run lim [] s = s
  run lim (e ∷ events) s = run lim events (step lim e s)

  -- The flushes of the chain one after the other, with the store's answers.
  unfoldable pub run_chain : Limits → (ℕ → Bool) → ℕ → Recorder Call → Recorder Call
  unfolding start settle
  run_chain lim kept zero s = s
  run_chain lim kept (suc n) s = run_chain lim (λ k. kept (suc k)) n (settle (kept 0) (start lim s))

  abbrev pub is_empty : List Call → Bool
  is_empty [] = true
  is_empty (c ∷ cs) = false

  -- `drain`: as long as the queue is not empty, one more flush and all before it; the fuel counts
  -- the rounds.
  unfoldable pub drain : Limits → (ℕ → ℕ → Bool) → ℕ → Recorder Call → Recorder Call
  unfolding run_chain flush
  drain lim kept zero s = s
  drain lim kept (suc fuel) s =
      let s' = run_chain lim (kept fuel) (s.flushes + 1) (flush s) in
      let rest = drain lim kept fuel s' in
      if is_empty s.queue then run_chain lim (kept fuel) s.flushes s else rest
