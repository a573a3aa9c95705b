-- ===== src/Router/Recorder/Conserves.antt =====
-- No record is lost without being counted, and none is stored out of order or twice.
use mathlib.Core.List.{append-nil, append_assoc}
use open_rush.Prelude.{
  ℕ, zero, suc, ◌+◌, ◌≤◌, Bool, true, false, List, [], ◌∷◌, ◌++◌, length, length-append, take, drop,
  take-append-drop, Option, none, some, leb, leb→le, ◌≡◌, refl, sym, ap, ◌∙◌, inl, inr, Bool-cases,
  arith,
}
use mathlib.Core.Path.{subst}
use open_rush.Router.Recorder.{
  Limits, Recorder, fresh, flush, shift, push, flush_if_full, enqueue, take_batch, start_next,
  start, settle_batch, settle, Event, enqueued, timer, started, settled, step, run,
}

module _ {ℓ} {A : Type ℓ} where
  -- The first list is the second without some of its elements.
  pub data Sub : List A → List A → Type ℓ where
    end : Sub [] []
    keep : {x : A} {xs ys : List A} → Sub xs ys → Sub (x ∷ xs) (x ∷ ys)
    skip : {y : A} {xs ys : List A} → Sub xs ys → Sub xs (y ∷ ys)

  pub Sub-refl : (xs : List A) → Sub xs xs
  Sub-refl [] = end
  Sub-refl (x ∷ xs) = keep (Sub-refl xs)

  pub Sub-trans : {ys zs : List A} → Sub ys zs → (xs : List A) → Sub xs ys → Sub xs zs
  Sub-trans end xs p = p
  Sub-trans (skip q) xs p = skip (Sub-trans q xs p)
  Sub-trans (keep q) (x ∷ xs) (keep p) = keep (Sub-trans q xs p)
  Sub-trans (keep q) xs (skip p) = skip (Sub-trans q xs p)

  pub Sub-append : {xs ys us vs : List A} → Sub xs ys → Sub us vs → Sub (xs ++ us) (ys ++ vs)
  Sub-append end q = q
  Sub-append (keep p) q = keep (Sub-append p q)
  Sub-append (skip p) q = skip (Sub-append p q)

  pub Sub-nil : (ys : List A) → Sub [] ys
  Sub-nil [] = end
  Sub-nil (y ∷ ys) = skip (Sub-nil ys)

  pub Sub-drop : (n : ℕ) (xs : List A) → Sub (drop n xs) xs
  Sub-drop zero xs = Sub-refl xs
  Sub-drop (suc n) [] = end
  Sub-drop (suc n) (x ∷ xs) = skip (Sub-drop n xs)

  length-drop-one : (xs : List A) → 1 ≤ length xs → suc (length (drop 1 xs)) ≡ length xs
  length-drop-one [] h = omega (arith, h)
  length-drop-one (x ∷ xs) h = omega arith

  length-take-le : (n : ℕ) (xs : List A) → length (take n xs) ≤ n
  length-take-le zero xs = omega arith
  length-take-le (suc n) [] = omega arith
  length-take-le (suc n) (x ∷ xs) = omega (arith, length-take-le n xs)

abbrev pub flying {ℓ} : {Call : Type ℓ} → Option (List Call) → List Call
flying none = []
flying (some batch) = batch

-- The calls of `enqueue` among the events.
abbrev pub calls_of {ℓ} : {Call : Type ℓ} → List (Event Call) → List Call
calls_of [] = []
calls_of (enqueued call ∷ events) = call ∷ calls_of events
calls_of (_ ∷ events) = calls_of events

-- What holds of a recorder that has been given `calls`.
pub record Conserved {ℓ} {Call : Type ℓ} (lim : Limits) (calls : List Call) (s : Recorder Call)
    : Type ℓ where
  pub accounted :
      length calls ≡ s.written + s.dropped + length (flying s.in_flight) + length s.queue
  pub in_order : Sub (s.stored ++ (flying s.in_flight ++ s.queue)) calls
  pub counted : s.written ≡ length s.stored
  pub bounded : length s.queue ≤ lim.max_queue
  pub batched : length (flying s.in_flight) ≤ lim.batch_size

module _ {ℓ} {Call : Type ℓ} (lim : Limits) (positive : 1 ≤ lim.max_queue) where
  pub flush-Conserved :
      (calls : List Call) (s : Recorder Call)
      → Conserved lim calls s
      → Conserved lim calls (flush s)
  unfolding flush
  flush-Conserved calls s h = record {
    accounted = h.accounted;
    in_order = h.in_order;
    counted = h.counted;
    bounded = h.bounded;
    batched = h.batched;
  }

  shift-Conserved :
      (calls : List Call) (s : Recorder Call)
      → 1 ≤ length s.queue
      → Conserved lim calls s
      → Conserved lim calls (shift s)
  shift-Conserved calls s some_queued h = record {
    accounted = let l = length-drop-one s.queue some_queued in omega (arith, h.accounted, l);
    in_order = Sub-trans h.in_order _ (
        Sub-append (Sub-refl s.stored)
          (Sub-append (Sub-refl (flying s.in_flight)) (Sub-drop 1 s.queue)));
    counted = h.counted;
    bounded = let l = length-drop-one s.queue some_queued in omega (arith, h.bounded, l);
    batched = h.batched;
  }

  push-Conserved :
      (calls : List Call) (call : Call) (s : Recorder Call)
      → suc (length s.queue) ≤ lim.max_queue
      → Conserved lim calls s
      → Conserved lim (calls ++ call ∷ []) (push call s)
  push-Conserved calls call s room h = record {
    accounted =
        let l = length-append calls (call ∷ []) in
        let m = length-append s.queue (call ∷ []) in omega (arith, h.accounted, l, m);
    in_order =
        subst (λ l. Sub l (calls ++ call ∷ []))
          (append_assoc s.stored (flying s.in_flight ++ s.queue) (call ∷ [])
            ∙ ap (s.stored ++◌) (append_assoc (flying s.in_flight) s.queue (call ∷ [])))
          (Sub-append h.in_order (Sub-refl (call ∷ [])));
    counted = h.counted;
    bounded = let m = length-append s.queue (call ∷ []) in omega (arith, m, room);
    batched = h.batched;
  }

  flush_if_full-Conserved :
      (calls : List Call) (s : Recorder Call)
      → Conserved lim calls s
      → Conserved lim calls (flush_if_full lim s)
  flush_if_full-Conserved calls s h = elim (Bool-cases (leb lim.batch_size (length s.queue))) [
    | inl e ↦ rw e (flush-Conserved calls s h)
    | inr e ↦ rw e h
  ]

  queued : (s : Recorder Call) → leb lim.max_queue (length s.queue) ≡ true → 1 ≤ length s.queue
  queued s full = let le = leb→le lim.max_queue (length s.queue) full in omega (arith, le, positive)

  not_full :
      (s : Recorder Call)
      → leb lim.max_queue (length s.queue) ≡ false
      → suc (length s.queue) ≤ lim.max_queue
  not_full s room = ground arith

  enqueue-Conserved :
      (calls : List Call) (call : Call) (s : Recorder Call)
      → Conserved lim calls s
      → Conserved lim (calls ++ call ∷ []) (enqueue lim call s)
  unfolding enqueue
  enqueue-Conserved calls call s h = elim (Bool-cases (leb lim.max_queue (length s.queue))) [
    | inl full ↦ rw full (
        flush_if_full-Conserved _ _ (
          push-Conserved calls call (shift s)
            (let l = length-drop-one s.queue (queued s full) in omega (arith, l, h.bounded))
            (shift-Conserved calls s (queued s full) h)))
    | inr room ↦
        rw room (flush_if_full-Conserved _ _ (push-Conserved calls call s (not_full s room) h))
  ]

  flown-Conserved :
      (calls : List Call) (s : Recorder Call) (c : Call) (cs : List Call)
      → s.queue ≡ c ∷ cs
      → s.in_flight ≡ none
      → Conserved lim calls s
      → Conserved lim calls (take_batch lim 0 (c ∷ cs) s)
  flown-Conserved calls s c cs e f h =
      let split = take-append-drop lim.batch_size (c ∷ cs) in
      let l = length-append (take lim.batch_size (c ∷ cs)) (drop lim.batch_size (c ∷ cs)) in
      let l' = ap length split in
      let n = ap length e in
      let k = ap (λ b. length (flying b)) f in
      record {
        accounted = omega (arith, h.accounted, l, l', n, k);
        in_order =
            subst (λ q. Sub (s.stored ++ q) calls) (sym split)
              (subst (λ q. Sub (s.stored ++ q) calls) e
                (subst (λ b. Sub (s.stored ++ (flying b ++ s.queue)) calls) f h.in_order));
        counted = h.counted;
        bounded = omega (arith, h.bounded, l, l', n);
        batched = length-take-le lim.batch_size (c ∷ cs);
      }

  take_batch-Conserved :
      (calls : List Call) (s : Recorder Call) (rest : ℕ) (queue : List Call)
      → s.queue ≡ queue
      → s.in_flight ≡ none
      → Conserved lim calls s
      → Conserved lim calls (take_batch lim rest queue s)
  take_batch-Conserved calls s rest [] e f h = record {
    accounted = h.accounted;
    in_order = h.in_order;
    counted = h.counted;
    bounded = h.bounded;
    batched = h.batched;
  }
  take_batch-Conserved calls s rest (c ∷ cs) e f h = flown-Conserved calls s c cs e f h

  start_next-Conserved :
      (calls : List Call) (s : Recorder Call) (batch : Option (List Call)) (flushes : ℕ)
      → s.in_flight ≡ batch
      → Conserved lim calls s
      → Conserved lim calls (start_next lim batch flushes s)
  start_next-Conserved calls s none (suc n) f h = take_batch-Conserved calls s n s.queue refl f h
  start_next-Conserved calls s none zero f h = h
  start_next-Conserved calls s (some batch) zero f h = h
  start_next-Conserved calls s (some batch) (suc n) f h = h

  pub start-Conserved :
      (calls : List Call) (s : Recorder Call)
      → Conserved lim calls s
      → Conserved lim calls (start lim s)
  unfolding start
  start-Conserved calls s h = start_next-Conserved calls s s.in_flight s.flushes refl h

  settle_batch-Conserved :
      (calls : List Call) (kept : Bool) (s : Recorder Call) (batch : Option (List Call))
      → s.in_flight ≡ batch
      → Conserved lim calls s
      → Conserved lim calls (settle_batch kept batch s)
  settle_batch-Conserved calls kept s none f h = h
  settle_batch-Conserved calls true s (some batch) f h =
      let k = ap (λ b. length (flying b)) f in
      record {
        accounted = omega (arith, h.accounted, k);
        in_order =
            subst (λ q. Sub q calls) (sym (append_assoc s.stored batch s.queue))
              (subst (λ b. Sub (s.stored ++ (flying b ++ s.queue)) calls) f h.in_order);
        counted = let l = length-append s.stored batch in omega (arith, h.counted, l);
        bounded = h.bounded;
        batched = omega arith;
      }
  settle_batch-Conserved calls false s (some batch) f h =
      let k = ap (λ b. length (flying b)) f in
      record {
        accounted = omega (arith, h.accounted, k);
        in_order = Sub-trans h.in_order _ (
            Sub-append (Sub-refl s.stored)
              (Sub-append (Sub-nil (flying s.in_flight)) (Sub-refl s.queue)));
        counted = h.counted;
        bounded = h.bounded;
        batched = omega arith;
      }

  pub settle-Conserved :
      (calls : List Call) (kept : Bool) (s : Recorder Call)
      → Conserved lim calls s
      → Conserved lim calls (settle kept s)
  unfolding settle
  settle-Conserved calls kept s h = settle_batch-Conserved calls kept s s.in_flight refl h

  run_from :
      (events : List (Event Call)) (calls : List Call) (s : Recorder Call)
      → Conserved lim calls s
      → Conserved lim (calls ++ calls_of events) (run lim events s)
  unfolding run step
  run_from [] calls s h = subst (λ l. Conserved lim l s) (sym (append-nil calls)) h
  run_from (enqueued call ∷ events) calls s h =
      subst (λ l. Conserved lim l (run lim events (enqueue lim call s)))
        (append_assoc calls (call ∷ []) (calls_of events))
        (run_from events (calls ++ call ∷ []) (enqueue lim call s)
          (enqueue-Conserved calls call s h))
  run_from (timer ∷ events) calls s h = run_from events calls (flush s) (flush-Conserved calls s h)
  run_from (started ∷ events) calls s h =
      run_from events calls (start lim s) (start-Conserved calls s h)
  run_from (settled kept ∷ events) calls s h =
      run_from events calls (settle kept s) (settle-Conserved calls kept s h)

  fresh-Conserved : Conserved {Call = Call} lim [] fresh
  fresh-Conserved = record {
    accounted = refl;
    in_order = end;
    counted = refl;
    bounded = omega arith;
    batched = omega arith;
  }

  pub run-Conserved :
      (events : List (Event Call)) → Conserved lim (calls_of events) (run lim events fresh)
  run-Conserved events = run_from events [] fresh fresh-Conserved
