-- ===== src/Router/Recorder/Turns.antt =====
-- What the chain of flushes of the call recorder does to its queue.
use open_rush.Prelude.{
  ℕ, zero, suc, ◌+◌, ◌≤◌, Bool, true, false, List, [], ◌∷◌, length, take, drop, Option, none, some,
  ◌≡◌, refl, sym, ap, ◌∙◌, arith,
}
use mathlib.Core.Path.{subst}
use open_rush.Router.Recorder.{
  Limits, Recorder, flush, take_batch, start_next, start, settle_batch, settle, run_chain,
  minus_one,
}
use open_rush.Router.Recorder.Chained.{Chained}

-- What one flush of the chain does.
pub record Turned {ℓ} {Call : Type ℓ} (n : ℕ) (s t : Recorder Call) : Type ℓ where
  pub ended : t.flushes ≡ n
  pub landed : t.in_flight ≡ none
  pub no_longer : length t.queue ≤ length s.queue
  pub shorter : s.in_flight ≡ none → 1 ≤ length s.queue → suc (length t.queue) ≤ length s.queue

-- What all the flushes of the chain do, where the last of them takes a batch if there is one.
pub record Worked {ℓ} {Call : Type ℓ} (s t : Recorder Call) : Type ℓ where
  pub ended : t.flushes ≡ 0
  pub landed : t.in_flight ≡ none
  pub no_longer : length t.queue ≤ length s.queue
  pub shorter : 1 ≤ length s.queue → suc (length t.queue) ≤ length s.queue

-- What they do at the least.
pub record Rested {ℓ} {Call : Type ℓ} (s t : Recorder Call) : Type ℓ where
  pub ended : t.flushes ≡ 0
  pub landed : t.in_flight ≡ none
  pub no_longer : length t.queue ≤ length s.queue

Turned-Rested {ℓ} : {Call : Type ℓ} (s t : Recorder Call) → Turned 0 s t → Rested s t
Turned-Rested s t h = record { ended = h.ended; landed = h.landed; no_longer = h.no_longer }

Worked-Rested {ℓ} : {Call : Type ℓ} (s t : Recorder Call) → Worked s t → Rested s t
Worked-Rested s t h = record { ended = h.ended; landed = h.landed; no_longer = h.no_longer }

Turned-Worked {ℓ} :
    {Call : Type ℓ} (s t : Recorder Call) → Turned 0 s t → s.in_flight ≡ none → Worked s t
Turned-Worked s t h idle = record {
  ended = h.ended;
  landed = h.landed;
  no_longer = h.no_longer;
  shorter = h.shorter idle;
}

Turned-then {ℓ} :
    {Call : Type ℓ} (n : ℕ) (s t u : Recorder Call) → Turned n s t → Worked t u → Worked s u
Turned-then n s t u h k = record {
  ended = k.ended;
  landed = k.landed;
  no_longer = omega (arith, h.no_longer, k.no_longer);
  shorter = λ some_queued.
      let l = h.no_longer in let m = k.no_longer in let o = k.shorter in ground arith;
}

length-drop-le {ℓ} : {A : Type ℓ} (n : ℕ) (xs : List A) → length (drop n xs) ≤ length xs
length-drop-le zero xs = omega arith
length-drop-le (suc n) [] = omega arith
length-drop-le (suc n) (x ∷ xs) = omega (arith, length-drop-le n xs)

length-drop-shorter {ℓ} :
    {A : Type ℓ} (n : ℕ) (x : A) (xs : List A) → 1 ≤ n → length (drop n (x ∷ xs)) ≤ length xs
length-drop-shorter zero x xs h = omega (arith, h)
length-drop-shorter (suc n) x xs h = length-drop-le n xs

module _ {ℓ} {Call : Type ℓ} (lim : Limits) (positive : 1 ≤ lim.batch_size) where
  turn_batch :
      (kept : Bool) (n : ℕ) (s : Recorder Call) (c : Call) (cs : List Call)
      → s.queue ≡ c ∷ cs
      → s.flushes ≡ suc n
      → Turned n s
          (settle_batch kept (some (take lim.batch_size (c ∷ cs))) (take_batch lim n (c ∷ cs) s))
  turn_batch true n s c cs e f =
      let l = length-drop-shorter lim.batch_size c cs positive in
      let k = ap length e in
      record {
        ended = ap minus_one f;
        landed = refl;
        no_longer = omega (arith, l, k);
        shorter = λ _ _. omega (arith, l, k);
      }
  turn_batch false n s c cs e f =
      let l = length-drop-shorter lim.batch_size c cs positive in
      let k = ap length e in
      record {
        ended = ap minus_one f;
        landed = refl;
        no_longer = omega (arith, l, k);
        shorter = λ _ _. omega (arith, l, k);
      }

  turn_queue :
      (kept : Bool) (n : ℕ) (s : Recorder Call) (queue : List Call)
      → s.queue ≡ queue
      → s.in_flight ≡ none
      → s.flushes ≡ suc n
      → Turned n s
          (settle_batch kept (take_batch lim n queue s).in_flight (take_batch lim n queue s))
  turn_queue kept n s [] e i f =
      subst (λ b. Turned n s (settle_batch kept b (record s { flushes = n }))) (sym i)
        record {
          ended = refl;
          landed = i;
          no_longer = omega arith;
          shorter = λ _ some_queued. let k = ap length e in omega (arith, some_queued, k);
        }
  turn_queue kept n s (c ∷ cs) e i f = turn_batch kept n s c cs e f

  turn_flying :
      (kept : Bool) (n : ℕ) (s : Recorder Call) (batch : List Call)
      → s.in_flight ≡ some batch
      → s.flushes ≡ suc n
      → Turned n s (settle_batch kept (some batch) s)
  turn_flying true n s batch i f = record {
    ended = ap minus_one f;
    landed = refl;
    no_longer = omega arith;
    shorter = λ idle some_queued. (let clash = sym i ∙ idle in ground arith);
  }
  turn_flying false n s batch i f = record {
    ended = ap minus_one f;
    landed = refl;
    no_longer = omega arith;
    shorter = λ idle some_queued. (let clash = sym i ∙ idle in ground arith);
  }

  turn_next :
      (kept : Bool) (n : ℕ) (s : Recorder Call) (batch : Option (List Call))
      → s.in_flight ≡ batch
      → s.flushes ≡ suc n
      → Turned n s (
          settle_batch kept
            (start_next lim batch (suc n) s).in_flight
            (start_next lim batch (suc n) s))
  turn_next kept n s none i f = turn_queue kept n s s.queue refl i f
  turn_next kept n s (some batch) i f =
      subst (λ b. Turned n s (settle_batch kept b s)) (sym i) (turn_flying kept n s batch i f)

  turn :
      (kept : Bool) (n : ℕ) (s : Recorder Call)
      → s.flushes ≡ suc n
      → Turned n s (settle kept (start lim s))
  unfolding settle start
  turn kept n s f =
      subst
        (λ m. Turned n s (
          settle_batch kept (start_next lim s.in_flight m s).in_flight
            (start_next lim s.in_flight m s)))
        (sym f) (turn_next kept n s s.in_flight refl f)

  run_chain-Worked :
      (kept : ℕ → Bool) (n : ℕ) (s : Recorder Call)
      → s.flushes ≡ suc n
      → (n ≡ 0 → s.in_flight ≡ none)
      → Worked s (run_chain lim kept (suc n) s)
  unfolding run_chain
  run_chain-Worked kept zero s f w = Turned-Worked s _ (turn (kept 0) 0 s f) (w refl)
  run_chain-Worked kept (suc n) s f w = Turned-then (suc n) s _ _ (turn (kept 0) (suc n) s f) (
      run_chain-Worked (λ k. kept (suc k)) n (settle (kept 0) (start lim s))
        (turn (kept 0) (suc n) s f).ended (λ _. (turn (kept 0) (suc n) s f).landed))

  pub run_chain-Rested :
      (kept : ℕ → Bool) (n : ℕ) (s : Recorder Call)
      → s.flushes ≡ n
      → (n ≡ 0 → s.in_flight ≡ none)
      → Rested s (run_chain lim kept n s)
  unfolding run_chain
  run_chain-Rested kept zero s f w = record { ended = f; landed = w refl; no_longer = omega arith }
  run_chain-Rested kept (suc zero) s f w = Turned-Rested s _ (turn (kept 0) 0 s f)
  run_chain-Rested kept (suc (suc n)) s f w =
      Worked-Rested s _ (run_chain-Worked kept (suc n) s f (λ e. omega (arith, e)))

  pub flush-Worked :
      (kept : ℕ → Bool) (s : Recorder Call)
      → Chained s
      → Worked s (run_chain lim kept (s.flushes + 1) (flush s))
  unfolding flush Chained
  flush-Worked kept s ch =
      let e : suc s.flushes ≡ s.flushes + 1 = omega arith in
      let w : Worked (flush s) (run_chain lim kept (suc s.flushes) (flush s)) =
        run_chain-Worked kept s.flushes (flush s) (sym e) ch in
      let w' : Worked (flush s) (run_chain lim kept (s.flushes + 1) (flush s)) =
        subst (λ m. Worked (flush s) (run_chain lim kept m (flush s))) e w in
      record {
        ended = w'.ended;
        landed = w'.landed;
        no_longer = w'.no_longer;
        shorter = w'.shorter;
      }
