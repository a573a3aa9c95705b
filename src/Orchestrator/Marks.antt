-- ===== src/Orchestrator/Marks.antt =====
-- The first and the last event that a run writes itself, `data-openrush-run-started` and
-- `data-openrush-run-done` (packages/control-plane/src/run/run-orchestrator.ts): how they stand in
-- the trace, and what the variables of `execute` say of them.
use open_rush.Prelude.{
  ℕ, String, Bool, true, false, ◌&&◌, ◌||◌, not, List, [], ◌∷◌, Option, ◌≡◌, refl, arith,
}
use open_rush.Orchestrator.World.{
  DoneStatus, Payload, Call, StreamEvent, State, Method, call, set_buffer, has_returned,
}
use open_rush.Orchestrator.Keeps.{Keeps}
use open_rush.Orchestrator.Steps.{is_plain}

-- The first and last events that were written, the last one first.
abbrev pub add_mark : Call → Bool → List Payload → List Payload
add_mark (Call.append_call i (Payload.run_started a b v) n) true ps = Payload.run_started a b v ∷ ps
add_mark (Call.append_call i (Payload.run_done d e) n) true ps = Payload.run_done d e ∷ ps
add_mark _ _ ps = ps

unfoldable pub marks : List (Call × Bool) → List Payload
marks [] = []
marks ((c, b) ∷ trace) = add_mark c b (marks trace)

-- Whether the writing of a last event has failed.
abbrev pub is_failed_done : Call → Bool → Bool
is_failed_done (Call.append_call i (Payload.run_done d e) n) false = true
is_failed_done _ _ = false

unfoldable pub done_failed : List (Call × Bool) → Bool
done_failed [] = false
done_failed ((c, b) ∷ trace) = is_failed_done c b || done_failed trace

-- The calls that are no mark.
abbrev pub is_unmarked : Call → Bool
is_unmarked (Call.append_call i (Payload.run_started a b v) n) = false
is_unmarked (Call.append_call i (Payload.run_done d e) n) = false
is_unmarked _ = true

add_mark-unmarked :
    (c : Call) (b : Bool) (ps : List Payload) → is_unmarked c ≡ true → add_mark c b ps ≡ ps
add_mark-unmarked (Call.append_call i (Payload.run_started a d v) n) b ps h = ground arith
add_mark-unmarked (Call.append_call i (Payload.run_done d e) n) b ps h = ground arith
add_mark-unmarked (Call.append_call i (Payload.usage u) n) b ps h = refl
add_mark-unmarked (Call.append_call i (Payload.chunk u v) n) b ps h = refl
add_mark-unmarked _ b ps h = refl

is_failed_done-unmarked : (c : Call) (b : Bool) → is_unmarked c ≡ true → is_failed_done c b ≡ false
is_failed_done-unmarked (Call.append_call i (Payload.run_started a d v) n) b h = ground arith
is_failed_done-unmarked (Call.append_call i (Payload.run_done d e) n) b h = ground arith
is_failed_done-unmarked (Call.append_call i (Payload.usage u) n) b h = refl
is_failed_done-unmarked (Call.append_call i (Payload.chunk u v) n) b h = refl
is_failed_done-unmarked _ b h = refl

is_plain-unmarked : (c : Call) → is_plain c ≡ true → is_unmarked c ≡ true
is_plain-unmarked (Call.append_call i (Payload.run_started a d v) n) h = ground arith
is_plain-unmarked (Call.append_call i (Payload.run_done d e) n) h = ground arith
is_plain-unmarked (Call.append_call i (Payload.usage u) n) h = refl
is_plain-unmarked (Call.append_call i (Payload.chunk u v) n) h = refl
is_plain-unmarked (Call.create_sandbox_call o) h = ground arith
is_plain-unmarked (Call.destroy_sandbox_call j) h = ground arith
is_plain-unmarked _ h = refl

-- A predicate on what the marks and the two variables are.
abbrev pub On : {W : Type 0} → (Bool → Bool → List Payload → Bool → Bool) → State W → Type 0
On p s = p s.run_started_emitted s.run_done_emitted (marks s.trace) (done_failed s.trace) ≡ true

module _ {W : Type 0} (p : Bool → Bool → List Payload → Bool → Bool) where
  pub Keeps-unmarked :
      (A : Type 0) (c : Call) (f : Method W A) → is_unmarked c ≡ true → Keeps (On p) (call c f)
  unfolding Keeps call marks done_failed
  Keeps-unmarked A c f h s k =
      rw
        (
          add_mark-unmarked c _ (marks s.trace) h,
          is_failed_done-unmarked c (has_returned ((f s.world).0)) h,
        )
        k

  pub Keeps-plain :
      (A : Type 0) (c : Call) (f : Method W A) → is_plain c ≡ true → Keeps (On p) (call c f)
  Keeps-plain A c f h = Keeps-unmarked A c f (is_plain-unmarked c h)

pub Keeps-buffers :
    (W : Type 0) (p : Bool → Bool → List Payload → Bool → Bool) (events : List StreamEvent)
    → Keeps (On {W = W} p) (set_buffer events)
unfolding Keeps set_buffer
Keeps-buffers W p events s k = k

-- What the two variables say of the marks.
abbrev pub agrees_with : Bool → Bool → List Payload → Bool
agrees_with false false [] = true
agrees_with true false (Payload.run_started a b v ∷ []) = true
agrees_with true true (Payload.run_done d e ∷ Payload.run_started a b v ∷ []) = true
agrees_with _ _ _ = false

abbrev none_of : List Payload → Bool
none_of [] = true
none_of _ = false

-- Before the first event, before the last one, at any time, and at the end.
abbrev pub fresh : Bool → Bool → List Payload → Bool → Bool
fresh started done ps f = not started && not done && none_of ps

abbrev pub opened : Bool → Bool → Bool → List Payload → Bool → Bool
opened v1 started done ps f = agrees_with started done ps && not done && (not started || v1)

abbrev pub sound : Bool → Bool → Bool → List Payload → Bool → Bool
sound v1 started done ps f = agrees_with started done ps && (not started || v1)

abbrev pub ended : Bool → Bool → Bool → List Payload → Bool → Bool
ended v1 started done ps f =
    agrees_with started done ps && (not started || v1) && (not started || done || f)

pub fresh-opened :
    (v1 s d : Bool) (ps : List Payload) (f : Bool)
    → fresh s d ps f ≡ true
    → opened v1 s d ps f ≡ true
fresh-opened v1 false false [] f h = refl
fresh-opened v1 s d ps f h = ground arith

pub opened-sound :
    (v1 s d : Bool) (ps : List Payload) (f : Bool)
    → opened v1 s d ps f ≡ true
    → sound v1 s d ps f ≡ true
opened-sound v1 s d ps f h = ground arith

pub ended-sound :
    (v1 s d : Bool) (ps : List Payload) (f : Bool)
    → ended v1 s d ps f ≡ true
    → sound v1 s d ps f ≡ true
ended-sound v1 s d ps f h = ground arith

pub fresh-unstarted :
    (v1 s d : Bool) (ps : List Payload) (f : Bool)
    → fresh s d ps f ≡ true
    → opened v1 false d ps f ≡ true
fresh-unstarted v1 false false [] f h = refl
fresh-unstarted v1 s d ps f h = ground arith

pub fresh-sound :
    (v1 s d : Bool) (ps : List Payload) (f : Bool)
    → fresh s d ps f ≡ true
    → sound v1 s d ps f ≡ true
fresh-sound v1 s d ps f h = opened-sound v1 s d ps f (fresh-opened v1 s d ps f h)

pub started_next :
    (v1 s d : Bool) (ps : List Payload) (f : Bool) (i a : String) (v : ℕ)
    → v1 ≡ true
    → fresh s d ps f ≡ true
    → opened v1 true d (Payload.run_started i a v ∷ ps) f ≡ true
started_next v1 false false [] f i a v e h = rw e refl
started_next v1 false false (p ∷ ps) f i a v e h = ground arith
started_next v1 s d ps f i a v e h = ground arith

pub done_next :
    (v1 s d : Bool) (ps : List Payload) (f : Bool) (x : DoneStatus) (e : Option String)
    → sound v1 s d ps f ≡ true
    → (s && not d) ≡ true
    → ended v1 s true (Payload.run_done x e ∷ ps) f ≡ true
done_next v1 true false (Payload.run_started a b v ∷ []) f x e h k = ground arith
done_next v1 true false ps f x e h k = ground arith
done_next v1 s d ps f x e h k = ground arith

pub done_skip :
    (v1 s d : Bool) (ps : List Payload) (f : Bool)
    → sound v1 s d ps f ≡ true
    → (v1 && s && not d) ≡ false
    → ended v1 s d ps f ≡ true
done_skip v1 s d ps f h k = ground arith

pub done_lost :
    (v1 s d : Bool) (ps : List Payload) (f : Bool)
    → sound v1 s d ps f ≡ true
    → ended v1 s d ps true ≡ true
done_lost v1 s d ps f h = ground arith

abbrev pub Fresh : {W : Type 0} → State W → Type 0
Fresh = On fresh

abbrev pub Opened : {W : Type 0} → Bool → State W → Type 0
Opened v1 = On (opened v1)

abbrev pub Sound : {W : Type 0} → Bool → State W → Type 0
Sound v1 = On (sound v1)

abbrev pub Ended : {W : Type 0} → Bool → State W → Type 0
Ended v1 = On (ended v1)

pub Fresh-Sound : {W : Type 0} (v1 : Bool) (s : State W) → Fresh s → Sound v1 s
Fresh-Sound v1 s = fresh-sound v1 s.run_started_emitted s.run_done_emitted _ (done_failed s.trace)

pub Opened-Sound : {W : Type 0} (v1 : Bool) (s : State W) → Opened v1 s → Sound v1 s
Opened-Sound v1 s = opened-sound v1 s.run_started_emitted s.run_done_emitted _ (done_failed s.trace)

pub Ended-Sound : {W : Type 0} (v1 : Bool) (s : State W) → Ended v1 s → Sound v1 s
Ended-Sound v1 s = ended-sound v1 s.run_started_emitted s.run_done_emitted _ (done_failed s.trace)

pub Fresh-Opened : {W : Type 0} (v1 : Bool) (s : State W) → Fresh s → Opened v1 s
Fresh-Opened v1 s = fresh-opened v1 s.run_started_emitted s.run_done_emitted _ (done_failed s.trace)
