-- ===== src/Orchestrator/Cleanup.antt =====
-- What `execute` leaves behind: the sandbox, the tokens and the lock of the task
-- (packages/control-plane/src/run/run-orchestrator.ts).
use open_rush.Prelude.{
  String, Bool, true, false, ◌&&◌, not, List, [], ◌∷◌, Option, none, some, ◌≡◌, refl, Bool-cases,
  inl, inr, arith, ◌==◌, ==-eq, string_eq, eq_iff,
}
use mathlib.Core.Path.{subst}
use open_rush.Run.Service.{truthy}
use open_rush.Run.Db.{Run}
use open_rush.Orchestrator.World.{
  Outcome-cases, CreateSandboxOptions, Env, AgentContext, DoneStatus, success, Call, Deps,
  StreamEvent, State, M, Method, call, create_call, and_then, set_buffer, set_sandbox, set_done,
  set_started, pure, ◌>>=◌, has_returned, attempt, catch, or_catch, start,
}
use open_rush.Orchestrator.Keeps.{
  Keeps, Leads, Ends, Leads-Keeps, Leads-bind, Leads-catch, Keeps-pure, Keeps-bind, Keeps-given,
  Keeps-when, Leads-attempt, Never, Ends-returned,
}
use open_rush.Orchestrator.Steps.{
  is_plain, Keeps-transition, Keeps-finalize, Keeps-prepare_agent, Keeps-issue_grant,
  Keeps-restore_parent, Keeps-endpoint_url, Keeps-emit_usage, Leads-revoke_tokens,
  Leads-release_lock, Keeps-consume_stream,
}
use open_rush.Orchestrator.Stream.{append_event}
use open_rush.Orchestrator.Execute.{
  emit_run_started, emit_run_done, start_events, emit_done_once, emit_success, run_in_sandbox,
  try_body, on_error, destroy_id, destroy_sandbox, finally_body, execute_run,
}

-- The ids of the sandboxes whose destruction was asked for.
abbrev pub add_destroyed : Call → List String → List String
add_destroyed (Call.destroy_sandbox_call j) ids = j ∷ ids
add_destroyed _ ids = ids

unfoldable pub destroyed : List (Call × Bool) → List String
destroyed [] = []
destroyed ((c, b) ∷ trace) = add_destroyed c (destroyed trace)

abbrev is_kept : Call → Bool
is_kept (Call.destroy_sandbox_call j) = false
is_kept _ = true

add_destroyed-kept : (c : Call) (ids : List String) → is_kept c ≡ true → add_destroyed c ids ≡ ids
add_destroyed-kept (Call.destroy_sandbox_call j) ids h = ground arith
add_destroyed-kept _ ids h = refl

is_plain-kept : (c : Call) → is_plain c ≡ true → is_kept c ≡ true
is_plain-kept (Call.destroy_sandbox_call j) h = ground arith
is_plain-kept _ h = refl

-- A predicate on the variable `sandboxId`, the ids that were created and those to be destroyed.
abbrev On : {W : Type 0} → (Option String → List String → List String → Bool) → State W → Type 0
On p s = p s.sandbox_id s.created_ids (destroyed s.trace) ≡ true

-- Before the creation, and after it with its id in the variable.
abbrev before : Option String → List String → List String → Bool
before none [] [] = true
before _ _ _ = false

abbrev matched : Option String → List String → List String → Bool
matched none [] [] = true
matched (some j) (k ∷ []) [] = k == j
matched _ _ _ = false

-- Of the ids that were created and those to be destroyed: none was created, or the one that was is
-- destroyed once and nothing else is, unless it is the empty text.
abbrev pub is_cleaned_up : List String → List String → Bool
is_cleaned_up [] [] = true
is_cleaned_up (j ∷ []) [] = not (truthy (some j))
is_cleaned_up (j ∷ []) (k ∷ []) = truthy (some j) && k == j
is_cleaned_up _ _ = false

abbrev cleaned : Option String → List String → List String → Bool
cleaned o made gone = is_cleaned_up made gone

before-matched :
    (o : Option String) (made gone : List String)
    → before o made gone ≡ true
    → matched o made gone ≡ true
before-matched none [] [] h = refl
before-matched o made gone h = ground arith

named_next :
    (j : String) (o : Option String) (made gone : List String)
    → before o made gone ≡ true
    → matched (some j) (j ∷ made) gone ≡ true
named_next j none [] [] h = ground (arith, eq_iff j j)
named_next j o made gone h = ground arith

module _ {W : Type 0} (p : Option String → List String → List String → Bool) where
  kept : (A : Type 0) (c : Call) (f : Method W A) → is_kept c ≡ true → Keeps (On p) (call c f)
  unfolding Keeps call destroyed
  kept A c f h s k = rw (add_destroyed-kept c (destroyed s.trace) h) k

  plain : (A : Type 0) (c : Call) (f : Method W A) → is_plain c ≡ true → Keeps (On p) (call c f)
  plain A c f h = kept A c f (is_plain-kept c h)

buffers :
    (W : Type 0) (p : Option String → List String → List String → Bool) (events : List StreamEvent)
    → Keeps (On {W = W} p) (set_buffer events)
unfolding Keeps set_buffer
buffers W p events s k = k

none_cleaned :
    (o : Option String) (made gone : List String)
    → matched o made gone ≡ true
    → o ≡ none
    → is_cleaned_up made gone ≡ true
none_cleaned none [] [] h e = refl
none_cleaned o made gone h e = ground arith

empty_cleaned :
    (j : String) (made gone : List String)
    → matched (some j) made gone ≡ true
    → truthy (some j) ≡ false
    → is_cleaned_up made gone ≡ true
empty_cleaned j (k ∷ []) [] h t = rw (==-eq k j h, t) refl
empty_cleaned j made gone h t = ground arith

cleaned_next :
    (j : String) (made gone : List String)
    → matched (some j) made gone ≡ true
    → truthy (some j) ≡ true
    → is_cleaned_up made (j ∷ gone) ≡ true
cleaned_next j (k ∷ []) [] h t = rw (==-eq k j h, t) (ground (arith, eq_iff j j))
cleaned_next j made gone h t = ground arith

matched_at :
    (o : Option String) (j : String) (made gone : List String)
    → matched o made gone ≡ true
    → o ≡ some j
    → matched (some j) made gone ≡ true
matched_at o j made gone h e = subst (λ p. matched p made gone ≡ true) e h

-- Every stage but the creation and the destruction keeps what is known of the sandbox.
module _ {W : Type 0} (p : Option String → List String → List String → Bool) (deps : Deps W)
    (i : String) where
  Keeps-set_started : (b : Bool) → Keeps (On {W = W} p) (set_started b)
  unfolding Keeps set_started
  Keeps-set_started b s h = h

  Keeps-set_done : Keeps (On {W = W} p) set_done
  unfolding Keeps set_done
  Keeps-set_done s h = h

  Keeps-start_events :
      (agent : String) (run : Option Run) → Keeps (On p) (start_events deps i agent run)
  unfolding start_events emit_run_started append_event
  Keeps-start_events agent none =
      Keeps-when _ deps.v1_events_enabled _
        (Keeps-bind _ _ _ (Keeps-pure _ false) Keeps-set_started)
  Keeps-start_events agent (some run) = Keeps-when _ deps.v1_events_enabled _ (
      Keeps-bind _ _ _
        (Keeps-given (On p) run.agent_definition_version _ _ (Keeps-pure _ false)
          (λ v. Keeps-bind _ _ _ (kept p _ _ _ refl) (λ _. Keeps-pure _ true)))
        Keeps-set_started)

  Keeps-emit_done :
      (x : DoneStatus) (e : Option String)
      → Keeps (On p) (emit_run_done deps i x e >>= λ _. set_done)
  unfolding emit_run_done append_event
  Keeps-emit_done x e = Keeps-bind _ _ _ (kept p _ _ _ refl) (λ _. Keeps-set_done)

  Keeps-emit_success : Keeps (On p) (emit_success deps i)
  unfolding emit_success Keeps
  Keeps-emit_success s h =
      Keeps-when (On p) (deps.v1_events_enabled && s.run_started_emitted) _
        (Keeps-emit_done success none) s h

  Keeps-emit_done_once :
      (x : DoneStatus) (e : Option String) → Keeps (On p) (emit_done_once deps i x e)
  unfolding emit_done_once Keeps
  Keeps-emit_done_once x e s h =
      Keeps-when (On p) (deps.v1_events_enabled && s.run_started_emitted && not s.run_done_emitted)
        _ (Keeps-emit_done x e) s h

  Keeps-run_in_sandbox :
      (prompt agent : String) (run : Option Run) (context : Option AgentContext) (env : Option Env)
      (sandbox : String)
      → Keeps (On p) (run_in_sandbox deps i prompt agent run context env sandbox)
  unfolding run_in_sandbox
  Keeps-run_in_sandbox prompt agent run context env sandbox =
      Keeps-bind _ _ _ (Keeps-transition _ (plain p) (buffers W p) deps i _ _) (λ _.
        Keeps-bind _ _ _ (plain p _ _ _ refl) (λ _.
          Keeps-bind _ _ _ (Keeps-restore_parent _ (plain p) (buffers W p) deps i run) (λ restored.
            Keeps-bind _ _ _ (Keeps-endpoint_url _ (plain p) (buffers W p) deps i sandbox) (λ url.
              Keeps-bind _ _ _ (Keeps-transition _ (plain p) (buffers W p) deps i _ _) (λ _.
                Keeps-bind _ _ _ (Keeps-start_events agent run) (λ _.
                  Keeps-bind _ _ _ (plain p _ _ _ refl) (λ reads.
                    Keeps-bind _ _ _ (Keeps-consume_stream _ (plain p) (buffers W p) deps i reads)
                      (λ _.
                        Keeps-bind _ _ _ (Keeps-emit_usage _ (plain p) (buffers W p) deps i) (λ _.
                          Keeps-bind _ _ _ Keeps-emit_success
                            (λ _. Keeps-finalize _ (plain p) (buffers W p) deps i))))))))))

module _ {W : Type 0} (deps : Deps W) (i : String) where
  early :
      {A : Type 0} (m : M W A) → Keeps (On before) m → Leads (On before) (On before) (On matched) m
  early m =
      Leads-Keeps (On before) (On before) _ m
        (λ s. before-matched s.sandbox_id s.created_ids (destroyed s.trace))

  -- The creation, the assignment of its id, and what follows.
  creation :
      (c : CreateSandboxOptions) (rest : String → M W (Unit {0}))
      → ((a : String) → Leads (On matched) (On matched) (On matched) (rest a))
      → Leads (On before) (On matched) (On matched) (
          create_call c (deps.create_sandbox c) >>= λ sandbox.
          set_sandbox sandbox >>= λ _. rest sandbox)
  unfolding Leads create_call call destroyed Ends ◌>>=◌ and_then set_sandbox
  creation c rest k s h = elim (Outcome-cases ((deps.create_sandbox c s.world).0)) [
    | inl (a, made) ↦ rw made (k a _ (named_next a s.sandbox_id s.created_ids _ h))
    | inr (e, lost) ↦ rw lost (before-matched s.sandbox_id s.created_ids _ h)
  ]

  try_body-matched :
      (prompt agent : String) (run : Option Run)
      → Leads (On before) (On matched) (On matched) (try_body deps i prompt agent run)
  unfolding try_body
  try_body-matched prompt agent run =
      Leads-bind _ _ _ _ _ _
        (early _ (Keeps-transition _ (plain before) (buffers W before) deps i _ _))
        (λ _.
          Leads-bind _ _ _ _ _ _
            (early _ (Keeps-prepare_agent _ (plain before) (buffers W before) deps i agent))
            (λ context.
              Leads-bind _ _ _ _ _ _
                (early _
                  (Keeps-issue_grant _ (plain before) (buffers W before) deps i agent context))
                (λ grant. creation _ _ (λ sandbox.
                  Leads-Keeps (On matched) (On matched) _ _ (λ s h. h)
                    (Keeps-run_in_sandbox matched deps i prompt agent run context _ sandbox)))))

  attempt_destroy-cleaned :
      (j : String) (s : State W)
      → s.sandbox_id ≡ some j
      → On matched s
      → truthy (some j) ≡ true
      → let r = attempt (call (Call.destroy_sandbox_call j) (deps.destroy j)) s in
        Ends (On cleaned) Never (r.0) (r.1)
  unfolding catch or_catch call destroyed pure Ends
  attempt_destroy-cleaned j s e h full = elim (Outcome-cases ((deps.destroy j s.world).0)) [
    | inl (a, gone) ↦ rw gone (cleaned_next j _ _ (matched_at s.sandbox_id j _ _ h e) full)
    | inr (m, lost) ↦ rw lost (cleaned_next j _ _ (matched_at s.sandbox_id j _ _ h e) full)
  ]

  destroy_id-cleaned :
      (o : Option String) (s : State W)
      → s.sandbox_id ≡ o
      → On matched s
      → Ends (On cleaned) Never ((destroy_id deps i o s).0) ((destroy_id deps i o s).1)
  unfolding destroy_id pure Ends
  destroy_id-cleaned none s e h = none_cleaned s.sandbox_id _ _ h e
  destroy_id-cleaned (some j) s e h = elim (Bool-cases (truthy (some j))) [
    | inl full ↦ rw full (attempt_destroy-cleaned j s e h full)
    | inr empty ↦ rw empty (empty_cleaned j _ _ (matched_at s.sandbox_id j _ _ h e) empty)
  ]

  destroy-Leads : Leads (On matched) (On cleaned) Never (destroy_sandbox deps i)
  unfolding Leads destroy_sandbox
  destroy-Leads s h = destroy_id-cleaned s.sandbox_id s refl h

  finally_body-cleaned : Leads (On matched) (On cleaned) Never (finally_body deps i)
  unfolding finally_body
  finally_body-cleaned =
      Leads-bind _ _ _ _ _ _ (Leads-revoke_tokens _ (plain matched) (buffers W matched) deps i _)
        (λ _.
          Leads-bind _ _ _ _ _ _ (Leads-release_lock _ (plain matched) (buffers W matched) deps i _)
            (λ _. destroy-Leads))

  on_error-matched :
      (message : String) → Leads (On matched) (On matched) Never (on_error deps i message)
  unfolding on_error
  on_error-matched message =
      Leads-bind _ _ _ _ _ _
        (Leads-attempt _ _ _ (Keeps-emit_done_once matched deps i _ (some message)))
        (λ _.
          Leads-attempt _ _ _ (Keeps-transition _ (plain matched) (buffers W matched) deps i _ _))

  execute_run-cleaned :
      (prompt agent : String) (run : Option Run)
      → Leads (On before) (On cleaned) Never (execute_run deps i prompt agent run)
  unfolding execute_run
  execute_run-cleaned prompt agent run =
      Leads-bind _ _ _ _ _ _
        (Leads-catch _ _ _ _ _ _ (try_body-matched prompt agent run) on_error-matched)
        (λ _. finally_body-cleaned)

-- A run whose row was read ends without an error, whatever its dependencies do, and with its
-- sandbox given back: either no creation of a sandbox returned, or exactly one did, and then
-- `destroy` was called once, with the id that the creation returned, and with no other id (not at
-- all where that id is the empty text).
pub execute_run_lem :
    {W : Type 0} (deps : Deps W) (run_id prompt agent_id : String) (run : Option Run) (w : W)
    → let (r, s) = execute_run deps run_id prompt agent_id run (start w) in
      (has_returned r ≡ true) × (is_cleaned_up s.created_ids (destroyed s.trace) ≡ true)
unfolding Leads destroyed
execute_run_lem deps i prompt agent run w =
    Ends-returned (On cleaned) _ _ (execute_run-cleaned deps i prompt agent run (start w) refl)
