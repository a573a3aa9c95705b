-- ===== src/Orchestrator/Markers.antt =====
-- The first and the last event that a run writes itself, `data-openrush-run-started` and
-- `data-openrush-run-done` (packages/control-plane/src/run/run-orchestrator.ts): when they are written.
use open_rush.Prelude.{
  String, Bool, true, false, ◌&&◌, not, List, [], ◌∷◌, Option, none, some, ◌≡◌, refl, Bool-cases,
  Option-cases, inl, inr, arith,
}
use open_rush.Run.Service.{truthy}
use open_rush.Run.Db.{Run}
use open_rush.Orchestrator.World.{
  Outcome, returned, thrown, Outcome-cases, Env, AgentContext, DoneStatus, success, Payload, Call,
  CreateSandboxOptions, note_created, create_call, Deps, State, M, Method, call, set_sandbox,
  set_done, set_started, pure, ◌>>=◌, and_then, start,
}
use open_rush.Orchestrator.Keeps.{
  Keeps, Leads, Ends, Leads-Keeps, Leads-bind, Leads-catch, Leads-when, Ends-both, Keeps-pure,
  Keeps-if,
}
use open_rush.Orchestrator.Marks.{
  marks, done_failed, fresh, opened, ended, Fresh, Opened, Sound, Ended, Fresh-Sound, Fresh-Opened,
  Opened-Sound, Ended-Sound, Keeps-unmarked, Keeps-plain, Keeps-buffers, fresh-unstarted,
  fresh-sound, started_next, done_next, done_skip, done_lost,
}
use open_rush.Orchestrator.Steps.{
  Keeps-transition, Keeps-attempt, Keeps-finalize, Keeps-prepare_agent, Keeps-issue_grant,
  Keeps-restore_parent, Keeps-endpoint_url, Keeps-emit_usage, Leads-revoke_tokens,
  Leads-release_lock, Keeps-consume_stream,
}
use open_rush.Orchestrator.Stream.{append_event}
use open_rush.Orchestrator.Execute.{
  error_of, emit_run_started, emit_run_done, start_events, emit_done_once, emit_success,
  run_in_sandbox, try_body, on_error, destroy_id, destroy_sandbox, finally_body, execute_run,
  execute_found, execute,
}

module _ {W : Type 0} (deps : Deps W) (i : String) where
  emit_started-Opened :
      (agent : String) (run : Option Run) (s : State W)
      → deps.v1_events_enabled ≡ true
      → Fresh s
      → let r = (emit_run_started deps i agent run >>= set_started) s in
        Ends (Opened deps.v1_events_enabled) (Sound deps.v1_events_enabled) (r.0) (r.1)
  unfolding emit_run_started append_event call marks done_failed ◌>>=◌ and_then set_started pure
      Ends
  emit_started-Opened agent none s e h =
      fresh-unstarted deps.v1_events_enabled s.run_started_emitted _ _ (done_failed s.trace) h
  emit_started-Opened agent (some run) s e h = elim (Option-cases run.agent_definition_version) [
    | inl absent ↦
        rw absent
          (fresh-unstarted deps.v1_events_enabled s.run_started_emitted _ _ (done_failed s.trace) h)
    | inr (v, found) ↦
        elim (Outcome-cases ((deps.append i (Payload.run_started i agent v) none s.world).0)) [
          | inl (a, written) ↦
              rw (found, written)
                (started_next _ s.run_started_emitted _ _ (done_failed s.trace) i agent v e h)
          | inr (m, lost) ↦
              rw (found, lost) (fresh-sound _ s.run_started_emitted _ _ (done_failed s.trace) h)
        ]
  ]

  -- The state after the call that writes a last event.
  done_written :
      (R : State W → Type 0) (x : DoneStatus) (e : Option String) (s : State W)
      → ((t : State W) → Ended deps.v1_events_enabled t → R t)
      → Sound deps.v1_events_enabled s
      → (s.run_started_emitted && not s.run_done_emitted) ≡ true
      → let r = (emit_run_done deps i x e >>= λ _. set_done) s in
        Ends (Ended deps.v1_events_enabled) R (r.0) (r.1)
  unfolding emit_run_done append_event call marks done_failed ◌>>=◌ and_then set_done Ends
  done_written R x e s weaker h k =
      elim (Outcome-cases ((deps.append i (Payload.run_done x (error_of e)) none s.world).0)) [
        | inl (a, written) ↦ rw written (
            done_next _ s.run_started_emitted s.run_done_emitted (marks s.trace) _ x (error_of e) h
              k)
        | inr (m, lost) ↦
            rw lost (weaker _ (done_lost _ s.run_started_emitted _ _ (done_failed s.trace) h))
      ]

  emit_done_once-Ended :
      (x : DoneStatus) (e : Option String)
      → Leads
          (Sound deps.v1_events_enabled)
          (Ended deps.v1_events_enabled)
          (Ended deps.v1_events_enabled)
          (emit_done_once deps i x e)
  unfolding emit_done_once Leads Ends pure
  emit_done_once-Ended x e s h =
      elim (Bool-cases
        (deps.v1_events_enabled && s.run_started_emitted && not s.run_done_emitted)) [
          | inl go ↦
              rw go (done_written (Ended deps.v1_events_enabled) x e s (λ t k. k) h (ground arith))
          | inr skip ↦ rw skip (done_skip _ s.run_started_emitted s.run_done_emitted _ _ h skip)
        ]

  emit_success-Ended :
      Leads
        (Opened deps.v1_events_enabled)
        (Ended deps.v1_events_enabled)
        (Sound deps.v1_events_enabled)
        (emit_success deps i)
  unfolding emit_success Leads Ends pure
  emit_success-Ended s h = elim (Bool-cases (deps.v1_events_enabled && s.run_started_emitted)) [
    | inl go ↦ rw go (
        done_written (Sound deps.v1_events_enabled) success none s
          (λ t. Ended-Sound deps.v1_events_enabled t) (Opened-Sound deps.v1_events_enabled s h)
          (ground arith))
    | inr skip ↦ rw skip (
        done_skip _ s.run_started_emitted s.run_done_emitted _ _
          (Opened-Sound deps.v1_events_enabled s h) (ground arith))
  ]

  pure-Opened :
      Leads {W = W} Fresh
        (Opened deps.v1_events_enabled)
        (Sound deps.v1_events_enabled)
        (pure (tt {0}))
  unfolding Leads pure Ends
  pure-Opened s h = Fresh-Opened deps.v1_events_enabled s h

  emit_started-leads :
      (agent : String) (run : Option Run)
      → deps.v1_events_enabled ≡ true
      → Leads Fresh
          (Opened deps.v1_events_enabled)
          (Sound deps.v1_events_enabled)
          (emit_run_started deps i agent run >>= set_started)
  unfolding Leads
  emit_started-leads agent run on s h = emit_started-Opened agent run s on h

  start_events-Opened :
      (agent : String) (run : Option Run)
      → Leads Fresh
          (Opened deps.v1_events_enabled)
          (Sound deps.v1_events_enabled)
          (start_events deps i agent run)
  unfolding start_events
  start_events-Opened agent run =
      Leads-when _ _ _ deps.v1_events_enabled _ (λ on. emit_started-leads agent run on)
        (λ off. pure-Opened)

  -- A stage before the first event, one before the last, and one after it.
  before :
      {A : Type 0} (m : M W A) → Keeps Fresh m → Leads Fresh Fresh (Sound deps.v1_events_enabled) m
  before m = Leads-Keeps Fresh Fresh _ m (λ t. Fresh-Sound _ t)

  between :
      {A : Type 0} (m : M W A)
      → Keeps (Opened deps.v1_events_enabled) m
      → Leads
          (Opened deps.v1_events_enabled)
          (Opened deps.v1_events_enabled)
          (Sound deps.v1_events_enabled)
          m
  between m =
      Leads-Keeps _ (Opened deps.v1_events_enabled) _ m (λ t. Opened-Sound deps.v1_events_enabled t)

  after :
      {A : Type 0} (m : M W A)
      → Keeps (Ended deps.v1_events_enabled) m
      → Leads
          (Ended deps.v1_events_enabled)
          (Ended deps.v1_events_enabled)
          (Sound deps.v1_events_enabled)
          m
  after m =
      Leads-Keeps _ (Ended deps.v1_events_enabled) _ m (λ t. Ended-Sound deps.v1_events_enabled t)

  run_in_sandbox-Ended :
      (prompt agent : String) (run : Option Run) (context : Option AgentContext) (env : Option Env)
      (sandbox : String)
      → Leads Fresh
          (Ended deps.v1_events_enabled)
          (Sound deps.v1_events_enabled)
          (run_in_sandbox deps i prompt agent run context env sandbox)
  unfolding run_in_sandbox
  run_in_sandbox-Ended prompt agent run context env sandbox =
      Leads-bind _ _ _ _ _ _
        (before _ (Keeps-transition _ (Keeps-plain fresh) (Keeps-buffers W fresh) deps i _ _))
        (λ _. Leads-bind _ _ _ _ _ _ (before _ (Keeps-plain fresh _ _ _ refl)) (λ _.
          Leads-bind _ _ _ _ _ _
            (before _
              (Keeps-restore_parent _ (Keeps-plain fresh) (Keeps-buffers W fresh) deps i run))
            (λ restored.
              Leads-bind _ _ _ _ _ _
                (before _
                  (Keeps-endpoint_url _ (Keeps-plain fresh) (Keeps-buffers W fresh) deps i sandbox))
                (λ url.
                  Leads-bind _ _ _ _ _ _
                    (before _
                      (Keeps-transition _ (Keeps-plain fresh) (Keeps-buffers W fresh) deps i _ _))
                    (λ _. Leads-bind _ _ _ _ _ _ (start_events-Opened agent run) (λ _.
                      Leads-bind _ _ _ _ _ _
                        (between _ (Keeps-plain (opened deps.v1_events_enabled) _ _ _ refl))
                        (λ reads.
                          Leads-bind _ _ _ _ _ _
                            (between _ (
                              Keeps-consume_stream _ (Keeps-plain (opened deps.v1_events_enabled))
                                (Keeps-buffers W (opened deps.v1_events_enabled)) deps i reads))
                            (λ _.
                              Leads-bind _ _ _ _ _ _
                                (between _ (
                                  Keeps-emit_usage _ (Keeps-plain (opened deps.v1_events_enabled))
                                    (Keeps-buffers W (opened deps.v1_events_enabled)) deps i))
                                (λ _. Leads-bind _ _ _ _ _ _ emit_success-Ended (λ _. after _ (
                                  Keeps-finalize _ (Keeps-plain (ended deps.v1_events_enabled))
                                    (Keeps-buffers W (ended deps.v1_events_enabled)) deps
                                    i)))))))))))

  note_created-Fresh : (r : Outcome String) (s : State W) → Fresh s → Fresh (note_created r s)
  note_created-Fresh (returned a) s h = h
  note_created-Fresh (thrown e) s h = h

  create_call-Fresh :
      (o : CreateSandboxOptions) (f : Method W String) → Keeps (Fresh {W = W}) (create_call o f)
  unfolding Keeps create_call
  create_call-Fresh o f s h =
      note_created-Fresh ((call (Call.create_sandbox_call o) f s).0) _
        (Keeps-unmarked fresh _ (Call.create_sandbox_call o) f refl s h)

  create_sandbox-before :
      (o : CreateSandboxOptions) (f : Method W String)
      → Leads Fresh Fresh (Sound deps.v1_events_enabled) (create_call o f)
  create_sandbox-before o f = before _ (create_call-Fresh o f)

  set_sandbox-before :
      (sandbox : String)
      → Leads {W = W} Fresh Fresh (Sound deps.v1_events_enabled) (set_sandbox sandbox)
  unfolding set_sandbox Leads Ends
  set_sandbox-before sandbox s h = h

  try_body-Ended :
      (prompt agent : String) (run : Option Run)
      → Leads Fresh
          (Ended deps.v1_events_enabled)
          (Sound deps.v1_events_enabled)
          (try_body deps i prompt agent run)
  unfolding try_body
  try_body-Ended prompt agent run =
      Leads-bind _ _ _ _ _ _
        (before _ (Keeps-transition _ (Keeps-plain fresh) (Keeps-buffers W fresh) deps i _ _))
        (λ _.
          Leads-bind _ _ _ _ _ _
            (before _
              (Keeps-prepare_agent _ (Keeps-plain fresh) (Keeps-buffers W fresh) deps i agent))
            (λ context.
              Leads-bind _ _ _ _ _ _
                (before _ (
                  Keeps-issue_grant _ (Keeps-plain fresh) (Keeps-buffers W fresh) deps i agent
                    context))
                (λ grant. Leads-bind _ _ _ _ _ _ (create_sandbox-before _ _) (λ sandbox.
                  Leads-bind _ _ _ _ _ _ (set_sandbox-before sandbox)
                    (λ _. run_in_sandbox-Ended prompt agent run context _ sandbox)))))

  Ended-Keeps :
      {A : Type 0} (m : M W A)
      → Keeps (Ended deps.v1_events_enabled) m
      → Leads
          (Ended deps.v1_events_enabled)
          (Ended deps.v1_events_enabled)
          (Ended deps.v1_events_enabled)
          m
  Ended-Keeps m = Leads-Keeps _ (Ended deps.v1_events_enabled) _ m (λ t h. h)

  on_error-Ended :
      (message : String)
      → Leads
          (Sound deps.v1_events_enabled)
          (Ended deps.v1_events_enabled)
          (Ended deps.v1_events_enabled)
          (on_error deps i message)
  unfolding on_error
  on_error-Ended message =
      Leads-bind _ _ _ _ _ _
        (Leads-catch _ _ _ _ _ _ (emit_done_once-Ended _ (some message))
          (λ e. Ended-Keeps _ (Keeps-pure _ tt)))
        (λ _. Ended-Keeps _ (
          Keeps-attempt _ (Keeps-plain (ended deps.v1_events_enabled))
            (Keeps-buffers W (ended deps.v1_events_enabled)) deps i _
            (Keeps-transition _ (Keeps-plain (ended deps.v1_events_enabled))
              (Keeps-buffers W (ended deps.v1_events_enabled)) deps i _ _)))

  destroy_id-Keeps :
      (o : Option String) → Keeps (Ended deps.v1_events_enabled) (destroy_id deps i o)
  unfolding destroy_id
  destroy_id-Keeps none = Keeps-pure _ tt
  destroy_id-Keeps (some j) =
      Keeps-if (Ended deps.v1_events_enabled) (truthy (some j)) _ _
        (Keeps-attempt _ (Keeps-plain (ended deps.v1_events_enabled))
          (Keeps-buffers W (ended deps.v1_events_enabled)) deps i _
          (Keeps-unmarked (ended deps.v1_events_enabled) _ _ _ refl))
        (Keeps-pure _ tt)

  destroy_sandbox-Keeps : Keeps (Ended deps.v1_events_enabled) (destroy_sandbox deps i)
  unfolding destroy_sandbox Keeps
  destroy_sandbox-Keeps s h = destroy_id-Keeps s.sandbox_id s h

  finally_body-Ended :
      Leads
        (Ended deps.v1_events_enabled)
        (Ended deps.v1_events_enabled)
        (Ended deps.v1_events_enabled)
        (finally_body deps i)
  unfolding finally_body
  finally_body-Ended =
      Leads-bind _ _ _ _ _ _
        (Leads-revoke_tokens _ (Keeps-plain (ended deps.v1_events_enabled))
          (Keeps-buffers W (ended deps.v1_events_enabled)) deps i _)
        (λ _.
          Leads-bind _ _ _ _ _ _
            (Leads-release_lock _ (Keeps-plain (ended deps.v1_events_enabled))
              (Keeps-buffers W (ended deps.v1_events_enabled)) deps i _)
            (λ _. Ended-Keeps _ destroy_sandbox-Keeps))

  execute_run-Ended :
      (prompt agent : String) (run : Option Run)
      → Leads Fresh
          (Ended deps.v1_events_enabled)
          (Ended deps.v1_events_enabled)
          (execute_run deps i prompt agent run)
  unfolding execute_run
  execute_run-Ended prompt agent run =
      Leads-bind _ _ _ _ _ _
        (Leads-catch _ _ _ _ _ _ (try_body-Ended prompt agent run) (λ e. on_error-Ended e))
        (λ _. finally_body-Ended)

  execute_run-state :
      (prompt agent : String) (run : Option Run) (s : State W)
      → Fresh s
      → Ended deps.v1_events_enabled ((execute_run deps i prompt agent run s).1)
  unfolding Leads
  execute_run-state prompt agent run s h =
      Ends-both (Ended deps.v1_events_enabled) _ _ (execute_run-Ended prompt agent run s h)

-- The marks of a run that is over: none; the first event alone, only if the writing of a last one
-- failed; or the first event and then one last event.
abbrev pub is_well_marked : List Payload → Bool → Bool
is_well_marked [] failed = true
is_well_marked (Payload.run_started i a v ∷ []) failed = failed
is_well_marked (Payload.run_done d e ∷ Payload.run_started i a v ∷ []) failed = true
is_well_marked ps failed = false

ended-is_well_marked :
    (v1 s d : Bool) (ps : List Payload) (f : Bool)
    → ended v1 s d ps f ≡ true
    → is_well_marked ps f ≡ true
ended-is_well_marked v1 true false (Payload.run_started i a v ∷ []) f h = ground arith
ended-is_well_marked v1 s d ps f h = ground arith

execute_found-is_well_marked :
    {W : Type 0} (deps : Deps W) (i prompt agent : String) (found : Outcome (Option Run)) (w : W)
    → let trace = ((execute_found deps i prompt agent found w).1).trace in
      is_well_marked (marks trace) (done_failed trace) ≡ true
unfolding execute_found marks
execute_found-is_well_marked deps i prompt agent (thrown e) w = refl
execute_found-is_well_marked deps i prompt agent (returned run) w =
    let s = (execute_run deps i prompt agent run (start w)).1 in
    ended-is_well_marked deps.v1_events_enabled s.run_started_emitted s.run_done_emitted _ _
      (execute_run-state deps i prompt agent run (start w) refl)

-- Whatever a run's dependencies do, each of their calls returning or throwing, `execute` writes
-- `run-started` at most once, `run-done` at most once and never before `run-started`; where
-- `run-started` was written and `run-done` was not, the writing of a `run-done` was tried and
-- failed. (Marks are the events that were written, the last one first; chunks of the worker are no
-- marks.)
pub execute-is_well_marked :
    {W : Type 0} (deps : Deps W) (run_id prompt agent_id : String) (w : W)
    → let trace = ((execute deps run_id prompt agent_id w).1).trace in
      is_well_marked (marks trace) (done_failed trace) ≡ true
unfolding execute
execute-is_well_marked deps i prompt agent w =
    execute_found-is_well_marked deps i prompt agent ((deps.get_by_id i w).0)
      ((deps.get_by_id i w).1)
