-- ===== src/Orchestrator/Steps.antt =====
-- What every stage of `execute` keeps, if the calls that are no mark keep it (run-orchestrator.ts).
use text.Mathlib.Text.{◌==◌ as str_beq, starts_with}
use open_rush.Prelude.{
  ◌+◌, ℕ, String, Bool, true, false, List, [], ◌∷◌, Option, none, some, ◌≡◌, refl,
}
use open_rush.Run.Status.{RunStatus}
use open_rush.Run.Db.{Run, RunUpdates}
use open_rush.Run.Service.{truthy}
use open_rush.Orchestrator.World.{
  Outcome, returned, thrown, AgentContext, Payload, Call, Deps, StreamEvent, State, M, Method, call,
  set_buffer, get_buffer, attempt,
}
use open_rush.Orchestrator.Keeps.{
  Keeps, Leads, Leads-given, Leads-pure, Leads-attempt, Keeps-pure, Keeps-throw, Keeps-bind,
  Keeps-catch, Keeps-when, Keeps-given, Keeps-if,
}
use open_rush.Orchestrator.Stream.{
  append_event, save_event, save_each, incremental_save, error_handler, process, middlewares,
  consume_line, consume_lines, consume_reads, consume_stream, chunk_type, slice_from,
}
use open_rush.Orchestrator.Execute.{
  truthy_or_throw, transition, prepare_agent, issue_grant, try_restore_checkpoint, restore_parent,
  endpoint_url, emit_usage, create_checkpoint, finalize, revoke_tokens, release_lock,
}

-- The calls other than a sandbox's creation and destruction and the orchestrator's own first and last event.
abbrev pub is_plain : Call → Bool
is_plain (Call.create_sandbox_call options) = false
is_plain (Call.destroy_sandbox_call j) = false
is_plain (Call.append_call i (Payload.run_started a b v) n) = false
is_plain (Call.append_call i (Payload.run_done d e) n) = false
is_plain _ = true

module _ {W : Type 0} (I : State W → Type 0)
    (plain : (A : Type 0) (c : Call) (f : Method W A) → is_plain c ≡ true → Keeps I (call c f))
    (buffers : (events : List StreamEvent) → Keeps I (set_buffer events)) (deps : Deps W)
    (i : String) where
  pub Keeps-transition : (to : RunStatus) (u : RunUpdates) → Keeps I (transition deps i to u)
  unfolding transition
  Keeps-transition to u = Keeps-bind I _ _ (plain _ _ _ refl) (λ r. Keeps-pure I tt)

  pub Keeps-attempt : (m : M W (Unit {0})) → Keeps I m → Keeps I (attempt m)
  Keeps-attempt m k = Keeps-catch I m _ k (λ e. Keeps-pure I tt)

  Keeps-create_checkpoint : Keeps I (create_checkpoint deps i)
  unfolding create_checkpoint
  Keeps-create_checkpoint =
      Keeps-given I deps.checkpoint_service _ _ (Keeps-pure I tt) (λ checkpoints. Keeps-attempt _ (
        Keeps-bind I _ _ (plain _ _ _ refl)
          (λ events. Keeps-bind I _ _ (plain _ _ _ refl) (λ last. plain _ _ _ refl))))

  pub Keeps-finalize : Keeps I (finalize deps i)
  unfolding finalize
  Keeps-finalize = Keeps-bind I _ _ (Keeps-transition _ _) (λ _.
      Keeps-bind I _ _ Keeps-create_checkpoint (λ _. Keeps-bind I _ _ (Keeps-transition _ _) (λ _.
        Keeps-bind I _ _ (Keeps-transition _ _) (λ _.
          Keeps-bind I _ _ (Keeps-transition _ _)
            (λ _. Keeps-bind I _ _ (Keeps-transition _ _) (λ _. Keeps-transition _ _))))))

  Keeps-truthy_or_throw :
      (message : String) (value : Option String) → Keeps I (truthy_or_throw deps i message value)
  unfolding truthy_or_throw
  Keeps-truthy_or_throw message none = Keeps-throw I _ _
  Keeps-truthy_or_throw message (some v) =
      Keeps-if I (truthy (some v)) _ _ (Keeps-pure I v) (Keeps-throw I _ _)

  pub Keeps-prepare_agent : (agent_id : String) → Keeps I (prepare_agent deps i agent_id)
  unfolding prepare_agent
  Keeps-prepare_agent agent_id = Keeps-given I deps.agent_executor _ _ (Keeps-pure I none) (λ f.
      Keeps-given I deps.resolve_project_id_for_agent _ _ (Keeps-pure I none) (λ resolve.
        Keeps-bind I _ _ (plain _ _ _ refl) (λ project.
          Keeps-bind I _ _ (Keeps-truthy_or_throw _ project) (λ project_id.
            Keeps-bind I _ _ (plain _ _ _ refl) (λ context. Keeps-pure I (some context))))))

  pub Keeps-issue_grant :
      (agent_id : String) (context : Option AgentContext)
      → Keeps I (issue_grant deps i agent_id context)
  unfolding issue_grant
  Keeps-issue_grant agent_id none = Keeps-pure I none
  Keeps-issue_grant agent_id (some context) =
      Keeps-given I deps.llm_access _ _ (Keeps-pure I none)
        (λ llm. Keeps-bind I _ _ (plain _ _ _ refl) (λ grant. Keeps-pure I (some grant)))

  Keeps-try_restore : (parent : String) → Keeps I (try_restore_checkpoint deps i parent)
  unfolding try_restore_checkpoint
  Keeps-try_restore parent =
      Keeps-given I deps.checkpoint_service _ _ (Keeps-pure I none) (λ checkpoints.
        Keeps-catch I _ _ (Keeps-bind I _ _ (plain _ _ _ refl) (λ found. Keeps-pure I _))
          (λ e. Keeps-pure I none))

  pub Keeps-restore_parent : (run : Option Run) → Keeps I (restore_parent deps i run)
  unfolding restore_parent
  Keeps-restore_parent none = Keeps-pure I none
  Keeps-restore_parent (some run) =
      Keeps-if I (truthy run.parent_run_id) _ _
        (Keeps-given I run.parent_run_id _ _ (Keeps-pure I none)
          (λ parent. Keeps-try_restore parent))
        (Keeps-pure I none)

  pub Keeps-endpoint_url : (sandbox : String) → Keeps I (endpoint_url deps i sandbox)
  unfolding endpoint_url
  Keeps-endpoint_url sandbox =
      Keeps-bind I _ _
        (Keeps-given I deps.dev_agent_worker_url _ _ (plain _ _ _ refl) (λ url. Keeps-pure I _))
        (λ found. Keeps-truthy_or_throw _ found)

  pub Keeps-emit_usage : Keeps I (emit_usage deps i)
  unfolding emit_usage append_event
  Keeps-emit_usage = Keeps-given I deps.llm_access _ _ (Keeps-pure I tt) (λ llm.
      Keeps-when I deps.v1_events_enabled _ (
        Keeps-attempt _ (
          Keeps-bind I _ _ (plain _ _ _ refl)
            (λ usage. Keeps-given I usage _ _ (Keeps-pure I tt) (λ u. plain _ _ _ refl)))))

  pub Leads-revoke_tokens : (R : State W → Type 0) → Leads I I R (revoke_tokens deps i)
  unfolding revoke_tokens
  Leads-revoke_tokens R =
      Leads-given I R deps.llm_access _ _ (Leads-pure I R tt)
        (λ llm. Leads-attempt I R _ (Keeps-bind I _ _ (plain _ _ _ refl) (λ n. Keeps-pure I tt)))

  pub Leads-release_lock : (R : State W → Type 0) → Leads I I R (release_lock deps i)
  unfolding release_lock
  Leads-release_lock R =
      Leads-given I R deps.release_task_lock _ _ (Leads-pure I R tt)
        (λ release. Leads-attempt I R _ (plain _ _ _ refl))

  Keeps-save_event : (e : StreamEvent) → Keeps I (save_event deps i e)
  unfolding save_event append_event
  Keeps-save_event e = plain _ _ _ refl

  Keeps-save_each :
      (f : StreamEvent → M W (Unit {0}))
      → ((e : StreamEvent) → Keeps I (f e))
      → (batch : List StreamEvent) → Keeps I (save_each f batch)
  unfolding save_each
  Keeps-save_each f k [] = Keeps-pure I tt
  Keeps-save_each f k (e ∷ batch) = Keeps-bind I _ _ (k e) (λ _. Keeps-save_each f k batch)

  Keeps-get_buffer : Keeps I get_buffer
  unfolding get_buffer Keeps
  Keeps-get_buffer s h = h

  Keeps-process : (e : StreamEvent) → Keeps I (process (middlewares deps i) e)
  unfolding process middlewares incremental_save error_handler
  Keeps-process e = Keeps-bind I _ _ Keeps-get_buffer (λ before. Keeps-bind I _ _ (buffers _) (λ _.
      Keeps-bind I _ _
        (Keeps-when I _ _
          (Keeps-bind I _ _ (buffers []) (λ _. Keeps-save_each _ Keeps-save_event _)))
        (λ _. Keeps-attempt _ (Keeps-pure I tt))))

  Keeps-consume_line : (seq : ℕ) (line : String) → Keeps I (consume_line deps i seq line)
  unfolding consume_line chunk_type
  Keeps-consume_line seq line =
      Keeps-if I (starts_with line "data: ") _ _
        (Keeps-if I (str_beq (slice_from 6 line) "[DONE]") _ _ (Keeps-pure I seq) (
          Keeps-given I (deps.parse_json (slice_from 6 line)) _ _ (Keeps-pure I seq) (λ value.
            Keeps-given I (chunk_type value) _ _ (Keeps-pure I seq) (λ type.
              Keeps-bind I _ _ (Keeps-attempt _ (Keeps-process _)) (λ _. Keeps-pure I (seq + 1))))))
        (Keeps-pure I seq)

  Keeps-consume_lines : (seq : ℕ) (lines : List String) → Keeps I (consume_lines deps i seq lines)
  unfolding consume_lines
  Keeps-consume_lines seq [] = Keeps-pure I seq
  Keeps-consume_lines seq (line ∷ lines) =
      Keeps-bind I _ _ (Keeps-consume_line seq line) (λ seq'. Keeps-consume_lines seq' lines)

  Keeps-consume_reads :
      (reads : List (Outcome String)) (buffer : String) (seq : ℕ)
      → Keeps I (consume_reads deps i buffer seq reads)
  unfolding consume_reads
  Keeps-consume_reads [] buffer seq = Keeps-pure I tt
  Keeps-consume_reads (thrown e ∷ reads) buffer seq = Keeps-throw I _ _
  Keeps-consume_reads (returned value ∷ reads) buffer seq =
      Keeps-bind I _ _ (Keeps-consume_lines seq _) (λ seq'. Keeps-consume_reads reads _ seq')

  pub Keeps-consume_stream : (reads : List (Outcome String)) → Keeps I (consume_stream deps i reads)
  unfolding consume_stream
  Keeps-consume_stream reads = Keeps-bind I _ _ (buffers []) (λ _. Keeps-consume_reads reads "" 0)
