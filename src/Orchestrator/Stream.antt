-- ===== src/Orchestrator/Stream.antt =====
-- The stream of the worker: `StreamPipeline` and `createIncrementalSave` of
-- packages/control-plane/src/run/stream-middleware.ts and `consumeStream` of run-orchestrator.ts.
-- What is logged is not modelled, so the two middlewares that log are the calls of `next` that
-- they make.
use Prim.Native.String
use Prim.Native.Char.{Char, code}
use text.Mathlib.Text.{◌==◌ as str_beq, starts_with}
use open_rush.Prelude.{
  ℕ, zero, suc, ◌+◌, String, Bool, false, ◌||◌, List, [], ◌∷◌, ◌++◌, Option, none, some, leb,
  nat_beq, length, if◌then◌else◌,
}
use open_rush.Prelude.Json.{Json, Fields}
use open_rush.Orchestrator.World.{
  Outcome, returned, thrown, Payload, Call, Deps, StreamEvent, M, ◌>>=◌, pure, throw, call,
  set_buffer, get_buffer, attempt, given, when,
}

abbrev pub push_char : Char → List String → List String
push_char c [] = String.◌∷◌ c String.[] ∷ []
push_char c (l ∷ ls) = String.◌∷◌ c l ∷ ls

-- `split('\n')`
unfoldable pub split_lines : String → List String
split_lines String.[] = "" ∷ []
split_lines (String.◌∷◌ c s) =
    let rest = split_lines s in if nat_beq (code c) 10 then "" ∷ rest else push_char c rest

-- What `pop` leaves, and what it gives.
abbrev pub init : List String → List String
init [] = []
init (l ∷ []) = []
init (l ∷ ls) = l ∷ init ls

abbrev pub last_line : List String → String
last_line [] = ""
last_line (l ∷ []) = l
last_line (l ∷ ls) = last_line ls

-- `slice(n)`
abbrev pub slice_from : ℕ → String → String
slice_from zero s = s
slice_from (suc n) String.[] = String.[]
slice_from (suc n) (String.◌∷◌ c s) = slice_from n s

abbrev pub get_field : String → Fields → Json
get_field name Fields.end = Json.undefined
get_field name (Fields.field k v fs) =
    let rest = get_field name fs in if str_beq k name then v else rest

-- `data.type`, which throws where `data` is null.
unfoldable pub chunk_type : Json → Option Json
chunk_type Json.null = none
chunk_type Json.undefined = none
chunk_type (Json.obj fs) = some (get_field "type" fs)
chunk_type _ = some Json.undefined

abbrev pub is_text : String → Json → Bool
is_text t (Json.str s) = str_beq s t
is_text t _ = false

abbrev pub Middleware : Type 0 → Type 0
Middleware W = StreamEvent → M W (Unit {0}) → M W (Unit {0})

module _ {W : Type 0} where
  unfoldable pub save_each : (StreamEvent → M W (Unit {0})) → List StreamEvent → M W (Unit {0})
  save_each save [] = pure tt
  save_each save (e ∷ batch) = save e >>= λ _. save_each save batch

  unfoldable pub incremental_save : (StreamEvent → M W (Unit {0})) → ℕ → Middleware W
  unfolding save_each
  incremental_save save batch_size event next = do
    before ← get_buffer
    let buffer = before ++ event ∷ []
    _ ← set_buffer buffer
    _ ←
        when
          (leb batch_size (length buffer)
            || is_text "done" event.type
            || is_text "error" event.type)
          (set_buffer [] >>= λ _. save_each save buffer)
    next

  unfoldable pub error_handler : Middleware W
  error_handler event next = attempt next

  -- `StreamPipeline.process`
  unfoldable pub process : List (Middleware W) → StreamEvent → M W (Unit {0})
  process [] event = pure tt
  process (mw ∷ rest) event = mw event (process rest event)

module _ {W : Type 0} (deps : Deps W) where
  unfoldable pub append_event : String → Payload → Option ℕ → M W (Unit {0})
  append_event run_id payload seq =
      call (Call.append_call run_id payload seq) (deps.append run_id payload seq)

  unfoldable pub save_event : String → StreamEvent → M W (Unit {0})
  unfolding append_event
  save_event run_id event =
      append_event run_id (Payload.chunk event.type event.event_data)
        (if deps.v1_events_enabled then none else some event.seq)

  unfoldable pub middlewares : String → List (Middleware W)
  unfolding incremental_save save_event error_handler
  middlewares run_id = incremental_save (save_event run_id) 1 ∷ error_handler ∷ []

  -- A line of the stream; the next number of the counter.
  unfoldable pub consume_line : String → ℕ → String → M W ℕ
  unfolding middlewares process chunk_type
  consume_line run_id seq line =
      if starts_with line "data: "
      then (let json = slice_from 6 line in
          if str_beq json "[DONE]"
          then pure seq
          else given (deps.parse_json json) (pure seq) (λ value.
            given (chunk_type value) (pure seq) (λ type.
              let event : StreamEvent = record { type = type; event_data = value; seq = seq } in
              attempt (process (middlewares run_id) event) >>= λ _. pure (seq + 1))))
      else pure seq

  unfoldable pub consume_lines : String → ℕ → List String → M W ℕ
  unfolding consume_line
  consume_lines run_id seq [] = pure seq
  consume_lines run_id seq (line ∷ lines) =
      consume_line run_id seq line >>= λ seq'. consume_lines run_id seq' lines

  -- The loop of `consumeStream`: the buffer, the counter and the reads that are left.
  unfoldable pub consume_reads : String → String → ℕ → List (Outcome String) → M W (Unit {0})
  unfolding consume_lines split_lines
  consume_reads run_id buffer seq [] = pure tt
  consume_reads run_id buffer seq (thrown e ∷ reads) = throw e
  consume_reads run_id buffer seq (returned value ∷ reads) =
      let lines = split_lines (String.◌++◌ buffer value) in
      consume_lines run_id seq (init lines) >>= λ seq'.
      consume_reads run_id (last_line lines) seq' reads

  unfoldable pub consume_stream : String → List (Outcome String) → M W (Unit {0})
  unfolding consume_reads
  consume_stream run_id reads = set_buffer [] >>= λ _. consume_reads run_id "" 0 reads
