-- ===== src/Lib.antt =====
-- The core of open-rush, a platform that runs coding agents: the life of a run in the control
-- plane, and the records that it leaves.
--
-- Run            packages/control-plane/src/run/: the state machine of a run (Run/Status), its
--                published copy in packages/contracts/src/enums.ts (Run/Contract), the table of
--                runs (Run/Db, after drizzle-run-db.ts) and RunService (Run/Service). A method of
--                the service is a function from the table's rows to its result, or the error that
--                it throws, and the rows that it leaves. Run/Service/Moves has every method as
--                steps of one relation, from which Run/Service/Valid proves what every row keeps;
--                Run/Service/Passed follows what the table shows of a run from call to call.
-- Events         packages/control-plane/src/event-store.ts, the store of a run's events: a map
--                from runs to lists of events, with the two ways to append, and
--                drizzle-event-store.ts, the store of production over the table's rows. What
--                the columns take and keep of a row, a jsonb payload included, and which runs
--                there are, is a parameter (Events/Drizzle). Sequence numbers are natural
--                numbers; that JavaScript rounds them from 2^53 on is not modelled.
-- Orchestrator   packages/control-plane/src/run/run-orchestrator.ts, with stream-middleware.ts and
--                ../llm/llm-access-service.ts: a whole run. What it calls is a record of methods
--                over a world (Orchestrator/World); a method may throw and may change the world,
--                other processes included. A trace has every call with whether it returned,
--                and the ids that the creation of a sandbox returned are noted.
--                Orchestrator/Keeps has the rules by which Orchestrator/Markers and
--                Orchestrator/Cleanup follow the code stage by stage. A response's body is the
--                finite list of its reads; the loop is recursion on it. JSON.parse is a parameter.
-- Runtime        packages/agent-runtime/src: the retry loop, whose attempts are counted down, the
--                sliding-window rate limiter and the budget guard, whose amounts, limits and
--                elapsed time are natural numbers (a clock that goes back counts as no time).
-- Router         packages/llm-router/src: the cost of a call (usage/cost.ts), scopes and windows
--                (budget/scope.ts, window.ts), the aggregation of a batch (metering/budget-delta.ts)
--                and the budget gate (budget/budget-service.ts). The store is handed in.
--                Router/Recorder: the queue of metered calls (metering/call-recorder.ts). A flush
--                is two events, before and after the wait for the store, with others between them;
--                the timer is the event that it fires, and no call comes during `drain`, whose fuel
--                counts its rounds. The alarm callback is not modelled. Router/Catalog: the cache
--                of the catalog (catalog/catalog-cache.ts), each answer of its store an event.
--                Router/Token: the authenticator of tokens (auth/router-token.ts), which is handed
--                the token that the headers hold.
-- Definitions    packages/control-plane/src/agent-definition-service.ts: the versioned definitions of
--                agents over their two tables (Definitions/Fields, Definitions/Service), without
--                the NOT NULL and length checks of their columns. Every call
--                is one of four moves on the tables (Definitions/Service/Moves), from which the
--                history of each definition follows. `walk` is a client that follows the cursors;
--                its fuel counts requests, and one more than there are versions is enough.
-- Sdk            packages/sdk/src/sse.ts, the client's event stream, and the frames that the route
--                apps/web/app/api/v1/agents/[agentId]/runs/[runId]/events/route.ts writes for it.
--                The loop over a buffer has the buffer's length as fuel; that of the connections
--                counts them, and one more than the policy reconnects is enough.
-- Members        packages/control-plane/src/auth/: the members of a project
--                (drizzle-membership-db.ts, membership-store.ts) and what a role allows
--                (authorization.ts).
--
-- Times are milliseconds as natural numbers. Within one call the clock has one reading, which is
-- handed in (two where Router/Token waits for its store), and so are the ids that the database
-- draws. The database is the list of a table's rows; a statement on it is one step, and only
-- Run/Service/Race takes a method apart into its statements. Failures of the database itself are
-- not modelled there.
--
-- Not modelled: the top-level list of agent definitions, checkpoints, the vault, tasks, the
-- gateway's proxy, adapters and choice of a route, the SDK's requests and the workers; the web
-- application, the schema declarations, the adapters to outside services and the scripts are input
-- and output or declarations.
pub mod Prelude
pub mod Run
pub mod Events
pub mod Orchestrator
pub mod Runtime
pub mod Router
pub mod Members
pub mod Definitions
pub mod Sdk
