-- ===== src/Router/Token.antt =====
-- `TokenAuthenticator` of packages/llm-router/src/auth/router-token.ts: the authentication of a token
-- with its cache. What extractToken found in the headers is handed in, as are the hash
-- (node:crypto), the answer of the store and the times, before and after that answer. The note of
-- the last use, which is not waited for, is not modelled.
pub mod Revoked
mod Tests
use mathlib.Core.Option.{get_or}
use open_rush.Prelude.{
  ℕ, ◌+◌, String, Bool, true, false, ◌&&◌, List, [], ◌∷◌, Option, none, some, ltb, if◌then◌else◌,
  ◌==◌, string_eq,
}

pub data SubjectType : Type 0 where
  run service : SubjectType

pub record Subject : Type 0 where
  pub token_id : String
  pub subject_type : SubjectType
  pub run_id : Option String
  pub agent_id : Option String
  pub project_id : Option String
  pub owner_user_id : Option String
  pub allowed_model_aliases : List String
  pub max_cost_usd : Option String
  pub max_requests_per_minute : Option ℕ

pub record Entry : Type 0 where
  pub subject : Subject
  pub expires_at : ℕ

abbrev pub Cache : Type 0
Cache = String → Option Entry

abbrev pub put : String → Option Entry → Cache → Cache
put hash entry cache k = if k == hash then entry else cache k

abbrev pub ttl_of : Option ℕ → ℕ
ttl_of ttl = get_or ttl 15000

-- A call at `now`: the hash, the store's answer, and the time when it came.
pub record Call : Type 0 where
  pub hash : String
  pub now : ℕ
  pub answer : Option Subject
  pub answered_at : ℕ

abbrev pub keep : ℕ → Call → Subject → Cache → Cache
keep ttl call subject cache =
    if ltb 0 ttl
    then put call.hash (some (record { subject = subject; expires_at = call.answered_at + ttl }))
        cache
    else cache

abbrev pub look_up : ℕ → Call → Option Subject → Cache → Option Subject × Cache
look_up ttl call none cache = (none, put call.hash none cache)
look_up ttl call (some subject) cache = (some subject, keep ttl call subject cache)

abbrev pub on_entry : ℕ → Call → Option Entry → Cache → Option Subject × Cache
on_entry ttl call none cache = look_up ttl call call.answer cache
on_entry ttl call (some e) cache =
    if ltb call.now e.expires_at
    then (some e.subject, cache)
    else look_up ttl call call.answer cache

unfoldable pub authenticate : ℕ → Call → Cache → Option Subject × Cache
authenticate ttl call cache = on_entry ttl call (cache call.hash) cache

abbrev pub unless_of : String → Option Entry → Option Entry
unless_of token_id none = none
unless_of token_id (some e) = if e.subject.token_id == token_id then none else some e

unfoldable pub invalidate : String → Cache → Cache
invalidate token_id cache k = unless_of token_id (cache k)

unfoldable pub clear : Cache → Cache
clear cache k = none

-- What changes the cache: an answer of the store, whatever other calls came during the wait for it,
-- and the two calls of the control plane.
pub data Op : Type 0 where
  answered : Call → Op
  invalidated : String → Op
  cleared : Op

unfoldable pub apply_op : ℕ → Op → Cache → Cache
unfolding invalidate clear
apply_op ttl (answered call) cache = (look_up ttl call call.answer cache).1
apply_op ttl (invalidated token_id) cache = invalidate token_id cache
apply_op ttl cleared cache = clear cache

unfoldable pub apply_ops : ℕ → List Op → Cache → Cache
unfolding apply_op
apply_ops ttl [] cache = cache
apply_ops ttl (op ∷ ops) cache = apply_ops ttl ops (apply_op ttl op cache)
