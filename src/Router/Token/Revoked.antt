-- ===== src/Router/Token/Revoked.antt =====
-- When a token that was revoked is refused.
use open_rush.Prelude.{
  ℕ, ◌+◌, ◌≤◌, String, Bool, true, false, ◌&&◌, List, [], ◌∷◌, ◌++◌, Option, none, some, ltb, leb,
  leb→le, ltb→lt, ◌≡◌, refl, if◌then◌else◌, ◌==◌, string_eq, Bool-cases, inl, inr, arith,
}
use open_rush.Router.Token.{
  Subject, Entry, Cache, put, Call, keep, look_up, on_entry, authenticate, unless_of, invalidate,
  clear, Op, answered, invalidated, cleared, apply_op, apply_ops,
}

-- The store answered no later than this.
abbrev pub is_by : ℕ → Op → Bool
is_by time (answered call) = leb call.answered_at time
is_by time _ = true

abbrev pub is_none : Option Subject → Bool
is_none none = true
is_none (some s) = false

-- A call for this hash finds no active token in the store.
abbrev pub is_refusing : String → Op → Bool
is_refusing hash (answered call) = if hash == call.hash then is_none call.answer else true
is_refusing hash _ = true

abbrev pub every : (Op → Bool) → List Op → Bool
every p [] = true
every p (op ∷ ops) = p op && every p ops

abbrev Expires : ℕ → Option Entry → Type 0
Expires until none = 0 ≤ until
Expires until (some e) = e.expires_at ≤ until

put-Expires :
    (until : ℕ) (hash k : String) (entry : Option Entry) (cache : Cache)
    → Expires until entry
    → Expires until (cache k)
    → Expires until (put hash entry cache k)
put-Expires until hash k entry cache h old = elim (Bool-cases (k == hash)) [
  | inl same ↦ rw same h
  | inr other ↦ rw other old
]

unless_of-Expires :
    (until : ℕ) (token_id : String) (entry : Option Entry)
    → Expires until entry
    → Expires until (unless_of token_id entry)
unless_of-Expires until token_id none h = h
unless_of-Expires until token_id (some e) h = elim (Bool-cases (e.subject.token_id == token_id)) [
  | inl same ↦ rw same (omega arith)
  | inr other ↦ rw other h
]

keep-Expires :
    (until ttl : ℕ) (call : Call) (subject : Subject) (cache : Cache) (k : String)
    → call.answered_at + ttl ≤ until
    → Expires until (cache k)
    → Expires until (keep ttl call subject cache k)
keep-Expires until ttl call subject cache k h old = elim (Bool-cases (ltb 0 ttl)) [
  | inl lasting ↦ rw lasting (put-Expires until call.hash k _ cache h old)
  | inr never ↦ rw never old
]

look_up-Expires :
    (until ttl : ℕ) (call : Call) (answer : Option Subject) (cache : Cache) (k : String)
    → call.answered_at + ttl ≤ until
    → Expires until (cache k)
    → Expires until ((look_up ttl call answer cache).1 k)
look_up-Expires until ttl call none cache k h old =
    put-Expires until call.hash k none cache (omega arith) old
look_up-Expires until ttl call (some subject) cache k h old =
    keep-Expires until ttl call subject cache k h old

apply_op-Expires :
    (time ttl : ℕ) (op : Op) (cache : Cache) (k : String)
    → is_by time op ≡ true
    → Expires (time + ttl) (cache k)
    → Expires (time + ttl) (apply_op ttl op cache k)
unfolding apply_op invalidate clear
apply_op-Expires time ttl (answered call) cache k h old =
    let le = leb→le call.answered_at time h in
    look_up-Expires (time + ttl) ttl call call.answer cache k (omega (arith, le)) old
apply_op-Expires time ttl (invalidated token_id) cache k h old =
    unless_of-Expires (time + ttl) token_id (cache k) old
apply_op-Expires time ttl cleared cache k h old = omega arith

keep-other :
    (until ttl : ℕ) (call : Call) (subject : Subject) (cache : Cache) (k : String)
    → (k == call.hash) ≡ false
    → Expires until (cache k)
    → Expires until (keep ttl call subject cache k)
keep-other until ttl call subject cache k other old = elim (Bool-cases (ltb 0 ttl)) [
  | inl lasting ↦ rw (lasting, other) old
  | inr never ↦ rw never old
]

refused :
    (until ttl : ℕ) (call : Call) (answer : Option Subject) (cache : Cache) (k : String)
    → (if k == call.hash then is_none answer else true) ≡ true
    → Expires until (cache k)
    → Expires until ((look_up ttl call answer cache).1 k)
refused until ttl call none cache k h old =
    put-Expires until call.hash k none cache (omega arith) old
refused until ttl call (some subject) cache k h old =
    keep-other until ttl call subject cache k (ground (arith, h)) old

apply_op-refusing :
    (until ttl : ℕ) (op : Op) (cache : Cache) (k : String)
    → is_refusing k op ≡ true
    → Expires until (cache k)
    → Expires until (apply_op ttl op cache k)
unfolding apply_op invalidate clear
apply_op-refusing until ttl (answered call) cache k h old =
    refused until ttl call call.answer cache k h old
apply_op-refusing until ttl (invalidated token_id) cache k h old =
    unless_of-Expires until token_id (cache k) old
apply_op-refusing until ttl cleared cache k h old = omega arith

after_refusing :
    (until ttl : ℕ) (ops : List Op) (cache : Cache) (k : String)
    → every (is_refusing k) ops ≡ true
    → Expires until (cache k)
    → Expires until (apply_ops ttl ops cache k)
unfolding apply_ops
after_refusing until ttl [] cache k h old = old
after_refusing until ttl (op ∷ ops) cache k h old =
    after_refusing until ttl ops (apply_op ttl op cache) k (ground (arith, h))
      (apply_op-refusing until ttl op cache k (ground (arith, h)) old)

after_both :
    (time ttl : ℕ) (before after : List Op) (cache : Cache) (k : String)
    → every (is_by time) before ≡ true
    → every (is_refusing k) after ≡ true
    → Expires (time + ttl) (cache k)
    → Expires (time + ttl) (apply_ops ttl (before ++ after) cache k)
unfolding apply_ops
after_both time ttl [] after cache k h l old = after_refusing (time + ttl) ttl after cache k l old
after_both time ttl (op ∷ before) after cache k h l old =
    after_both time ttl before after (apply_op ttl op cache) k (ground (arith, h)) l
      (apply_op-Expires time ttl op cache k (ground (arith, h)) old)

unanswered :
    (ttl : ℕ) (call : Call) (answer : Option Subject) (cache : Cache)
    → is_none answer ≡ true
    → (look_up ttl call answer cache).0 ≡ none
unanswered ttl call none cache h = refl
unanswered ttl call (some subject) cache h = ground arith

not_hit :
    (ttl : ℕ) (call : Call) (entry : Option Entry) (cache : Cache)
    → is_none call.answer ≡ true
    → Expires call.now entry
    → (on_entry ttl call entry cache).0 ≡ none
not_hit ttl call none cache h old = unanswered ttl call call.answer cache h
not_hit ttl call (some e) cache h old = elim (Bool-cases (ltb call.now e.expires_at)) [
  | inl hit ↦ absurd (let lt = ltb→lt call.now e.expires_at hit in omega (arith, lt, old))
  | inr late ↦ rw late (unanswered ttl call call.answer cache h)
]

later-Expires :
    (until now : ℕ) (entry : Option Entry) → until ≤ now → Expires until entry → Expires now entry
later-Expires until now none h old = omega arith
later-Expires until now (some e) h old = omega (arith, h, old)

-- Where all answers of the store up to some point came at a time or before it, and from then on the
-- store finds no active token of a hash, with control-plane calls anywhere between: a call with that
-- hash is refused from one lifetime of the cache after that time.
pub authenticate-none :
    (ttl time : ℕ) (before after : List Op) (call : Call)
    → every (is_by time) before ≡ true
    → every (is_refusing call.hash) after ≡ true
    → is_none call.answer ≡ true
    → time + ttl ≤ call.now
    → (authenticate ttl call (apply_ops ttl (before ++ after) (λ k. none))).0 ≡ none
unfolding authenticate
authenticate-none ttl time before after call h l refused late =
    let cache = apply_ops ttl (before ++ after) (λ k. none) in
    not_hit ttl call (cache call.hash) cache refused (
      later-Expires (time + ttl) call.now (cache call.hash) late
        (after_both time ttl before after (λ k. none) call.hash h l (omega arith)))
