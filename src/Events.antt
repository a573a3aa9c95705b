-- ===== src/Events.antt =====
-- `InMemoryEventStore` of packages/control-plane/src/event-store.ts. The per-run promise chain of
-- `appendAssignSeq` runs one writer after the other, so a call is one step here. The event id and
-- the time are drawn outside and handed in. Copies of values are the values.
pub mod Order
pub mod Gaps
pub mod Append
pub mod Resume
pub mod Sorting
pub mod Drizzle
mod Tests
use open_rush.Prelude.{
  ℕ, zero, suc, ◌+◌, ◌-◌, String, Bool, true, false, ◌&&◌, not, List, [], ◌∷◌, ◌++◌, map, Option,
  none, some, ltb, leb, if◌then◌else◌, ◌==◌, string_eq, nat_eq, find, filter, includes, max,
}
use mathlib.Core.Option.{get_or}
use open_rush.Prelude.Json.{Json, or_null, ℤ, pos, negsuc, gt_ℤ}

pub record RunEvent : Type 0 where
  pub id : String
  pub run_id : String
  pub event_type : String
  pub payload : Json
  pub seq : ℕ
  pub schema_version : String
  pub created_at : ℕ

-- `EventStoreEventWithoutSeq`
pub record NewEvent : Type 0 where
  pub run_id : String
  pub event_type : String
  pub payload : Json
  pub schema_version : Option String

pub record InsertResult : Type 0 where
  pub inserted : Bool
  pub event : RunEvent

pub record GapDetectionResult : Type 0 where
  pub has_gaps : Bool
  pub missing_seqs : List ℕ
  pub last_seq : ℤ

-- The map from a run's id to its events; a run that has no entry has none.
abbrev pub Store : Type 0
Store = String → List RunEvent

abbrev pub set_events : String → List RunEvent → Store → Store
set_events run events store j = if run == j then events else store j

-- The stable sort by `seq`, as an insertion sort.
unfoldable pub insert_by_seq : RunEvent → List RunEvent → List RunEvent
insert_by_seq e [] = e ∷ []
insert_by_seq e (x ∷ xs) =
    let later = x ∷ insert_by_seq e xs in if leb e.seq x.seq then e ∷ x ∷ xs else later

unfoldable pub sort_by_seq : List RunEvent → List RunEvent
sort_by_seq [] = []
sort_by_seq (x ∷ xs) = insert_by_seq x (sort_by_seq xs)

-- The row that is stored for a new event.
unfoldable pub run_event : String → ℕ → ℕ → NewEvent → RunEvent
run_event event_id now n e = record {
  id = event_id;
  run_id = e.run_id;
  event_type = e.event_type;
  payload = or_null e.payload;
  seq = n;
  schema_version = get_or e.schema_version "1";
  created_at = now;
}

-- `append`: the sequence number is `none` where the caller's is no non-negative integer; then the
-- call throws, and so gives `none`.
unfoldable pub append : String → ℕ → NewEvent → Option ℕ → Store → Option InsertResult × Store
append event_id now e none store = (none, store)
append event_id now e (some n) store =
    elim (find (λ x. x.run_id == e.run_id && x.seq == n) (store e.run_id)) [
      | some existing ↦ (some (record { inserted = false; event = existing }), store)
      | none ↦
          let stored = run_event event_id now n e in
          (
            some (record { inserted = true; event = stored }),
            set_events e.run_id (sort_by_seq (store e.run_id ++ stored ∷ [])) store,
          )
    ]

-- The `reduce` of `doAssignSeq`.
unfoldable pub max_seq : ℕ → List RunEvent → ℕ
max_seq m [] = m
max_seq m (e ∷ es) = max_seq (if ltb m e.seq then e.seq else m) es

-- `appendAssignSeq`, with `doAssignSeq`.
unfoldable pub append_assign_seq : String → ℕ → NewEvent → Store → InsertResult × Store
unfolding max_seq
append_assign_seq event_id now e store =
    let stored = run_event event_id now (max_seq 0 (store e.run_id) + 1) e in
    (
      record { inserted = true; event = stored },
      set_events e.run_id (sort_by_seq (store e.run_id ++ stored ∷ [])) store,
    )

unfoldable pub get_events : String → ℤ → Store → List RunEvent
get_events run after_seq store = filter (λ e. gt_ℤ e.seq after_seq) (store run)

-- The default of `afterSeq`, and `getLastSeq` of a run without events.
abbrev pub minus_one : ℤ
minus_one = negsuc 0

unfoldable pub last_seq_of : List RunEvent → ℤ
last_seq_of [] = minus_one
last_seq_of (e ∷ []) = pos e.seq
last_seq_of (e ∷ es) = last_seq_of es

unfoldable pub get_last_seq : String → Store → ℤ
unfolding last_seq_of
get_last_seq run store = last_seq_of (store run)

-- The loop of `detectGaps` from `i` on, over `count` numbers.
unfoldable pub scan_gaps : List ℕ → ℕ → ℕ → List ℕ
scan_gaps seqs i zero = []
scan_gaps seqs i (suc count) =
    let rest = scan_gaps seqs (i + 1) count in if includes seqs i then rest else i ∷ rest

abbrev pub is_nonempty {ℓ} : {A : Type ℓ} → List A → Bool
is_nonempty [] = false
is_nonempty (x ∷ xs) = true

-- The last of a list, and the first where it has none.
abbrev pub last_or : ℕ → List ℕ → ℕ
last_or d [] = d
last_or d (n ∷ ns) = last_or n ns

-- `seqs.sort((a, b) => a - b)`
unfoldable pub insert_seq : ℕ → List ℕ → List ℕ
insert_seq n [] = n ∷ []
insert_seq n (m ∷ ms) = let later = m ∷ insert_seq n ms in if leb n m then n ∷ m ∷ ms else later

unfoldable pub sort_seqs : List ℕ → List ℕ
unfolding insert_seq
sort_seqs [] = []
sort_seqs (n ∷ ns) = insert_seq n (sort_seqs ns)

-- `detectGaps` on the sorted numbers.
unfoldable pub gaps_of : List ℕ → GapDetectionResult
unfolding scan_gaps
gaps_of [] = record { has_gaps = false; missing_seqs = []; last_seq = minus_one }
gaps_of (n ∷ ns) =
    let last = last_or n ns in
    let missing = scan_gaps (n ∷ ns) n (last + 1 - n) in
    record { has_gaps = is_nonempty missing; missing_seqs = missing; last_seq = pos last }

unfoldable pub detect_gaps : String → Store → GapDetectionResult
unfolding gaps_of sort_seqs
detect_gaps run store = gaps_of (sort_seqs (map (λ e. e.seq) (store run)))

unfoldable pub clear : Store → Store
clear store run = []
