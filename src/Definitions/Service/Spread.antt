-- ===== src/Definitions/Service/Spread.antt =====
-- What a snapshot gives back, and what a patch does to the columns of a row.
use mathlib.Core.Option.{get_or}
use open_rush.Prelude.{
  ℕ, Bool, true, false, List, [], ◌∷◌, Option, none, some, ◌≡◌, refl, ◌∙◌, ◌⊎◌, inl, inr,
  if◌then◌else◌, ◌==◌, ==-eq, Bool-cases, Option-cases, filter, includes, All, arith,
}
use open_rush.Prelude.Json.{Json, undefined, or_null}
use open_rush.Definitions.{
  Key, name, description, icon, model, system_prompt, append_system_prompt, config, key_eq,
  editable_keys, Editable, Partial, Object, AgentRow,
}
use open_rush.Definitions.Fields.{
  camel, with_nulls, extract_editable, object_of, property, or_fallback, read_snapshot_field,
  pick_one, pick_each, pick_editable_patch, field, spread,
}
use open_rush.Definitions.Service.{set_field, is_defined, update_values, patched}

abbrev pub IsFull : Editable → Type 0
IsFull e = (k : Key) → is_defined (e k) ≡ true

-- A snapshot that the service stores reads back as it was.
pub read_snapshot_field-object_of :
    (e : Editable) (k : Key) → read_snapshot_field (object_of e) k ≡ e k
unfolding read_snapshot_field object_of
read_snapshot_field-object_of e name = refl
read_snapshot_field-object_of e _ = refl

pub or_fallback_defined : (v w : Json) → is_defined v ≡ true → or_fallback v w ≡ v
or_fallback_defined undefined w h = ground arith
or_fallback_defined _ w h = refl

pub or_null_defined : (v : Json) → is_defined v ≡ true → or_null v ≡ v
or_null_defined undefined h = ground arith
or_null_defined _ h = refl

-- The value of a body that a patch takes over.
abbrev pub kept : Option Json → Option Json
kept none = none
kept (some undefined) = none
kept (some v) = some v

key_refl : (k : Key) → (k == k) ≡ true
key_refl k = (key_eq.agrees k k).1 refl

field-pick_one_same :
    (k : Key) (o : Option Json) (p : Partial)
    → (field k p ≡ none) ⊎ (field k p ≡ kept o)
    → field k (pick_one k o p) ≡ kept o
field-pick_one_same k none p h = ground arith
field-pick_one_same k (some undefined) p h = ground arith
field-pick_one_same k (some v) p h = rw (key_refl k)

field-pick_one_other :
    (j k : Key) (o : Option Json) (p : Partial)
    → (j == k) ≡ false
    → field k (pick_one j o p) ≡ field k p
field-pick_one_other j k none p h = refl
field-pick_one_other j k (some undefined) p h = refl
field-pick_one_other j k (some v) p h = rw h

abbrev picked_if : Bool → Option Json → Option Json
picked_if b o = if b then o else none

picked_if_cases : (b : Bool) (o : Option Json) → (picked_if b o ≡ none) ⊎ (picked_if b o ≡ o)
picked_if_cases true o = inr refl
picked_if_cases false o = inl refl

field-pick_each :
    (input : Object) (ks : List Key) (k : Key)
    → field k (pick_each input ks) ≡ picked_if (includes ks k) (kept (property (camel k) input))
field-pick_each input [] k = refl
field-pick_each input (j ∷ ks) k = elim (Bool-cases (j == k)) [
  | inl same ↦ rw (==-eq j k same) (
      rw (key_refl k)
        (field-pick_one_same k _ _ (rw (field-pick_each input ks k) (picked_if_cases _ _))))
  | inr other ↦ rw other (field-pick_one_other j k _ _ other ∙ field-pick_each input ks k)
]

includes_all : (k : Key) → includes editable_keys k ≡ true
includes_all name = refl
includes_all _ = refl

pub field-pick_editable_patch :
    (input : Object) (k : Key)
    → field k (pick_editable_patch input) ≡ kept (property (camel k) input)
unfolding pick_editable_patch
field-pick_editable_patch input k = field-pick_each input editable_keys k ∙ rw (includes_all k)

abbrev pub AllDefined : Partial → Type 0
AllDefined = All (λ e. is_defined e.1 ≡ true)

pick_one-AllDefined :
    (k : Key) (o : Option Json) (p : Partial) → AllDefined p → AllDefined (pick_one k o p)
pick_one-AllDefined k none p h = h
pick_one-AllDefined k (some undefined) p h = h
pick_one-AllDefined k (some v) p h = (refl, h)

pick_each-AllDefined : (input : Object) (ks : List Key) → AllDefined (pick_each input ks)
pick_each-AllDefined input [] = tt
pick_each-AllDefined input (k ∷ ks) = pick_one-AllDefined k _ _ (pick_each-AllDefined input ks)

pub pick_editable_patch-AllDefined : (input : Object) → AllDefined (pick_editable_patch input)
unfolding pick_editable_patch
pick_editable_patch-AllDefined input = pick_each-AllDefined input editable_keys

field-AllDefined :
    (k : Key) (p : Partial) (v : Json) → AllDefined p → field k p ≡ some v → is_defined v ≡ true
field-AllDefined k [] v h e = ground arith
field-AllDefined k ((j, w) ∷ p) v h e = elim (Bool-cases (j == k)) [
  | inl same ↦ ground (arith, h.0)
  | inr other ↦ field-AllDefined k p v h.1 (ground arith)
]

-- Setting a key to the value that it has changes nothing; a key set to `undefined` is stripped.
set_field-same : (k : Key) (v : Json) (p : Partial) → field k p ≡ some v → set_field k v p ≡ p
set_field-same k v [] e = ground arith
set_field-same k v ((j, w) ∷ p) e = elim (Bool-cases (j == k)) [
  | inl same ↦ rw (==-eq j k same) (ground arith)
  | inr other ↦ ground (arith, set_field-same k v p)
]

filter_defined : (p : Partial) → AllDefined p → filter (λ e. is_defined e.1) p ≡ p
filter_defined [] h = refl
filter_defined (e ∷ p) h = rw (h.0, filter_defined p h.1)

strip-set_field :
    (k : Key) (p : Partial)
    → AllDefined p
    → field k p ≡ none
    → filter (λ e. is_defined e.1) (set_field k undefined p) ≡ p
strip-set_field k [] h e = refl
strip-set_field k ((j, w) ∷ p) h e = elim (Bool-cases (j == k)) [
  | inl same ↦ ground arith
  | inr other ↦ rw (other, h.0, strip-set_field k p h.1 (ground arith))
]

-- The columns that a patch sets are the fields that it picked.
pub update_values_lem : (p : Partial) → AllDefined p → update_values p ≡ p
unfolding update_values
update_values_lem p h = elim (Option-cases (field config p)) [
  | inl without ↦ rw without (strip-set_field config p h without)
  | inr (v, e) ↦
      let keeps = or_null_defined v (field-AllDefined config p v h e) in
      rw (e, keeps, set_field-same config v p e) (filter_defined p h)
]

or_null-get_or :
    (k : Key) (p : Partial) (c : Json)
    → AllDefined p
    → or_null (get_or (field k p) c) ≡ get_or (field k p) (or_null c)
or_null-get_or k p c h = elim (Option-cases (field k p)) [
  | inl without ↦ rw without
  | inr (v, e) ↦ rw e (or_null_defined v (field-AllDefined k p v h e))
]

-- The row after a patch has the fields of the snapshot that the patch stores.
pub extract_editable-patched :
    (now next : ℕ) (p : Partial) (r : AgentRow) (k : Key)
    → AllDefined p
    → extract_editable (patched now next p r) k ≡ spread (extract_editable r) p k
unfolding extract_editable
extract_editable-patched now next p r k h = rw (update_values_lem p h) (nulls k)
  where
    nulls : (k : Key) → with_nulls (spread r.columns p) k ≡ spread (with_nulls r.columns) p k
    nulls description = or_null-get_or description p _ h
    nulls icon = or_null-get_or icon p _ h
    nulls model = or_null-get_or model p _ h
    nulls system_prompt = or_null-get_or system_prompt p _ h
    nulls append_system_prompt = or_null-get_or append_system_prompt p _ h
    nulls config = or_null-get_or config p _ h
    nulls _ = refl

pub spread-IsFull : (e : Editable) (p : Partial) → IsFull e → AllDefined p → IsFull (spread e p)
spread-IsFull e p full h k = elim (Option-cases (field k p)) [
  | inl without ↦ rw without (full k)
  | inr (v, set) ↦ rw set (field-AllDefined k p v h set)
]
