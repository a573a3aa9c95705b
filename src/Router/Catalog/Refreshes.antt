-- ===== src/Router/Catalog/Refreshes.antt =====
-- When a refresh of the catalog reads again, and what an unchanged version costs.
use open_rush.Prelude.{
  ℕ, Bool, true, false, ◌&&◌, not, List, [], ◌∷◌, Option, none, some, ◌≡◌, refl, sym, if◌then◌else◌,
  arith,
}
use mathlib.Core.Path.{subst}
use open_rush.Router.Catalog.{
  Snapshot, Phase, idle, reading, loading, CatalogCache, Event, asked, stop, version_read, loaded,
  refresh, leave, finish, is_current, step, run,
}

abbrev pub is_reading : Phase → Bool
is_reading reading = true
is_reading _ = false

abbrev pub is_loading : Phase → Bool
is_loading (loading version) = true
is_loading _ = false

module _ {ℓ} {Catalog : Type ℓ} where
  -- The answer ends the refresh that is on its way.
  abbrev pub ends : Phase → Event Catalog → Option (Snapshot Catalog) → Bool
  ends reading (version_read none) current = true
  ends reading (version_read (some version)) current = is_current version current
  ends (loading v) (loaded answer) current = true
  ends _ _ current = false

  -- The answer is the version that the cache has.
  abbrev pub is_unchanged : Event Catalog → Option (Snapshot Catalog) → Bool
  is_unchanged (version_read (some version)) current = is_current version current
  is_unchanged _ current = false

  abbrev busy : Option (Snapshot Catalog) → Phase → Bool → Bool → CatalogCache Catalog
  busy snapshot phase pending stopped = record {
    snapshot = snapshot;
    phase = phase;
    pending = pending;
    stopped = stopped;
  }

  ended :
      (snapshot : Option (Snapshot Catalog)) (phase : Phase) (pending : Bool) (e : Event Catalog)
      → ends phase e snapshot ≡ true
      → is_reading (step e (refresh (busy snapshot phase pending false))).phase
        ≡ not (is_unchanged e snapshot)
  unfolding refresh finish step
  ended current reading pending (version_read none) h = refl
  ended current reading pending (version_read (some version)) h = rw h refl
  ended current (loading v) pending (loaded none) h = refl
  ended current (loading v) pending (loaded (some next)) h = refl
  ended current reading pending asked h = ground arith
  ended current reading pending stop h = ground arith
  ended current reading pending (loaded answer) h = ground arith
  ended current (loading v) pending asked h = ground arith
  ended current (loading v) pending stop h = ground arith
  ended current (loading v) pending (version_read answer) h = ground arith
  ended current idle pending e h = ground arith

  -- Where a refresh is on its way, another is asked for and an answer of the store then ends the
  -- first, a cache that is not stopped reads the version again, unless the answer was the version of
  -- the snapshot that it has: after that answer it does not read again.
  pub refresh-ends :
      (e : Event Catalog) (s : CatalogCache Catalog)
      → s.stopped ≡ false
      → ends s.phase e s.snapshot ≡ true
      → is_reading (step e (refresh s)).phase ≡ not (is_unchanged e s.snapshot)
  refresh-ends e s live h =
      subst
        (λ b.
          is_reading (step e (refresh (busy s.snapshot s.phase s.pending b))).phase
          ≡ not (is_unchanged e s.snapshot))
        (sym live) (ended s.snapshot s.phase s.pending e h)

  -- Each version that is read is that of the snapshot.
  abbrev pub is_quiet : Snapshot Catalog → List (Event Catalog) → Bool
  is_quiet current [] = true
  is_quiet current (version_read (some version) ∷ events) =
      is_current version (some current) && is_quiet current events
  is_quiet current (_ ∷ events) = is_quiet current events

  -- The cache has the snapshot and loads no other.
  abbrev pub Settled : Snapshot Catalog → CatalogCache Catalog → Type ℓ
  Settled current s = (s.snapshot ≡ some current) × (is_loading s.phase ≡ false)

  finish-Settled :
      (current : Snapshot Catalog) (phase : Phase) (pending stopped : Bool)
      → Settled current (finish (busy (some current) phase pending stopped))
  unfolding finish refresh
  finish-Settled current phase false stopped = (refl, refl)
  finish-Settled current phase true true = (refl, refl)
  finish-Settled current phase true false = (refl, refl)

  leave-Settled :
      (current : Snapshot Catalog) (same : Bool) (s t : CatalogCache Catalog)
      → same ≡ true
      → s.snapshot ≡ some current
      → Settled current (if same then leave s else t)
  leave-Settled current true s t e h = (h, refl)
  leave-Settled current false s t e h = ground arith

  version_read-Settled :
      (current : Snapshot Catalog) (answer : Option ℕ) (phase : Phase) (pending stopped : Bool)
      → is_quiet current (version_read answer ∷ []) ≡ true
      → is_loading phase ≡ false
      → Settled current (step (version_read answer) (busy (some current) phase pending stopped))
  unfolding step
  version_read-Settled current none reading pending stopped q h =
      finish-Settled current reading pending stopped
  version_read-Settled current (some v) reading pending stopped q h =
      leave-Settled current (is_current v (some current))
        (busy (some current) reading pending stopped) _ (ground (arith, q)) refl
  version_read-Settled current answer idle pending stopped q h = (refl, refl)
  version_read-Settled current answer (loading v) pending stopped q h = ground arith

  step-Settled :
      (current : Snapshot Catalog) (e : Event Catalog) (phase : Phase) (pending stopped : Bool)
      → is_quiet current (e ∷ []) ≡ true
      → is_loading phase ≡ false
      → Settled current (step e (busy (some current) phase pending stopped))
  unfolding step refresh
  step-Settled current asked idle pending stopped q h = (refl, refl)
  step-Settled current asked reading pending stopped q h = (refl, refl)
  step-Settled current asked (loading v) pending stopped q h = ground arith
  step-Settled current stop phase pending stopped q h = (refl, h)
  step-Settled current (version_read answer) phase pending stopped q h =
      version_read-Settled current answer phase pending stopped q h
  step-Settled current (loaded answer) idle pending stopped q h = (refl, refl)
  step-Settled current (loaded answer) reading pending stopped q h = (refl, refl)
  step-Settled current (loaded answer) (loading v) pending stopped q h = ground arith

  is_quiet-cons :
      (current : Snapshot Catalog) (e : Event Catalog) (events : List (Event Catalog))
      → is_quiet current (e ∷ events) ≡ true
      → (is_quiet current (e ∷ []) ≡ true) × (is_quiet current events ≡ true)
  is_quiet-cons current asked events q = (refl, q)
  is_quiet-cons current stop events q = (refl, q)
  is_quiet-cons current (loaded answer) events q = (refl, q)
  is_quiet-cons current (version_read none) events q = (refl, q)
  is_quiet-cons current (version_read (some v)) events q = ground arith

  -- As long as each version that is read is that of the snapshot, whatever else happens, failures of
  -- the store and requests that come during a refresh included, the cache that was not
  -- loading the catalog still has its snapshot and is not loading the catalog.
  pub run-Settled :
      (current : Snapshot Catalog) (events : List (Event Catalog)) (s : CatalogCache Catalog)
      → s.snapshot ≡ some current
      → is_loading s.phase ≡ false
      → is_quiet current events ≡ true
      → Settled current (run events s)
  unfolding run
  run-Settled current [] s h l q = (h, l)
  run-Settled current (e ∷ events) s h l q =
      let rest = is_quiet-cons current e events q in
      let t : Settled current (step e s) =
        subst (λ o. Settled current (step e (busy o s.phase s.pending s.stopped))) (sym h)
          (step-Settled current e s.phase s.pending s.stopped rest.0 l) in
      run-Settled current events (step e s) t.0 t.1 rest.1
