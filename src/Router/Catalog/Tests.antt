-- ===== src/Router/Catalog/Tests.antt =====
-- The catalog's cache at concrete inputs (packages/llm-router/src/catalog/catalog-cache.ts).
use open_rush.Prelude.{String, true, false, not, [], ◌∷◌, List, none, some, ◌≡◌, refl}
use open_rush.Router.Catalog.{
  Snapshot, CatalogCache, Event, idle, reading, asked, stop, version_read, loaded, refresh, step,
  run, finish,
}
use open_rush.Router.Catalog.Refreshes.{
  is_reading, is_unchanged, Settled, refresh-ends, run-Settled,
}

abbrev booting : CatalogCache String
booting = record { snapshot = none; phase = idle; pending = false; stopped = false }

abbrev first : Snapshot String
first = record { version = 1; catalog = "one" }

abbrev second : Snapshot String
second = record { version = 2; catalog = "two" }

abbrev in_use : CatalogCache String
in_use = record { snapshot = some first; phase = reading; pending = false; stopped = false }

boot_run :
    run
      (asked
        ∷ version_read (some 1)
        ∷ loaded (some first)
        ∷ asked
        ∷ version_read (some 2)
        ∷ asked
        ∷ loaded (some second)
        ∷ [])
      booting
    ≡ record { snapshot = some second; phase = reading; pending = false; stopped = false }
unfolding run step refresh finish
boot_run = refl

-- A request that comes while the version is read, which is the same: it is left pending, and no
-- refresh is on its way.
request_left :
    run (asked ∷ version_read (some 1) ∷ []) in_use
    ≡ record { snapshot = some first; phase = idle; pending = true; stopped = false }
unfolding run step refresh
request_left = refl

refresh-ends_example :
    is_reading (step (version_read (some 1)) (refresh in_use)).phase
    ≡ not (is_unchanged (version_read (some 1)) in_use.snapshot)
refresh-ends_example = refresh-ends (version_read (some 1)) in_use refl refl

abbrev quiet_night : List (Event String)
quiet_night = version_read none ∷ asked ∷ asked ∷ version_read (some 1) ∷ asked ∷ stop ∷ []

run-Settled_example : Settled first (run quiet_night in_use)
run-Settled_example = run-Settled first quiet_night in_use refl refl refl
