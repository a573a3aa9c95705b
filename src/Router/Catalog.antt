-- ===== src/Router/Catalog.antt =====
-- `CatalogCache` of packages/llm-router/src/catalog/catalog-cache.ts: the snapshot of the catalog and
-- its refreshes. A refresh waits twice, for the version and for the catalog of that version, and
-- other requests come in between; each answer of the store is an event, `none` where it threw. The
-- logger, the callback `onRefresh` and the trigger that they are told are not modelled.
pub mod Refreshes
mod Tests
use open_rush.Prelude.{
  ℕ, Bool, true, false, ◌&&◌, not, List, [], ◌∷◌, Option, none, some, nat_beq, if◌then◌else◌,
}

pub record Snapshot {ℓ} (Catalog : Type ℓ) : Type ℓ where
  pub version : ℕ
  pub catalog : Catalog

-- Where the refresh on its way stands.
pub data Phase : Type 0 where
  idle reading : Phase
  loading : ℕ → Phase

pub record CatalogCache {ℓ} (Catalog : Type ℓ) : Type ℓ where
  pub snapshot : Option (Snapshot Catalog)
  pub phase : Phase
  pub pending : Bool
  pub stopped : Bool

pub data Event {ℓ} (Catalog : Type ℓ) : Type ℓ where
  asked stop : Event Catalog
  version_read : Option ℕ → Event Catalog
  loaded : Option (Snapshot Catalog) → Event Catalog

module _ {ℓ} {Catalog : Type ℓ} where
  abbrev pub refresh_at : Phase → CatalogCache Catalog → CatalogCache Catalog
  refresh_at idle s = record s { phase = reading }
  refresh_at _ s = record s { pending = true }

  unfoldable pub refresh : CatalogCache Catalog → CatalogCache Catalog
  refresh s = refresh_at s.phase s

  -- The `finally` block alone, where the `try` block has returned.
  abbrev pub leave : CatalogCache Catalog → CatalogCache Catalog
  leave s = record s { phase = idle }

  -- The `finally` block and the request that came meanwhile.
  unfoldable pub finish : CatalogCache Catalog → CatalogCache Catalog
  unfolding refresh
  finish s =
      if s.pending && not s.stopped
      then refresh (record s { phase = idle; pending = false })
      else leave s

  abbrev pub is_current : ℕ → Option (Snapshot Catalog) → Bool
  is_current version none = false
  is_current version (some x) = nat_beq x.version version

  abbrev pub on_version : Phase → Option ℕ → CatalogCache Catalog → CatalogCache Catalog
  on_version reading none s = finish s
  on_version reading (some version) s =
      if is_current version s.snapshot then leave s else record s { phase = loading version }
  on_version _ _ s = s

  abbrev pub on_loaded :
      Phase → Option (Snapshot Catalog) → CatalogCache Catalog → CatalogCache Catalog
  on_loaded (loading version) none s = finish s
  on_loaded (loading version) (some next) s = finish (record s { snapshot = some next })
  on_loaded _ _ s = s

  unfoldable pub step : Event Catalog → CatalogCache Catalog → CatalogCache Catalog
  unfolding refresh finish
  step asked s = refresh s
  step stop s = record s { stopped = true; pending = false }
  step (version_read answer) s = on_version s.phase answer s
  step (loaded answer) s = on_loaded s.phase answer s

  unfoldable pub run : List (Event Catalog) → CatalogCache Catalog → CatalogCache Catalog
  unfolding step
  run [] s = s
  run (e ∷ events) s = run events (step e s)
