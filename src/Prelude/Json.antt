-- ===== src/Prelude/Json.antt =====
-- JavaScript values as JSON sees them, and signed integers that are only compared.
use Prim.Native.Nat.{ℕ}
use Prim.Native.String.{String}
use mathlib.Core.Bool.{Bool, true}
use open_rush.Prelude.Tests.{ltb, string_eq}

-- A finite number is given by its JSON text. `undefined` stands for functions and symbols too.
mutual
  pub data Json : Type 0 where
    undefined : Json
    null : Json
    bool : Bool → Json
    num : String → Json
    not_finite : Json
    str : String → Json
    arr : Items → Json
    obj : Fields → Json

  pub data Items : Type 0 where
    nil : Items
    cons : Json → Items → Items

  pub data Fields : Type 0 where
    end : Fields
    field : String → Json → Fields → Fields

-- `v ?? null`
abbrev pub or_null : Json → Json
or_null undefined = null
or_null v = v

-- `negsuc n` is -(n + 1).
pub data ℤ : Type 0 where
  pos : ℕ → ℤ
  negsuc : ℕ → ℤ

-- `n > z`
abbrev pub gt_ℤ : ℕ → ℤ → Bool
gt_ℤ n (pos m) = ltb m n
gt_ℤ n (negsuc m) = true
