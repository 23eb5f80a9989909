-- ===== src/Json.antt =====
-- JSON values as Python holds them: what an extension attaches to a task (`JsonValue` of
-- src/enoch/tasks/payloads.py). A float is known by whether it is finite and by its `repr`.
pub mod Encode
pub mod Equality
use Prim.Native.String.{String}
use mathlib.Core.Bool.{Bool}
use enoch.Base.Int.{ℤ}

pub record Float : Type 0 where
  pub finite : Bool
  pub repr : String

mutual
  pub data Json : Type 0 where
    null : Json
    bool : Bool → Json
    int : ℤ → Json
    float : Float → Json
    str : String → Json
    arr : Items → Json
    obj : Fields → Json

  pub data Items : Type 0 where
    nil : Items
    cons : Json → Items → Items

  -- A `dict` in insertion order; its keys are distinct.
  pub data Fields : Type 0 where
    end : Fields
    field : String → Json → Fields → Fields
