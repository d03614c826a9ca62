-- ===== src/Jwt/Values.antt =====
-- Decoded JSON, as `interface{}` values hold it. A number is given by its integer part, in seconds
-- where it is a time: the program reads no more of one.
use gprxy.Common.{Bool, Text, Map, ℤ}

mutual
  pub data Json : Type 0 where
    null : Json
    bool : Bool → Json
    num : ℤ → Json
    str : Text → Json
    arr : Items → Json
    obj : Fields → Json

  pub data Items : Type 0 where
    nil : Items
    cons : Json → Items → Items

  pub data Fields : Type 0 where
    end : Fields
    field : Text → Json → Fields → Fields

-- `jwt.MapClaims`, and `map[string]interface{}`
abbrev pub Claims : Type 0
Claims = Map Text Json
