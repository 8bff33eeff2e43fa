-- ===== src/Base/Json.antt =====
-- JSON values as `json.loads` returns them. A number stands for its literal.
use filedge.Base.{String, Option, none, some, Bool, ◌==◌, if◌then◌else◌}

mutual
  pub data Json : Type 0 where
    null : Json
    boolean : Bool → Json
    number : String → Json
    text : String → Json
    array : Items → Json
    object : Fields → Json

  pub data Items : Type 0 where
    nil : Items
    item : Json → Items → Items

  -- The members of an object, in order.
  pub data Fields : Type 0 where
    end : Fields
    field : String → Json → Fields → Fields

-- `d.get(key)` on the members of an object
unfoldable pub get : String → Fields → Option Json
get key end = none
get key (field k v rest) = if k == key then some v else get key rest

-- An object that is empty counts as absent: `d if d else None`.
unfoldable pub non_empty : Option Fields → Option Fields
non_empty none = none
non_empty (some end) = none
non_empty (some (field k v rest)) = some (field k v rest)
