-- ===== src/Json.antt =====
-- JSON values as Python's `json` module returns them (an object is a `dict`, so its keys differ).
use healtharchive_backend.Base.{String, Bool, true, false, Option, none, some, ◌==◌, string_eq}
use healtharchive_backend.Base.{if◌then◌else◌, List, [], ◌∷◌}
use healtharchive_backend.Base.Int.{ℤ, pos}

mutual
  pub data Json : Type 0 where
    null : Json
    bool : Bool → Json
    int : ℤ → Json
    -- A number that is no `int`, by its text.
    float : String → Json
    str : String → Json
    arr : Items → Json
    obj : Fields → Json

  pub data Items : Type 0 where
    nil : Items
    cons : Json → Items → Items

  pub data Fields : Type 0 where
    end : Fields
    field : String → Json → Fields → Fields

-- `d.get(key, default)`
unfoldable pub get_field : String → Json → Fields → Json
get_field key default end = default
get_field key default (field k v rest) = if k == key then v else get_field key default rest

-- `d.get(key)`, with `none` for a missing key.
unfoldable pub find_field : String → Fields → Option Json
find_field key end = none
find_field key (field k v rest) = if k == key then some v else find_field key rest

-- The value of `v` if `isinstance(v, int)`; a `bool` is an `int`, 0 or 1.
unfoldable pub as_int : Json → Option ℤ
as_int (bool false) = some (pos 0)
as_int (bool true) = some (pos 1)
as_int (int n) = some n
as_int _ = none

-- A list of texts as a JSON array.
unfoldable pub strings : List String → Items
strings [] = nil
strings (x ∷ xs) = cons (str x) (strings xs)
