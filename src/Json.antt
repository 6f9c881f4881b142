-- ===== src/Json.antt =====
-- The values that `JSON.parse` returns. A finite number is kept as the text that `JSON.stringify`
-- writes for it; `overflow` is a literal such as 1e999, which parses to an infinity.
use aitp_control_plane.Prelude.{
  Bool, Option, none, some, String, List, [], ◌∷◌, str_eq, if◌then◌else◌,
}

mutual
  pub data Json : Type 0 where
    null : Json
    bool : Bool → Json
    num : String → Json
    overflow : Json
    str : String → Json
    arr : Items → Json
    obj : Fields → Json

  pub data Items : Type 0 where
    nil : Items
    cons : Json → Items → Items

  pub data Fields : Type 0 where
    end : Fields
    field : String → Json → Fields → Fields

-- The elements of an array and the members of an object, in order.
unfoldable pub items : Items → List Json
items nil = []
items (cons v vs) = v ∷ items vs

unfoldable pub members : Fields → List (String × Json)
members end = []
members (field k v fs) = (k, v) ∷ members fs

-- `o[k]`; an object has every key once.
unfoldable pub member : String → Fields → Option Json
member k end = none
member k (field j v fs) = if str_eq j k then some v else member k fs

-- `typeof v === 'object' && v !== null`: an array is an object without the named members.
abbrev pub as_object : Json → Option Fields
as_object (obj fs) = some fs
as_object (arr xs) = some end
as_object _ = none

abbrev pub object_at : Option Json → Option Fields
object_at none = none
object_at (some v) = as_object v
