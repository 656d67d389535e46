-- ===== src/Json.antt =====
-- The values of a JSON column, and Python's truth test and dictionary access on them.
pub mod Laws
use Prim.Native.Nat.{ℕ, zero, suc}
use Prim.Native.String.{String}
use text.Mathlib.Text.{◌==◌}
use mathlib.Core.Bool.{Bool, true, false}
use mathlib.Core.Option.{Option, none, some}
use reliable_ai_agents.Prelude.{if◌then◌else◌}

mutual
  -- `decimal m k` is the number m / 10 ^ k.
  pub data Json : Type 0 where
    null : Json
    bool : Bool → Json
    num : ℕ → Json
    decimal : ℕ → ℕ → Json
    str : String → Json
    list : Items → Json
    object : Fields → Json

  pub data Items : Type 0 where
    nil : Items
    cons : Json → Items → Items

  pub data Fields : Type 0 where
    end : Fields
    field : String → Json → Fields → Fields

abbrev pub nonempty : String → Bool
nonempty String.[] = false
nonempty (String.◌∷◌ c s) = true

-- bool(value)
unfoldable pub truthy : Json → Bool
truthy null = false
truthy (bool b) = b
truthy (num zero) = false
truthy (num (suc n)) = true
truthy (decimal zero k) = false
truthy (decimal (suc m) k) = true
truthy (str s) = nonempty s
truthy (list nil) = false
truthy (list (cons x xs)) = true
truthy (object end) = false
truthy (object (field k v fs)) = true

unfoldable pub field_of : String → Fields → Option Json
field_of k end = none
field_of k (field j v fs) = if j == k then some v else field_of k fs

-- value ->> key, on an object
unfoldable pub get : String → Json → Option Json
unfolding field_of
get k (object fs) = field_of k fs
get k _ = none

-- d[key] = value on an object: in place, or at the end.
unfoldable pub set_field : String → Json → Fields → Fields
set_field k v end = field k v end
set_field k v (field j w fs) = if j == k then field j v fs else field j w (set_field k v fs)

-- {**fs, **gs}, and jsonb's || on objects
unfoldable pub merge_fields : Fields → Fields → Fields
unfolding set_field
merge_fields fs end = fs
merge_fields fs (field k v gs) = merge_fields (set_field k v fs) gs

unfoldable pub append_items : Items → Items → Items
append_items nil ys = ys
append_items (cons x xs) ys = cons x (append_items xs ys)

abbrev pub as_items : Json → Items
as_items (list xs) = xs
as_items other = cons other nil

-- jsonb || jsonb: objects are merged, anything else is put end to end as arrays.
unfoldable pub concat : Json → Json → Json
unfolding merge_fields append_items
concat (object fs) (object gs) = object (merge_fields fs gs)
concat a b = list (append_items (as_items a) (as_items b))

-- jsonb_set(target, [key], value, true): an error on anything but an object, as a key that is no
-- number is an error on an array.
unfoldable pub jsonb_set : String → Json → Json → Option Json
unfolding set_field
jsonb_set key value (object fs) = some (object (set_field key value fs))
jsonb_set key value _ = none
