-- ===== src/Flatten.antt =====
-- js/packages/core/src/flatten.ts
pub mod Leaves
pub mod Flat
use iforevents_sdks.Prelude.{String, Bool, true, false, ◌==◌, if◌then◌else◌}
use Prim.Native.String.{◌++◌}
use iforevents_sdks.Js.Value.{Value, Properties, empty, entry, object, put, assign}

-- `isPlainObject`
unfoldable pub is_plain_object : Value → Bool
is_plain_object (object p) = true
is_plain_object v = false

abbrev pub joined : String → String → String
joined prefix key = if prefix == "" then key else prefix ++ "_" ++ key

-- The rounds of the loop of `flatten`, over the object built so far.
unfoldable mutual
  pub flatten_value : Value → Properties → String → Properties
  flatten_value (object p) out name = assign out (flatten_from p empty name)
  flatten_value v out name = put name v out

  pub flatten_from : Properties → Properties → String → Properties
  flatten_from empty out prefix = out
  flatten_from (entry key value p) out prefix =
      flatten_from p (flatten_value value out (joined prefix key)) prefix

unfoldable pub flatten : Properties → Properties
unfolding flatten_from flatten_value
flatten input = flatten_from input empty ""
