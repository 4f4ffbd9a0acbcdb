-- ===== src/Js/Value.antt =====
-- Dynamic values. An object is its own enumerable properties in the order of insertion; the
-- reordering of integer-like keys and the key `__proto__` are left out.
use iforevents_sdks.Prelude.{
  String, ◌≡◌, refl, Bool, false, ◌||◌, Option, none, some, List, [], ◌∷◌, ◌==◌, if◌then◌else◌,
  arith, eq_iff,
}
use iforevents_sdks.Js.Number.{Number}

mutual
  -- `instance` is a Date, a function or an object of a class, of which only the identity counts.
  pub data Value : Type 0 where
    undefined null : Value
    boolean : Bool → Value
    number : Number → Value
    string : String → Value
    array : Items → Value
    object : Properties → Value
    instance_of : String → Value

  pub data Items : Type 0 where
    nil : Items
    item : Value → Items → Items

  pub data Properties : Type 0 where
    empty : Properties
    entry : String → Value → Properties → Properties

abbrev pub items : List Value → Items
items [] = nil
items (v ∷ vs) = item v (items vs)

abbrev pub elements : Items → List Value
elements nil = []
elements (item v vs) = v ∷ elements vs

-- `p[key]`, where a missing key reads as `undefined`.
unfoldable pub get : String → Properties → Option Value
get k empty = none
get k (entry j v p) = if j == k then some v else get k p

-- `p[key] = v`
unfoldable pub put : String → Value → Properties → Properties
put k v empty = entry k v empty
put k v (entry j w p) = if j == k then entry j v p else entry j w (put k v p)

-- `Object.assign(out, p)`, and `{ ...out, ...p }`
unfoldable pub assign : Properties → Properties → Properties
assign out empty = out
assign out (entry k v p) = assign (put k v out) p

-- Whether a key is there.
unfoldable pub has : String → Properties → Bool
has k empty = false
has k (entry j v p) = (j == k) || has k p

-- `const { k, ...rest } = p`
unfoldable pub without : String → Properties → Properties
without k empty = empty
without k (entry j v p) = let rest = without k p in if j == k then rest else entry j v rest

pub get-put :
    (k j : String) (v : Value) (p : Properties)
    → get j (put k v p) ≡ (if k == j then some v else get j p)
unfolding get put
get-put k j v empty = refl
get-put k j v (entry i w p) = ground (arith, eq_iff k j, eq_iff i k, eq_iff i j, get-put k j v p)

pub get-without :
    (k j : String) (p : Properties) → get j (without k p) ≡ (if k == j then none else get j p)
unfolding get without
get-without k j empty = ground arith
get-without k j (entry i w p) =
    ground (arith, eq_iff k j, eq_iff i k, eq_iff i j, get-without k j p)
