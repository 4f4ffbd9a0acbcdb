-- ===== src/Flatten/Leaves.antt =====
-- What `flatten` answers, read key by key.
use iforevents_sdks.Prelude.{
  String, ◌≡◌, refl, ◌∙◌, sym, ap, subst, false, Bool-cases, inl, inr, Option, none, some, ◌==◌,
  if◌then◌else◌, arith, eq_iff,
}
use iforevents_sdks.Js.Value.{
  Value, object, Properties, empty, entry, get, put, has, assign, get-put,
}
use iforevents_sdks.Flatten.{joined, flatten_value, flatten_from, flatten}
use iforevents_sdks.Flatten.Flat.{IsDistinct, flatten_from-IsDistinct}

-- The second where there is no first.
abbrev pub or_else : Option Value → Option Value → Option Value
or_else none b = b
or_else (some v) b = some v

-- The last leaf of a nested object whose keys, joined by `_` to the prefix, read `k`.
unfoldable mutual
  pub leaf_of : Value → String → String → Option Value
  leaf_of (object p) name k = last_leaf p name k
  leaf_of v name k = if name == k then some v else none

  pub last_leaf : Properties → String → String → Option Value
  last_leaf empty prefix k = none
  last_leaf (entry key v p) prefix k =
      or_else (last_leaf p prefix k) (leaf_of v (joined prefix key) k)

-- The last value that is written under a key.
abbrev pub last : String → Properties → Option Value
last k empty = none
last k (entry j v p) = or_else (last k p) (if j == k then some v else none)

or_else_assoc : (a b c : Option Value) → or_else (or_else a b) c ≡ or_else a (or_else b c)
or_else_assoc none b c = refl
or_else_assoc (some v) b c = refl

get-put_else :
    (k j : String) (v : Value) (p : Properties)
    → get k (put j v p) ≡ or_else (if j == k then some v else none) (get k p)
get-put_else k j v p = ground (arith, get-put j k v p)

-- `{ ...out, ...p }`, read key by key.
pub get-assign :
    (k : String) (out p : Properties) → get k (assign out p) ≡ or_else (last k p) (get k out)
unfolding assign
get-assign k out empty = refl
get-assign k out (entry j v p) =
    get-assign k (put j v out) p
    ∙ ap (λ o. or_else (last k p) o) (get-put_else k j v out)
    ∙ sym (or_else_assoc (last k p) (if j == k then some v else none) (get k out))

pub get_absent : (k : String) (p : Properties) → has k p ≡ false → get k p ≡ none
unfolding get has
get_absent k empty h = refl
get_absent k (entry j v p) h = ground (arith, get_absent k p)

pub last_distinct : (k : String) (p : Properties) → IsDistinct p → last k p ≡ get k p
unfolding get IsDistinct
last_distinct k empty h = refl
last_distinct k (entry j v p) (fresh, h) = elim (Bool-cases (j == k)) [
  | inl y ↦
      let same : j ≡ k = ground (arith, eq_iff j k) in
      rw y (
        rw (last_distinct k p h)
          (rw (get_absent k p (subst (λ i. has i p ≡ false) same fresh)) refl))
  | inr n ↦ rw n (ground (arith, last_distinct k p h))
]

get-flatten_from :
    (k : String) (p out : Properties) (prefix : String)
    → get k (flatten_from p out prefix) ≡ or_else (last_leaf p prefix k) (get k out)
unfolding flatten_from flatten_value last_leaf leaf_of get IsDistinct
get-flatten_from k empty out prefix = refl
get-flatten_from k (entry key (object q) p) out prefix =
    let name = joined prefix key in
    let inner = flatten_from q empty name in
    get-flatten_from k p (assign out inner) prefix
    ∙ ap (λ o. or_else (last_leaf p prefix k) o)
        (get-assign k out inner
          ∙ ap (λ o. or_else o (get k out))
              (last_distinct k inner (flatten_from-IsDistinct q empty name tt)
                ∙ get-flatten_from k q empty name
                ∙ ground (arith)))
    ∙ sym (or_else_assoc (last_leaf p prefix k) (last_leaf q name k) (get k out))
get-flatten_from k (entry key v p) out prefix =
    get-flatten_from k p (put (joined prefix key) v out) prefix
    ∙ ap (λ o. or_else (last_leaf p prefix k) o) (get-put_else k (joined prefix key) v out)
    ∙ sym (
        or_else_assoc (last_leaf p prefix k) (if joined prefix key == k then some v else none)
          (get k out))

-- Under each key, the flattened object has the last leaf of the nested one whose keys, joined by
-- `_`, are that key, and nothing where there is no such leaf.
pub get-flatten : (k : String) (p : Properties) → get k (flatten p) ≡ last_leaf p "" k
unfolding flatten get
get-flatten k p = get-flatten_from k p empty "" ∙ ground (arith)
