-- ===== src/Vendors/Scalars.antt =====
-- What `scalarize` leaves of an object.
use iforevents_sdks.Prelude.{
  String, ◌≡◌, refl, ◌∙◌, Bool, true, false, Bool-cases, inl, inr, Option, none, some, ◌==◌,
  if◌then◌else◌, arith, eq_iff,
}
use iforevents_sdks.Js.Value.{
  Value, undefined, null, boolean, number, string, Properties, empty, entry, get, put, get-put,
}
use iforevents_sdks.Flatten.Flat.{IsDistinct}
use iforevents_sdks.Flatten.Leaves.{or_else, get_absent}
use iforevents_sdks.Vendors.{scalar_of, put_value, scalarize_from, scalarize}

abbrev pub is_scalar : Value → Bool
is_scalar (boolean b) = true
is_scalar (number n) = true
is_scalar (string s) = true
is_scalar v = false

-- Every value is a text, a number or a truth value.
unfoldable pub AllScalar : Properties → Type 0
AllScalar empty = Unit
AllScalar (entry k v p) = (is_scalar v ≡ true) × AllScalar p

put-AllScalar :
    (k : String) (v : Value) (p : Properties)
    → is_scalar v ≡ true
    → AllScalar p
    → AllScalar (put k v p)
unfolding put AllScalar
put-AllScalar k v empty s h = (s, tt)
put-AllScalar k v (entry j w p) s (h, hs) = elim (Bool-cases (j == k)) [
  | inl y ↦ rw y (s, hs)
  | inr n ↦ rw n (h, put-AllScalar k v p s hs)
]

module _ (stringify : Value → String) where
  put_value-AllScalar :
      (k : String) (v : Value) (p : Properties)
      → AllScalar p
      → AllScalar (put_value k (scalar_of stringify v) p)
  unfolding scalar_of
  put_value-AllScalar k undefined p h = h
  put_value-AllScalar k null p h = h
  put_value-AllScalar k (boolean b) p h = put-AllScalar k (boolean b) p refl h
  put_value-AllScalar k (number n) p h = put-AllScalar k (number n) p refl h
  put_value-AllScalar k (string s) p h = put-AllScalar k (string s) p refl h
  put_value-AllScalar k v p h = put-AllScalar k (string (stringify v)) p refl h

  scalarize_from-AllScalar :
      (p out : Properties) → AllScalar out → AllScalar (scalarize_from stringify p out)
  unfolding scalarize_from
  scalarize_from-AllScalar empty out h = h
  scalarize_from-AllScalar (entry k v p) out h =
      scalarize_from-AllScalar p _ (put_value-AllScalar k v out h)

  -- The scalar under a key, of a value or of none.
  abbrev pub read_scalar : Option Value → Option Value
  read_scalar none = none
  read_scalar (some v) = scalar_of stringify v

  get-put_value :
      (k j : String) (o : Option Value) (p : Properties)
      → get k (put_value j o p) ≡ (if j == k then or_else o (get k p) else get k p)
  get-put_value k j none p = ground arith
  get-put_value k j (some v) p = ground (arith, get-put j k v p)

  get-scalarize_from :
      (k : String) (p out : Properties)
      → IsDistinct p
      → get k (scalarize_from stringify p out) ≡ or_else (read_scalar (get k p)) (get k out)
  unfolding scalarize_from get IsDistinct
  get-scalarize_from k empty out h = refl
  get-scalarize_from k (entry j v p) out (fresh, h) =
      get-scalarize_from k p (put_value j (scalar_of stringify v) out) h
      ∙ elim (Bool-cases (j == k)) [
        | inl y ↦
            let same : j ≡ k = ground (arith, eq_iff j k) in
            rw (get-put_value, y, get_absent k p (rw same at fresh))
        | inr n ↦ rw (get-put_value, n)
      ]

  -- Of an object whose keys are distinct, `scalarize` keeps under each key the value, if it is a
  -- text, a number or a truth value, the JSON of any other, and nothing of null and undefined;
  -- all values that are left are texts, numbers and truth values.
  pub get-scalarize :
      (p : Properties)
      → IsDistinct p
      → ((k : String) → get k (scalarize stringify p) ≡ read_scalar (get k p))
        × AllScalar (scalarize stringify p)
  unfolding scalarize AllScalar get
  get-scalarize p h =
      (λ k. get-scalarize_from k p empty h ∙ ground arith, scalarize_from-AllScalar p empty tt)
