-- ===== src/Vendors/People/Readers.antt =====
-- Where the calls of each vendor's client say whom they are about.
use iforevents_sdks.Prelude.{
  String, ◌≡◌, refl, false, Option, none, some, List, [], ◌∷◌, ◌==◌, if◌then◌else◌, arith,
}
use iforevents_sdks.Js.Value.{
  Value, string, object, Properties, empty, entry, get, put, get-put, assign, has,
}
use iforevents_sdks.Flatten.Flat.{has-put}
use iforevents_sdks.Flatten.Leaves.{get_absent}
use iforevents_sdks.Types.{PageEvent}
use iforevents_sdks.Vendors.{page_properties, Call, scalar_of, put_value, scalarize_from, scalarize}
use iforevents_sdks.Vendors.People.{Whom, user, anonymous, nobody}

-- The text under a key.
abbrev pub text_of : Option Value → Option String
text_of (some (string text)) = some text
text_of o = none

abbrev pub whom_of : Option String → Option String → Whom
whom_of (some id) other = user id
whom_of none (some id) = anonymous id
whom_of none none = nobody

-- The user under one key, else the anonymous one under the other.
unfoldable pub whom_in : String → String → Properties → Whom
whom_in user_key anonymous_key p =
    whom_of (text_of (get user_key p)) (text_of (get anonymous_key p))

abbrev pub last_object : List Value → Properties
last_object [] = empty
last_object (object p ∷ []) = p
last_object (v ∷ vs) = last_object vs

abbrev pub first_text : List Value → Whom
first_text (string id ∷ vs) = user id
first_text vs = nobody

-- The options of an event, which come last.
abbrev pub read_amplitude : Call → Whom
read_amplitude c = whom_in "user_id" "device_id" (last_object c.arguments)

-- The one argument of a call.
abbrev pub read_posthog : Call → Whom
read_posthog c = whom_in "distinctId" "distinctId" (last_object c.arguments)

abbrev pub read_segment : Call → Whom
read_segment c = whom_in "userId" "anonymousId" (last_object c.arguments)

-- The first argument of `people.set`, and a property of an event.
abbrev pub read_mixpanel : Call → Whom
read_mixpanel c =
    if c.method == "people.set"
    then first_text c.arguments
    else whom_in "distinct_id" "distinct_id" (last_object c.arguments)

-- What is put under other keys does not change whom an object names.
pub whom_in-put :
    (user_key anonymous_key k : String) (v : Value) (p : Properties)
    → (k == user_key) ≡ false
    → (k == anonymous_key) ≡ false
    → whom_in user_key anonymous_key (put k v p) ≡ whom_in user_key anonymous_key p
unfolding whom_in
whom_in-put user_key anonymous_key k v p e f =
    rw (get-put k user_key v p, get-put k anonymous_key v p, e, f) refl

put_value_absent :
    (k j : String) (o : Option Value) (p : Properties)
    → has k p ≡ false
    → (j == k) ≡ false
    → has k (put_value j o p) ≡ false
put_value_absent k j none p h e = h
put_value_absent k j (some v) p h e = rw (has-put j k v p, e, h) refl

scalarize_absent :
    (stringify : Value → String) (k : String) (p out : Properties)
    → has k out ≡ false
    → has k p ≡ false
    → has k (scalarize_from stringify p out) ≡ false
unfolding scalarize_from has
scalarize_absent stringify k empty out h a = h
scalarize_absent stringify k (entry j v p) out h a =
    scalarize_absent stringify k p (put_value j (scalar_of stringify v) out)
      (put_value_absent k j (scalar_of stringify v) out h (ground arith)) (ground arith)

assign_absent :
    (k : String) (out p : Properties)
    → has k out ≡ false
    → has k p ≡ false
    → has k (assign out p) ≡ false
unfolding assign has
assign_absent k out empty h a = h
assign_absent k out (entry j v p) h a =
    assign_absent k (put j v out) p (ground (arith, has-put j k v out)) (ground arith)

-- A key that is not there is not there after `scalarize`, either.
pub get-assign-scalarize :
    (stringify : Value → String) (k : String) (p : Properties)
    → has k p ≡ false
    → get k (assign empty (scalarize stringify p)) ≡ none
unfolding scalarize has
get-assign-scalarize stringify k p a =
    get_absent k _ (assign_absent k empty _ refl (scalarize_absent stringify k p empty refl a))

-- The properties of a page view have no other keys than its own and those of its routes.
pub page_properties_absent :
    (k : String) (before : Properties) (event : PageEvent)
    → has k before ≡ false
    → ("navigation_type" == k) ≡ false
    → ("to_route" == k) ≡ false
    → ("previous_route" == k) ≡ false
    → has k (page_properties before event) ≡ false
unfolding page_properties has
page_properties_absent k before event h a b c =
    assign_absent k (assign empty before) _ (assign_absent k empty before refl h)
      (rw (a, b, c) refl)
