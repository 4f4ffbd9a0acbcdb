-- ===== src/Context/Shapes.antt =====
-- js/packages/core/src/types.ts: the interface `EventContext`, as a shape that values fit or not.
use iforevents_sdks.Prelude.{
  ◌≡◌, String, Bool, true, false, ◌&&◌, ◌||◌, Option, none, some, List, [], ◌∷◌, ◌==◌,
  if◌then◌else◌,
}
use iforevents_sdks.Js.Value.{Value, boolean, string, object, Properties, empty, entry, has}

mutual
  -- A text, one of some texts, a boolean, or an object with the fields given and no other.
  pub data Shape : Type 0 where
    text flag : Shape
    one_of : List String → Shape
    fields_of : Fields → Shape

  pub data Fields : Type 0 where
    closed : Fields
    required optional : String → Shape → Fields → Fields

abbrev pub is_one_of : String → List String → Bool
is_one_of s [] = false
is_one_of s (t ∷ ts) = (t == s) || is_one_of s ts

-- The shape that a field of a name has to have.
abbrev pub shape_at : String → Fields → Option Shape
shape_at k closed = none
shape_at k (required name shape fs) = if name == k then some shape else shape_at k fs
shape_at k (optional name shape fs) = if name == k then some shape else shape_at k fs

abbrev pub has_required : Fields → Properties → Bool
has_required closed p = true
has_required (required name shape fs) p = has name p && has_required fs p
has_required (optional name shape fs) p = has_required fs p

unfoldable mutual
  pub fits : Value → Option Shape → Bool
  fits (string s) (some text) = true
  fits (string s) (some (one_of texts)) = is_one_of s texts
  fits (boolean b) (some flag) = true
  fits (object p) (some (fields_of fs)) = has_required fs p && all_fit p fs
  fits v shape = false

  pub all_fit : Properties → Fields → Bool
  all_fit empty fs = true
  all_fit (entry k v p) fs = fits v (shape_at k fs) && all_fit p fs

abbrev texts_in : List String → Fields
texts_in [] = closed
texts_in (k ∷ ks) = optional k text (texts_in ks)

abbrev flags_in : List String → Fields
flags_in [] = closed
flags_in (k ∷ ks) = optional k flag (flags_in ks)

abbrev pub campaign_shape : Fields
campaign_shape = texts_in ("source" ∷ "medium" ∷ "name" ∷ "term" ∷ "content" ∷ [])

abbrev pub event_context_fields : Fields
event_context_fields =
    optional "library" (fields_of (required "name" text (required "version" text closed))) (
      optional "locale" text (
        optional "timezone" text (
          optional "campaign" (fields_of campaign_shape) (
            optional "device"
              (fields_of (
                optional "type" (one_of ("web" ∷ "ios" ∷ "android" ∷ "desktop" ∷ "server" ∷ []))
                  (texts_in ("manufacturer" ∷ "model" ∷ "id" ∷ []))))
              (optional "os" (fields_of (texts_in ("name" ∷ "version" ∷ []))) (
                optional "app" (fields_of (texts_in ("name" ∷ "version" ∷ "build" ∷ []))) (
                  optional "network"
                    (fields_of
                      (optional "carrier" text (flags_in ("wifi" ∷ "cellular" ∷ "bluetooth" ∷ []))))
                    closed)))))))

-- `EventContext`, of which no field is required.
abbrev pub EventContext : Properties → Type 0
EventContext p = all_fit p event_context_fields ≡ true
