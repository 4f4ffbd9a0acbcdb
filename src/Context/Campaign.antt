-- ===== src/Context/Campaign.antt =====
-- What the campaign of a page holds.
use iforevents_sdks.Prelude.{String, ◌≡◌, refl, ◌∙◌, Option, none, some, ◌==◌, if◌then◌else◌, arith}
use iforevents_sdks.Js.Value.{Value, string, Properties, empty, entry, get, get-put}
use iforevents_sdks.Flatten.Leaves.{or_else}
use iforevents_sdks.Api.{truthy}
use iforevents_sdks.Context.{
  SearchParams, campaign_fields, put_text, campaign_of, unless_empty, campaign_from_search,
}

-- The parameter as a value, if it is there and not empty.
abbrev pub given : SearchParams → String → Option Value
given params param = elim (truthy (params param)) [ none ↦ none | some v ↦ some (string v) ]

-- The fields of a campaign, where no campaign has none.
abbrev pub read : String → Option Properties → Option Value
read field none = none
read field (some p) = get field p

read-unless_empty : (k : String) (p : Properties) → read k (unless_empty p) ≡ get k p
unfolding get
read-unless_empty k empty = refl
read-unless_empty k (entry j v p) = refl

get-put_text :
    (k j : String) (o : Option String) (p : Properties)
    → get j (put_text k o p) ≡ (
        if k == j
        then or_else (elim o [ none ↦ none | some v ↦ some (string v) ]) (get j p)
        else get j p)
get-put_text k j none p = ground arith
get-put_text k j (some v) p = ground (arith, get-put k j (string v) p)

or_else-none : (o : Option Value) → or_else o none ≡ o
or_else-none none = refl
or_else-none (some v) = refl

abbrev full : SearchParams → Properties
full params = campaign_of params campaign_fields empty

found :
    (params : SearchParams)
    → let campaign = unless_empty (campaign_of params campaign_fields empty) in
      (read "source" campaign ≡ given params "utm_source")
      × (read "medium" campaign ≡ given params "utm_medium")
      × (read "name" campaign ≡ given params "utm_campaign")
      × (read "term" campaign ≡ given params "utm_term")
      × (read "content" campaign ≡ given params "utm_content")
unfolding get
found params = (
  read-unless_empty "source" (full params) ∙ simp (get-put_text, or_else-none),
  read-unless_empty "medium" (full params) ∙ simp (get-put_text, or_else-none),
  read-unless_empty "name" (full params) ∙ simp (get-put_text, or_else-none),
  read-unless_empty "term" (full params) ∙ simp (get-put_text, or_else-none),
  read-unless_empty "content" (full params) ∙ simp (get-put_text, or_else-none),
)

-- Each field of the campaign is the parameter that it is named for, where the page has it and it
-- is not empty; the others are absent.
pub read-campaign_from_search :
    (parse : String → Option SearchParams) (text : String) (params : SearchParams)
    → parse text ≡ some params
    → let campaign = campaign_from_search parse text in
      (read "source" campaign ≡ given params "utm_source")
      × (read "medium" campaign ≡ given params "utm_medium")
      × (read "name" campaign ≡ given params "utm_campaign")
      × (read "term" campaign ≡ given params "utm_term")
      × (read "content" campaign ≡ given params "utm_content")
unfolding campaign_from_search
read-campaign_from_search parse text params e = rw (campaign_from_search, e) (found params)
