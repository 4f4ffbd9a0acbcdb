-- ===== src/Context/Fits.antt =====
-- Fields that are put into an object of a shape.
use iforevents_sdks.Prelude.{
  ◌≡◌, refl, String, true, ◌&&◌, Option, none, some, List, [], ◌∷◌, ◌==◌, eq_iff, All, arith,
  Bool-cases, inl, inr,
}
use iforevents_sdks.Js.Value.{Value, string, Properties, empty, entry, put}
use iforevents_sdks.Api.{truthy}
use iforevents_sdks.Context.{SearchParams, put_text, campaign_of}
use iforevents_sdks.Context.Shapes.{Shape, text, Fields, shape_at, fits, all_fit}

module _ (fs : Fields) where
  entry_lem :
      (k : String) (v : Value) (p : Properties)
      → all_fit (entry k v p) fs ≡ (fits v (shape_at k fs) && all_fit p fs)
  unfolding fits
  entry_lem k v p = refl

  pub put-all_fit :
      (k : String) (v : Value) (p : Properties)
      → fits v (shape_at k fs) ≡ true
      → all_fit p fs ≡ true
      → all_fit (put k v p) fs ≡ true
  unfolding put
  put-all_fit k v empty h all = rw (entry_lem k v empty, h) all
  put-all_fit k v (entry j w p) h all =
      let rest : all_fit p fs ≡ true = ground (arith, entry_lem j w p) in
      elim (Bool-cases (j == k)) [
        | inl same ↦
            let e : j ≡ k = ground (arith, eq_iff j k) in rw (same, entry_lem j v p, e, h) rest
        | inr other ↦
            let first : fits w (shape_at j fs) ≡ true = ground (arith, entry_lem j w p) in
            rw (other, entry_lem j w (put k v p), first) (put-all_fit k v p h rest)
      ]

  string_fits : {o : Option Shape} (s : String) → o ≡ some text → fits (string s) o ≡ true
  unfolding fits
  string_fits s h = rw h refl

  pub put_text-all_fit :
      (k : String) (o : Option String) (p : Properties)
      → shape_at k fs ≡ some text
      → all_fit p fs ≡ true
      → all_fit (put_text k o p) fs ≡ true
  put_text-all_fit k none p h all = all
  put_text-all_fit k (some s) p h all = put-all_fit k (string s) p (string_fits s h) all

module _ (fs : Fields) (params : SearchParams) where
  abbrev Texts : String × String → Type 0
  Texts (param, field) = shape_at field fs ≡ some text

  pub campaign_of-all_fit :
      (fields : List (String × String)) (p : Properties)
      → All Texts fields
      → all_fit p fs ≡ true
      → all_fit (campaign_of params fields p) fs ≡ true
  campaign_of-all_fit [] p texts h = h
  campaign_of-all_fit ((param, field) ∷ fields) p texts h =
      campaign_of-all_fit fields (put_text field (truthy (params param)) p) texts.1
        (put_text-all_fit fs field (truthy (params param)) p texts.0 h)
