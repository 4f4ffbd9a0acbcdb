-- ===== src/Api/Construct/Laws.antt =====
-- What an accepted configuration guarantees.
use Prim.Native.Char.{Char, code}
use iforevents_sdks.Prelude.{
  ℕ, ◌+◌, ◌/◌, ◌≤◌, String, ◌≡◌, refl, subst, ◌≢◌, inl, inr, Bool, true, false, ◌&&◌, eqb, leb,
  if◌then◌else◌, Bool-cases, arith,
}
use iforevents_sdks.Js.Number.{
  pos, negsuc, Number, nan, minus_infinity, plus_infinity, ratio, of_ℕ, max_number, min_number,
}
use iforevents_sdks.Js.Value.{
  Value, string, undefined, null, boolean, number, array, object, instance_of,
}
use iforevents_sdks.Js.Runtime.{is_blank}
use iforevents_sdks.Exec.{ok}
use iforevents_sdks.Api.{Config, max_batch}
use iforevents_sdks.Api.Construct.{
  RawConfig, default, is_empty_text, strip_slashes, clamp_batch, resolve, checked, of_key,
  construct,
}

-- The batch size that is used for one that was asked for.
pub data BatchSize (asked used : Number) : Type 0 where
  not_a_number : asked ≡ nan → used ≡ nan → BatchSize asked used
  in_range : (n : ℕ) → asked ≢ nan → used ≡ of_ℕ n → 1 ≤ n → n ≤ max_batch → BatchSize asked used

clamped : ℕ → ℕ
clamped n = if leb 500 n then 500 else if leb n 1 then 1 else n

clamped_lem : (n : ℕ) → max_number 1 (min_number max_batch (of_ℕ n)) ≡ of_ℕ (clamped n)
unfolding max_number min_number clamped
clamped_lem n = ground arith

clamped-InRange : (n : ℕ) → (1 ≤ clamped n) × (clamped n ≤ max_batch)
unfolding clamped
clamped-InRange n = ground arith

clamp_batch-BatchSize : (asked : Number) → BatchSize asked (clamp_batch asked)
unfolding clamp_batch max_number min_number
clamp_batch-BatchSize nan = not_a_number refl refl
clamp_batch-BatchSize minus_infinity = in_range 1 (λ e. cc) refl (omega arith) (omega arith)
clamp_batch-BatchSize plus_infinity = in_range 500 (λ e. cc) refl (omega arith) (omega arith)
clamp_batch-BatchSize (ratio (pos a) d) =
    let (low, high) = clamped-InRange (a / (d + 1)) in
    in_range (clamped (a / (d + 1))) (λ e. cc) (clamped_lem (a / (d + 1))) low high
clamp_batch-BatchSize (ratio (negsuc a) d) = in_range 1 (λ e. cc) refl (omega arith) (omega arith)

abbrev pub ends_in_slash : String → Bool
ends_in_slash String.[] = false
ends_in_slash (String.◌∷◌ c String.[]) = eqb (code c) b'/'
ends_in_slash (String.◌∷◌ c (String.◌∷◌ d s)) = ends_in_slash (String.◌∷◌ d s)

one_more :
    (c : Char) (t : String)
    → ends_in_slash t ≡ false
    → ends_in_slash (if is_empty_text t && eqb (code c) b'/' then "" else String.◌∷◌ c t) ≡ false
one_more c String.[] h = elim (Bool-cases (eqb (code c) b'/')) [
  | inl y ↦ rw y refl
  | inr n ↦ rw n n
]
one_more c (String.◌∷◌ d t) h = h

strip_slashes-ends : (s : String) → ends_in_slash (strip_slashes s) ≡ false
unfolding strip_slashes
strip_slashes-ends String.[] = refl
strip_slashes-ends (String.◌∷◌ c s) = one_more c (strip_slashes s) (strip_slashes-ends s)

-- What is known of an accepted configuration.
pub record IsResolved (raw : RawConfig) (c : Config) : Type 0 where
  pub key : raw.project_key ≡ string c.project_key
  pub not_blank : is_blank c.project_key ≡ false
  pub no_secret : raw.secret ≡ false
  pub has_fetch : raw.fetch ≡ true
  pub base_url : ends_in_slash c.base_url ≡ false
  pub batch_size : BatchSize (default raw.batch_size (of_ℕ 20)) c.batch_size

resolve-IsResolved :
    (raw : RawConfig) (key : String)
    → raw.project_key ≡ string key
    → is_blank key ≡ false
    → raw.secret ≡ false
    → raw.fetch ≡ true
    → IsResolved raw (resolve raw key)
unfolding resolve
resolve-IsResolved raw key e blank secret fetch = record {
  key = e;
  not_blank = blank;
  no_secret = secret;
  has_fetch = fetch;
  base_url = strip_slashes-ends (default raw.base_url "https://api.iforevents.com");
  batch_size = clamp_batch-BatchSize (default raw.batch_size (of_ℕ 20));
}

checked-IsResolved :
    (raw : RawConfig) (key : String) {c : Config}
    → raw.project_key ≡ string key
    → checked raw key ≡ ok c
    → IsResolved raw c
unfolding checked
checked-IsResolved raw key {c} e h =
    let (blank, secret, fetch, same) : (is_blank key ≡ false)
        × (raw.secret ≡ false)
        × (raw.fetch ≡ true)
        × (resolve raw key ≡ c) =
      ground arith in
    subst (λ d. IsResolved raw d) same (resolve-IsResolved raw key e blank secret fetch)

of_key-IsResolved :
    (raw : RawConfig) (v : Value) {c : Config}
    → raw.project_key ≡ v
    → of_key raw v ≡ ok c
    → IsResolved raw c
of_key-IsResolved raw (string key) e h = checked-IsResolved raw key e h
of_key-IsResolved raw undefined e h = cc
of_key-IsResolved raw null e h = cc
of_key-IsResolved raw (boolean b) e h = cc
of_key-IsResolved raw (number n) e h = cc
of_key-IsResolved raw (array a) e h = cc
of_key-IsResolved raw (object p) e h = cc
of_key-IsResolved raw (instance_of i) e h = cc

-- A configuration is accepted only with a project key that is a text and not blank, with no
-- secret, and with a `fetch`; its base URL then does not end in a slash, and its batch size is
-- between 1 and 500, unless the one that was asked for is NaN, which stays.
pub construct-IsResolved : (raw : RawConfig) {c : Config} → construct raw ≡ ok c → IsResolved raw c
unfolding construct
construct-IsResolved raw h = of_key-IsResolved raw raw.project_key refl h
