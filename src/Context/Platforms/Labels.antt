-- ===== src/Context/Platforms/Labels.antt =====
-- The contexts that carry the name and the version of the package that sends them.
use iforevents_sdks.Prelude.{◌≡◌, String, true, false, Option, none, some, ◌==◌}
use iforevents_sdks.Js.Value.{Value, string, Properties, put, get, get-put}
use iforevents_sdks.Context.{put_text, library_of}
use iforevents_sdks.Context.Shapes.{text, shape_at, fits, event_context_fields, EventContext}
use iforevents_sdks.Context.Fits.{put-all_fit, put_text-all_fit}

-- An `EventContext` whose library is the package of the name, at version 0.1.0.
abbrev pub SentBy : String → Properties → Type 0
SentBy sdk p = EventContext p × (get "library" p ≡ some (library_of sdk "0.1.0"))

module _ (sdk : String) where
  -- A field of another name is put into it.
  pub put-SentBy :
      (k : String) (v : Value) (p : Properties)
      → (k == "library") ≡ false
      → fits v (shape_at k event_context_fields) ≡ true
      → SentBy sdk p
      → SentBy sdk (put k v p)
  put-SentBy k v p other h (all, library) =
      (put-all_fit event_context_fields k v p h all, rw (get-put k "library" v p, other) library)

  pub put_text-SentBy :
      (k : String) (o : Option String) (p : Properties)
      → (k == "library") ≡ false
      → shape_at k event_context_fields ≡ some text
      → SentBy sdk p
      → SentBy sdk (put_text k o p)
  put_text-SentBy k none p other h sent = sent
  put_text-SentBy k (some t) p other h (all, library) = (
    put_text-all_fit event_context_fields k (some t) p h all,
    rw (get-put k "library" (string t) p, other) library,
  )
