-- ===== src/Tests/Core.antt =====
-- Flattening, errors, identifiers, stores and the constructor, on concrete values.
use iforevents_sdks.Prelude.{ℕ, ◌≤◌, ◌≡◌, ◌≢◌, refl, ◌↔◌, ◌⊎◌, true, false, none, some}
use iforevents_sdks.Js.Number.{nan}
use iforevents_sdks.Js.Value.{Value, Properties, empty, entry, string, object, get}
use iforevents_sdks.Js.Runtime.{is_blank, is_space}
use iforevents_sdks.Flatten.{flatten}
use iforevents_sdks.Flatten.Leaves.{last_leaf, leaf_of, get-flatten}
use iforevents_sdks.Errors.{classify_response, retryable, code_of}
use iforevents_sdks.Errors.Laws.{classify_response-retryable_iff}
use iforevents_sdks.Storage.{Entries, Backend, map_get, map_set, map_delete}
use iforevents_sdks.Storage.Laws.{Answers, memory_storage-IsLawful}
use iforevents_sdks.Api.Construct.{RawConfig, resolve, construct, checked}
use iforevents_sdks.Api.Construct.Laws.{IsResolved, construct-IsResolved}
use iforevents_sdks.Tests.{plain_runtime}

-- A nested key and a plain one that reads the same: the last one counts.
abbrev nested : Properties
nested = entry "a" (object (entry "b" (string "old") empty)) (entry "a_b" (string "new") empty)

get-flatten_example : get "a_b" (flatten nested) ≡ some (string "new")
unfolding last_leaf leaf_of
get-flatten_example = get-flatten "a_b" nested

abbrev too_many : ℕ
too_many = 429

abbrev quota_body : Value
quota_body = object (entry "error" (string "quota_exceeded") empty)

classify_response-retryable_iff_example :
    (retryable (classify_response plain_runtime 429 quota_body none) ≡ true)
    ↔ ((500 ≤ 429) ⊎ ((too_many ≡ 429) × (code_of quota_body ≢ some "quota_exceeded")))
classify_response-retryable_iff_example =
    classify_response-retryable_iff plain_runtime 429 quota_body none

-- A backend that never throws.
abbrev willing : Backend Entries
willing = record {
  get_item = λ k b. some (map_get k b);
  set_item = λ k v b. some (map_set k v b);
  remove_item = λ k b. some (map_delete k b);
}

willing-Answers : Answers willing map_get
willing-Answers = record {
  get_answers = λ k b. refl;
  set_answers = λ k v b. (_, refl, λ j. memory_storage-IsLawful.get-set k j v b);
  remove_answers = λ k b. (_, refl, λ j. memory_storage-IsLawful.get-remove k j b);
}

-- The batch size that `Number("abc")` gives.
abbrev raw : RawConfig
raw = record {
  project_key = string "pk";
  secret = false;
  fetch = true;
  base_url = some "https://api.example//";
  batch_size = some nan;
  flush_interval = none;
  timeout = none;
  max_retries = none;
  retry_delay = none;
  requeue_failed_events = none;
  debug = none;
  throw_on_error = none;
  persist_queue = none;
  max_queue_size = none;
  user_agent = none;
}

construct-IsResolved_example : IsResolved raw (resolve raw "pk")
unfolding construct checked is_blank is_space
construct-IsResolved_example = construct-IsResolved raw refl
