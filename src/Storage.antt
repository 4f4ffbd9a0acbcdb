-- ===== src/Storage.antt =====
-- js/packages/core/src/storage.ts. `Storage` is the interface that the api integration uses, for
-- stores whose calls do not reject; `IsLawful` is what it relies on.
pub mod Laws
use iforevents_sdks.Prelude.{
  String, ◌≡◌, Bool, Option, none, some, List, [], ◌∷◌, ◌==◌, if◌then◌else◌,
}

pub record Storage (S : Type 0) : Type 0 where
  pub get : String → S → Option String
  pub set : String → String → S → S
  pub remove : String → S → S

pub record IsLawful {S : Type 0} (st : Storage S) : Type 0 where
  pub get-set :
      (k j v : String) (s : S) → st.get j (st.set k v s) ≡ (if k == j then some v else st.get j s)
  pub get-remove :
      (k j : String) (s : S) → st.get j (st.remove k s) ≡ (if k == j then none else st.get j s)

-- `MemoryStorage.map`, a Map in its order of insertion.
abbrev pub Entries : Type 0
Entries = List (String × String)

unfoldable pub map_get : String → Entries → Option String
map_get key [] = none
map_get key ((k, v) ∷ m) = if k == key then some v else map_get key m

unfoldable pub map_set : String → String → Entries → Entries
map_set key value [] = (key, value) ∷ []
map_set key value ((k, v) ∷ m) = if k == key then (k, value) ∷ m else (k, v) ∷ map_set key value m

unfoldable pub map_delete : String → Entries → Entries
map_delete key [] = []
map_delete key ((k, v) ∷ m) =
    let rest = map_delete key m in if k == key then rest else (k, v) ∷ rest

abbrev pub memory_storage : Storage Entries
memory_storage = record { get = map_get; set = map_set; remove = map_delete }

-- The object that `WebStorage` wraps: `none` is an exception, which changes nothing.
pub record Backend (B : Type 0) : Type 0 where
  pub get_item : String → B → Option (Option String)
  pub set_item : String → String → B → Option B
  pub remove_item : String → B → Option B

module _ {B : Type 0} (backend : Backend B) where
  unfoldable pub web_get : String → B → Option String
  web_get key b = elim (backend.get_item key b) [ none ↦ none | some found ↦ found ]

  unfoldable pub web_set : String → String → B → B
  web_set key value b = elim (backend.set_item key value b) [ none ↦ b | some b' ↦ b' ]

  unfoldable pub web_remove : String → B → B
  web_remove key b = elim (backend.remove_item key b) [ none ↦ b | some b' ↦ b' ]

abbrev pub web_storage : {B : Type 0} → Backend B → Storage B
web_storage backend = record {
  get = web_get backend;
  set = web_set backend;
  remove = web_remove backend;
}
