-- ===== src/Storage/Laws.antt =====
-- The in-memory store meets the interface, and a guarded browser store does while its backend
-- does not throw.
use iforevents_sdks.Prelude.{
  String, ◌≡◌, refl, Option, none, some, [], ◌∷◌, ◌==◌, if◌then◌else◌, arith, eq_iff,
}
use iforevents_sdks.Storage.{
  IsLawful, Entries, map_get, map_set, map_delete, memory_storage, Backend, web_storage, web_get,
  web_set, web_remove,
}

map_get-map_set :
    (k j v : String) (m : Entries)
    → map_get j (map_set k v m) ≡ (if k == j then some v else map_get j m)
unfolding map_get map_set
map_get-map_set k j v [] = refl
map_get-map_set k j v ((i, w) ∷ m) =
    ground (arith, eq_iff k j, eq_iff i k, eq_iff i j, map_get-map_set k j v m)

map_get-map_delete :
    (k j : String) (m : Entries)
    → map_get j (map_delete k m) ≡ (if k == j then none else map_get j m)
unfolding map_get map_delete
map_get-map_delete k j [] = ground arith
map_get-map_delete k j ((i, w) ∷ m) =
    ground (arith, eq_iff k j, eq_iff i k, eq_iff i j, map_get-map_delete k j m)

-- The in-memory store reads back what was set last and nothing that was removed.
pub memory_storage-IsLawful : IsLawful memory_storage
memory_storage-IsLawful = record { get-set = map_get-map_set; get-remove = map_get-map_delete }

-- A backend that answers every call, and answers reads from what was written.
pub record Answers {B : Type 0} (backend : Backend B) (read : String → B → Option String)
    : Type 0 where
  pub get_answers : (k : String) (b : B) → backend.get_item k b ≡ some (read k b)
  pub set_answers :
      (k v : String) (b : B)
      → (b' : B) × (backend.set_item k v b ≡ some b')
        × ((j : String) → read j b' ≡ (if k == j then some v else read j b))
  pub remove_answers :
      (k : String) (b : B)
      → (b' : B) × (backend.remove_item k b ≡ some b')
        × ((j : String) → read j b' ≡ (if k == j then none else read j b))

-- Over a backend whose calls never throw, the guarded store meets the interface.
pub web_storage-IsLawful :
    {B : Type 0} (backend : Backend B) (read : String → B → Option String)
    → Answers backend read
    → IsLawful (web_storage backend)
unfolding web_get web_set web_remove
web_storage-IsLawful backend read a = record {
  get-set = λ k j v b.
      let (b', e, h) = a.set_answers k v b in
      ground (arith, e, a.get_answers j b', a.get_answers j b, h j);
  get-remove = λ k j b.
      let (b', e, h) = a.remove_answers k b in
      ground (arith, e, a.get_answers j b', a.get_answers j b, h j);
}

-- A write that the backend refuses leaves the guarded store as it was.
pub web_set-refused :
    {B : Type 0} (backend : Backend B) (k v : String) (b : B)
    → backend.set_item k v b ≡ none
    → web_set backend k v b ≡ b
unfolding web_set
web_set-refused backend k v b e = rw (e, web_set)
