-- ===== src/Flatten/Flat.antt =====
-- The shape of what `flatten` answers: no object is nested in it, and no key is twice in it.
use iforevents_sdks.Prelude.{
  String, ◌≡◌, refl, false, ◌||◌, Bool-cases, inl, inr, ◌==◌, arith, eq_iff,
}
use iforevents_sdks.Js.Value.{Value, object, Properties, empty, entry, put, has, assign}
use iforevents_sdks.Flatten.{is_plain_object, joined, flatten_value, flatten_from, flatten}

unfoldable pub IsFlat : Properties → Type 0
IsFlat empty = Unit
IsFlat (entry k v p) = (is_plain_object v ≡ false) × IsFlat p

unfoldable pub IsDistinct : Properties → Type 0
IsDistinct empty = Unit
IsDistinct (entry k v p) = (has k p ≡ false) × IsDistinct p

put-IsFlat :
    (k : String) (v : Value) (p : Properties)
    → is_plain_object v ≡ false
    → IsFlat p
    → IsFlat (put k v p)
unfolding put IsFlat
put-IsFlat k v empty leaf h = (leaf, tt)
put-IsFlat k v (entry j w p) leaf (h, hs) = elim (Bool-cases (j == k)) [
  | inl y ↦ rw y (leaf, hs)
  | inr n ↦ rw n (h, put-IsFlat k v p leaf hs)
]

assign-IsFlat : (out p : Properties) → IsFlat out → IsFlat p → IsFlat (assign out p)
unfolding assign IsFlat
assign-IsFlat out empty h hp = h
assign-IsFlat out (entry k v p) h (leaf, hp) =
    assign-IsFlat (put k v out) p (put-IsFlat k v out leaf h) hp

pub has-put :
    (k j : String) (v : Value) (p : Properties) → has j (put k v p) ≡ ((k == j) || has j p)
unfolding has put
has-put k j v empty = refl
has-put k j v (entry i w p) = ground (arith, eq_iff k j, eq_iff i k, eq_iff i j, has-put k j v p)

put-IsDistinct : (k : String) (v : Value) (p : Properties) → IsDistinct p → IsDistinct (put k v p)
unfolding put has IsDistinct
put-IsDistinct k v empty h = (refl, tt)
put-IsDistinct k v (entry j w p) (h, hs) = elim (Bool-cases (j == k)) [
  | inl y ↦ rw y (h, hs)
  | inr n ↦ rw n (ground (arith, has-put k j v p, eq_iff k j, eq_iff j k), put-IsDistinct k v p hs)
]

assign-IsDistinct : (out p : Properties) → IsDistinct out → IsDistinct (assign out p)
unfolding assign
assign-IsDistinct out empty h = h
assign-IsDistinct out (entry k v p) h = assign-IsDistinct (put k v out) p (put-IsDistinct k v out h)

pub flatten_from-IsDistinct :
    (p out : Properties) (prefix : String) → IsDistinct out → IsDistinct (flatten_from p out prefix)
unfolding flatten_from flatten_value
flatten_from-IsDistinct empty out prefix h = h
flatten_from-IsDistinct (entry k (object q) p) out prefix h =
    let inner = flatten_from q empty (joined prefix k) in
    flatten_from-IsDistinct p (assign out inner) prefix (assign-IsDistinct out inner h)
flatten_from-IsDistinct (entry k v p) out prefix h =
    flatten_from-IsDistinct p (put (joined prefix k) v out) prefix
      (put-IsDistinct (joined prefix k) v out h)

flatten_from-IsFlat :
    (p out : Properties) (prefix : String) → IsFlat out → IsFlat (flatten_from p out prefix)
unfolding flatten_from flatten_value is_plain_object IsFlat
flatten_from-IsFlat empty out prefix h = h
flatten_from-IsFlat (entry k (object q) p) out prefix h =
    let inner = flatten_from q empty (joined prefix k) in
    flatten_from-IsFlat p (assign out inner) prefix
      (assign-IsFlat out inner h (flatten_from-IsFlat q empty (joined prefix k) tt))
flatten_from-IsFlat (entry k v p) out prefix h =
    flatten_from-IsFlat p (put (joined prefix k) v out) prefix
      (put-IsFlat (joined prefix k) v out refl h)

-- Whatever is passed, no value of the flattened object is a plain object, and no key is in it
-- twice.
pub flatten-IsFlat : (p : Properties) → IsFlat (flatten p) × IsDistinct (flatten p)
unfolding flatten IsFlat IsDistinct
flatten-IsFlat p = (flatten_from-IsFlat p empty "" tt, flatten_from-IsDistinct p empty "" tt)
