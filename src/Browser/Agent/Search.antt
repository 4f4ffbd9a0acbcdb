-- ===== src/Browser/Agent/Search.antt =====
-- What the searches in a user agent find: where the text that they give stands.
use Prim.Native.Char.{Char, code}
use Prim.Native.String.{◌++◌}
use text.Mathlib.TextEquality.{Char-path}
use text.Mathlib.TextLemmas.{append_assoc, nil-append, cons-append}
use iforevents_sdks.Prelude.{
  ℕ, String, ◌≡◌, refl, ◌∙◌, ap, sym, Bool, true, false, Bool-cases, inl, inr, Option, none, some,
  ◌==◌, subst, Option-cases, eqb, arith,
}
use mathlib.Core.Option.{some-injective}
use iforevents_sdks.Api.{truthy}
use iforevents_sdks.Browser.Agent.{
  bind, after_prefix, run_of, run_at, match_run, last_run, after_device, match_ios, digit_or_low,
  ends_line,
}

after_prefix-append : (p s r : String) → after_prefix p s ≡ some r → s ≡ p ++ r
unfolding after_prefix
after_prefix-append String.[] s r h = some-injective s r h ∙ sym (nil-append r)
after_prefix-append (String.◌∷◌ c p) String.[] r h = ground arith
after_prefix-append (String.◌∷◌ c p) (String.◌∷◌ d s) r h =
    elim (Bool-cases (eqb (code c) (code d))) [
      | inl y ↦
          ap (λ t. String.◌∷◌ d t) (after_prefix-append p s r (rw y at h))
          ∙ ap (λ x. String.◌∷◌ x (p ++ r)) (sym (Char-path c d (ground arith)))
          ∙ sym (cons-append c p r)
      | inr n ↦ ground arith
    ]

-- The characters of a text all pass a test.
unfoldable pub AllPass : (ℕ → Bool) → String → Type 0
AllPass test String.[] = Unit
AllPass test (String.◌∷◌ c s) = (test (code c) ≡ true) × AllPass test s

run_of-AllPass : (test : ℕ → Bool) (s : String) → AllPass test (run_of test s)
unfolding AllPass run_of
run_of-AllPass test String.[] = tt
run_of-AllPass test (String.◌∷◌ c s) = elim (Bool-cases (test (code c))) [
  | inl y ↦ rw y (y, run_of-AllPass test s)
  | inr n ↦ rw n tt
]

run_of-append : (test : ℕ → Bool) (s : String) → (b : String) × (s ≡ run_of test s ++ b)
unfolding run_of
run_of-append test String.[] = ("", refl)
run_of-append test (String.◌∷◌ c s) = elim (Bool-cases (test (code c))) [
  | inl y ↦
      (let (b, e) = run_of-append test s in
        (b, rw y (ap (λ t. String.◌∷◌ c t) e ∙ sym (cons-append c (run_of test s) b))))
  | inr n ↦ (String.◌∷◌ c s, rw n (sym (nil-append _)))
]

-- A run of characters that pass a test, which is not empty, behind a prefix somewhere in a text.
pub record Stands (prefix : String) (test : ℕ → Bool) (v : String) (s : String) : Type 0 where
  pub left : String
  pub right : String
  pub around : s ≡ left ++ (prefix ++ (v ++ right))
  pub passes : AllPass test v
  pub not_empty : (v == "") ≡ false

-- It stands behind one character more, too.
later-Stands :
    (prefix : String) (test : ℕ → Bool) (v : String) (c : Char) (s : String)
    → Stands prefix test v s
    → Stands prefix test v (String.◌∷◌ c s)
later-Stands prefix test v c s h = record {
  left = String.◌∷◌ c h.left;
  right = h.right;
  around = ap (λ t. String.◌∷◌ c t) h.around ∙ sym (cons-append c h.left _);
  passes = h.passes;
  not_empty = h.not_empty;
}

run_at-Stands :
    (prefix : String) (test : ℕ → Bool) (s v : String)
    → run_at prefix test s ≡ some v
    → Stands prefix test v s
unfolding run_at
run_at-Stands prefix test s v h = go (after_prefix prefix s) refl h
  where
    go :
        (o : Option String)
        → after_prefix prefix s ≡ o
        → (bind o λ rest. truthy (some (run_of test rest))) ≡ some v
        → Stands prefix test v s
    go none e h = ground arith
    go (some rest) e h = elim (Bool-cases (run_of test rest == "")) [
      | inl y ↦ ground arith
      | inr n ↦
          let same : run_of test rest ≡ v = some-injective _ _ (rw n at h) in
          let (right, split) = run_of-append test rest in
          record {
            left = "";
            right = right;
            around =
                after_prefix-append prefix s rest e
                ∙ ap (λ t. prefix ++ t) (split ∙ ap (λ t. t ++ right) same)
                ∙ sym (nil-append _);
            passes = subst (AllPass test) same (run_of-AllPass test rest);
            not_empty = rw same at n;
          }
    ]

pub match_run-Stands :
    (prefix : String) (test : ℕ → Bool) (s v : String)
    → match_run prefix test s ≡ some v
    → Stands prefix test v s
unfolding match_run
match_run-Stands prefix test String.[] v h = run_at-Stands prefix test "" v h
match_run-Stands prefix test (String.◌∷◌ c s) v h =
    elim (Option-cases (run_at prefix test (String.◌∷◌ c s))) [
      | inl e ↦ later-Stands prefix test v c s (match_run-Stands prefix test s v (rw e at h))
      | inr (w, e) ↦ run_at-Stands prefix test (String.◌∷◌ c s) v (e ∙ (rw e at h))
    ]

last_run-Stands :
    (prefix : String) (test : ℕ → Bool) (s v : String)
    → last_run prefix test s ≡ some v
    → Stands prefix test v s
unfolding last_run
last_run-Stands prefix test String.[] v h = run_at-Stands prefix test "" v h
last_run-Stands prefix test (String.◌∷◌ c s) v h = elim (Bool-cases (ends_line (code c))) [
  | inl y ↦ run_at-Stands prefix test (String.◌∷◌ c s) v (rw y at h)
  | inr n ↦ elim (Option-cases (last_run prefix test s)) [
    | inl e ↦ run_at-Stands prefix test (String.◌∷◌ c s) v (rw (n, e) at h)
    | inr (w, e) ↦
        later-Stands prefix test v c s (last_run-Stands prefix test s v (e ∙ (rw (n, e) at h)))
  ]
]

-- It stands behind more text, too.
append-Stands :
    (prefix : String) (test : ℕ → Bool) (v a s : String)
    → Stands prefix test v s
    → Stands prefix test v (a ++ s)
append-Stands prefix test v a s h = record {
  left = a ++ h.left;
  right = h.right;
  around = ap (λ t. a ++ t) h.around ∙ sym (append_assoc a h.left _);
  passes = h.passes;
  not_empty = h.not_empty;
}

after_device-append : (s r : String) → after_device s ≡ some r → (p : String) × (s ≡ p ++ r)
unfolding after_device
after_device-append s r h = elim (Option-cases (after_prefix "iPhone" s)) [
  | inr (a, e) ↦ ("iPhone", after_prefix-append "iPhone" s r (e ∙ (rw e at h)))
  | inl e ↦ elim (Option-cases (after_prefix "iPad" s)) [
    | inr (b, f) ↦ ("iPad", after_prefix-append "iPad" s r (f ∙ (rw (e, f) at h)))
    | inl f ↦ ("iPod", after_prefix-append "iPod" s r (rw (e, f) at h))
  ]
]

pub match_ios-Stands : (s v : String) → match_ios s ≡ some v → Stands "OS " digit_or_low v s
unfolding match_ios
match_ios-Stands String.[] v h = ground arith
match_ios-Stands (String.◌∷◌ c s) v h = elim (Option-cases (after_device (String.◌∷◌ c s))) [
  | inl e ↦ later-Stands "OS " digit_or_low v c s (match_ios-Stands s v (rw e at h))
  | inr (rest, e) ↦ elim (Option-cases (last_run "OS " digit_or_low rest)) [
    | inl f ↦ later-Stands "OS " digit_or_low v c s (match_ios-Stands s v (rw (e, f) at h))
    | inr (w, f) ↦
        let (p, split) = after_device-append (String.◌∷◌ c s) rest e in
        subst (Stands "OS " digit_or_low v) (sym split) (
          append-Stands "OS " digit_or_low v p rest
            (last_run-Stands "OS " digit_or_low rest v (f ∙ (rw (e, f) at h))))
  ]
]
