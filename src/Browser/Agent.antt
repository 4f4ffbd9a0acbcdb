-- ===== src/Browser/Agent.antt =====
-- js/packages/browser/src/context.ts: `parseUserAgent`. Its regular expressions are searches by
-- clauses; a line ends where `.` does not match.
pub mod Search
pub mod Versions
use iforevents_sdks.Prelude.{
  ℕ, String, Bool, true, false, ◌&&◌, ◌||◌, not, Option, none, some, List, [], ◌∷◌, ◌==◌,
  if◌then◌else◌, eqb, leb,
}
use Prim.Native.Char.{code}
use Prim.Native.String.{◌++◌}
use iforevents_sdks.Api.{truthy}

pub record Agent : Type 0 where
  pub browser : String
  pub os : String
  pub os_version : String

abbrev pub is_some {ℓ} : {A : Type ℓ} → Option A → Bool
is_some none = false
is_some (some a) = true

-- The first of two results that is there.
abbrev pub first_of {ℓ} : {A : Type ℓ} → Option A → Option A → Option A
first_of none b = b
first_of (some a) b = some a

-- What follows a prefix of a text.
unfoldable pub after_prefix : String → String → Option String
after_prefix String.[] s = some s
after_prefix (String.◌∷◌ c p) String.[] = none
after_prefix (String.◌∷◌ c p) (String.◌∷◌ d s) =
    let rest = after_prefix p s in if eqb (code c) (code d) then rest else none

-- `/text/.test(s)`
unfoldable pub contains : String → String → Bool
unfolding after_prefix
contains text String.[] = is_some (after_prefix text "")
contains text (String.◌∷◌ c s) = is_some (after_prefix text (String.◌∷◌ c s)) || contains text s

abbrev pub is_digit : ℕ → Bool
is_digit c = leb b'0' c && leb c b'9'

-- `[\d.]`, `[\d_]` and `[\d_.]`
abbrev pub digit_or_dot : ℕ → Bool
digit_or_dot c = is_digit c || eqb c b'.'

abbrev pub digit_or_low : ℕ → Bool
digit_or_low c = is_digit c || eqb c b'_'

abbrev pub digit_or_both : ℕ → Bool
digit_or_both c = digit_or_dot c || eqb c b'_'

-- The longest run of such characters at the beginning.
unfoldable pub run_of : (ℕ → Bool) → String → String
run_of test String.[] = ""
run_of test (String.◌∷◌ c s) =
    let rest = run_of test s in if test (code c) then String.◌∷◌ c rest else ""

abbrev pub bind {ℓ} : {A B : Type ℓ} → Option A → (A → Option B) → Option B
bind none f = none
bind (some a) f = f a

-- A prefix, and a run that is not empty behind it.
unfoldable pub run_at : String → (ℕ → Bool) → String → Option String
unfolding after_prefix run_of
run_at prefix test s = bind (after_prefix prefix s) λ rest. truthy (some (run_of test rest))

-- The first of them: the group of `/prefix([...]+)/`.
unfoldable pub match_run : String → (ℕ → Bool) → String → Option String
unfolding run_at
match_run prefix test String.[] = run_at prefix test ""
match_run prefix test (String.◌∷◌ c s) =
    first_of (run_at prefix test (String.◌∷◌ c s)) (match_run prefix test s)

abbrev pub ends_line : ℕ → Bool
ends_line c = eqb c 10 || eqb c 13 || eqb c 8232 || eqb c 8233

-- The last of them in a line, which `.*` leaves: the group of `/.*prefix([...]+)/`.
unfoldable pub last_run : String → (ℕ → Bool) → String → Option String
unfolding run_at
last_run prefix test String.[] = run_at prefix test ""
last_run prefix test (String.◌∷◌ c s) =
    let later = last_run prefix test s in
    first_of (if ends_line (code c) then none else later) (run_at prefix test (String.◌∷◌ c s))

-- What follows `iPhone`, `iPad` or `iPod`.
unfoldable pub after_device : String → Option String
unfolding after_prefix
after_device s =
    first_of (after_prefix "iPhone" s) (first_of (after_prefix "iPad" s) (after_prefix "iPod" s))

-- The group of `/(?:iPhone|iPad|iPod).*OS ([\d_]+)/`.
unfoldable pub match_ios : String → Option String
unfolding after_device last_run
match_ios String.[] = none
match_ios (String.◌∷◌ c s) =
    first_of (bind (after_device (String.◌∷◌ c s)) λ rest. last_run "OS " digit_or_low rest)
      (match_ios s)

-- `.replace(/_/g, ".")`
unfoldable pub dotted : String → String
dotted String.[] = ""
dotted (String.◌∷◌ c s) =
    let rest = dotted s in if eqb (code c) b'_' then "." ++ rest else String.◌∷◌ c rest

unfoldable pub browser_of : String → String
unfolding contains
browser_of ua =
    if contains "Edg/" ua
    then "Edge"
    else if contains "OPR/" ua
    then "Opera"
    else if contains "Chrome/" ua
    then "Chrome"
    else if contains "Firefox/" ua
    then "Firefox"
    else if contains "Safari/" ua && not (contains "Chrome" ua)
    then "Safari"
    else "Unknown"

-- The name and the version of the system.
unfoldable pub os_of : String → String × String
unfolding contains match_run match_ios dotted
os_of ua = elim (match_run "Windows NT " digit_or_dot ua) [
  | some v ↦ ("Windows", v)
  | none ↦ elim (match_run "Android " digit_or_dot ua) [
    | some v ↦ ("Android", v)
    | none ↦ elim (match_ios ua) [
      | some v ↦ ("iOS", dotted v)
      | none ↦ elim (match_run "Mac OS X " digit_or_both ua) [
        | some v ↦ ("macOS", dotted v)
        | none ↦
            if contains "CrOS" ua
            then ("ChromeOS", "")
            else if contains "Linux" ua
            then ("Linux", "")
            else ("Unknown", "")
      ]
    ]
  ]
]

-- `parseUserAgent`
unfoldable pub parse_user_agent : String → Agent
unfolding browser_of os_of
parse_user_agent ua = record {
  browser = browser_of ua;
  os = (os_of ua).0;
  os_version = (os_of ua).1;
}
