-- ===== src/Browser/Agent/Versions.antt =====
-- Where the version of a system comes from.
use Prim.Native.Char.{code}
use text.Mathlib.TextLemmas.{nil-append, cons-append}
use iforevents_sdks.Prelude.{
  ℕ, String, ◌≡◌, refl, sym, Bool, true, Bool-cases, inl, inr, ◌||◌, subst, Option-cases, eqb,
  arith,
}
use iforevents_sdks.Browser.Agent.{
  match_run, match_ios, dotted, digit_or_dot, digit_or_low, digit_or_both, contains, os_of,
  parse_user_agent,
}
use iforevents_sdks.Browser.Agent.Search.{AllPass, Stands, match_run-Stands, match_ios-Stands}

dotted-AllPass :
    (test : ℕ → Bool) (s : String)
    → ((c : ℕ) → test c ≡ true → (eqb c b'_' || digit_or_dot c) ≡ true)
    → AllPass test s
    → AllPass digit_or_dot (dotted s)
unfolding dotted AllPass
dotted-AllPass test String.[] k h = tt
dotted-AllPass test (String.◌∷◌ c s) k (h, hs) = elim (Bool-cases (eqb (code c) b'_')) [
  | inl y ↦ rw y (
      subst (AllPass digit_or_dot) (sym (cons-append _ "" (dotted s))) (
        refl,
        subst (AllPass digit_or_dot) (sym (nil-append (dotted s))) (dotted-AllPass test s k hs),
      ))
  | inr n ↦ rw n (ground (arith, k (code c)), dotted-AllPass test s k hs)
]

-- What the name and the version of a system rest on: a version of digits and dots stands in the user
-- agent behind the mark of the system.
pub data Reads (ua : String) : String × String → Type 0 where
  windows : {v : String} → Stands "Windows NT " digit_or_dot v ua → Reads ua ("Windows", v)
  android : {v : String} → Stands "Android " digit_or_dot v ua → Reads ua ("Android", v)
  ios : {v : String} → Stands "OS " digit_or_low v ua → Reads ua ("iOS", dotted v)
  macos : {v : String} → Stands "Mac OS X " digit_or_both v ua → Reads ua ("macOS", dotted v)
  chrome_os : Reads ua ("ChromeOS", "")
  linux : Reads ua ("Linux", "")
  other : Reads ua ("Unknown", "")

os_of-Reads : (ua : String) → Reads ua (os_of ua)
unfolding os_of
os_of-Reads ua = elim (Option-cases (match_run "Windows NT " digit_or_dot ua)) [
  | inr (v, e) ↦ rw (e, os_of) (windows (match_run-Stands _ _ ua v e))
  | inl e ↦ elim (Option-cases (match_run "Android " digit_or_dot ua)) [
    | inr (v, f) ↦ rw (e, f, os_of) (android (match_run-Stands _ _ ua v f))
    | inl f ↦ elim (Option-cases (match_ios ua)) [
      | inr (v, g) ↦ rw (e, f, g, os_of) (ios (match_ios-Stands ua v g))
      | inl g ↦ elim (Option-cases (match_run "Mac OS X " digit_or_both ua)) [
        | inr (v, i) ↦ rw (e, f, g, i, os_of) (macos (match_run-Stands _ _ ua v i))
        | inl i ↦ elim (Bool-cases (contains "CrOS" ua)) [
          | inl y ↦ rw (e, f, g, i, y, os_of) chrome_os
          | inr n ↦ elim (Bool-cases (contains "Linux" ua)) [
            | inl y ↦ rw (e, f, g, i, n, y, os_of) linux
            | inr m ↦ rw (e, f, g, i, n, m, os_of) other
          ]
        ]
      ]
    ]
  ]
]

Reads-AllPass : (ua : String) (o : String × String) → Reads ua o → AllPass digit_or_dot o.1
unfolding AllPass
Reads-AllPass ua o (windows h) = h.passes
Reads-AllPass ua o (android h) = h.passes
Reads-AllPass ua o (ios h) = dotted-AllPass digit_or_low _ (λ c k. ground arith) h.passes
Reads-AllPass ua o (macos h) = dotted-AllPass digit_or_both _ (λ c k. ground arith) h.passes
Reads-AllPass ua o chrome_os = tt
Reads-AllPass ua o linux = tt
Reads-AllPass ua o other = tt

-- Of any user agent, the version that `parseUserAgent` gives is made of digits and dots; for
-- Windows, Android, iOS and macOS it is not empty before the underscores are replaced, and stands
-- in the user agent behind the mark of that system, and for ChromeOS, Linux and an unknown
-- system it is empty.
pub parse_user_agent-Reads :
    (ua : String)
    → let agent = parse_user_agent ua in
      Reads ua (agent.os, agent.os_version) × AllPass digit_or_dot agent.os_version
unfolding parse_user_agent
parse_user_agent-Reads ua = (os_of-Reads ua, Reads-AllPass ua (os_of ua) (os_of-Reads ua))
