-- ===== src/Provider.antt =====
-- js/packages/react/src/index.tsx: `IforeventsProvider`. React keeps the ref `created` and the memo of
-- a mounted component, computes the memo anew when a dependency has changed, and runs the
-- cleanup of the effect when the component goes, or runs its effects again (StrictMode).
pub mod Life
pub mod Hooks
use iforevents_sdks.Prelude.{
  ℕ, zero, suc, ◌+◌, String, Bool, true, false, ◌&&◌, Option, none, some, List, [], ◌∷◌, ◌++◌,
  length, ◌==◌, if◌then◌else◌, eqb,
}
use iforevents_sdks.Errors.{Error, other}
use iforevents_sdks.Exec.{Outcome, ok, thrown, out_of_fuel, Exec}
use iforevents_sdks.Types.{IntegrationResult}
use iforevents_sdks.Api.{truthy}
use iforevents_sdks.Facade.{Clock}
use iforevents_sdks.Browser.{Browser}
use iforevents_sdks.Browser

-- A client: one that the props bring, by its identity, or the n-th that the provider has made.
pub data Client : Type 0 where
  brought made : ℕ → Client

-- The props that the memo depends on.
pub record Props : Type 0 where
  pub client : Option ℕ
  pub project_key : Option String

-- The clients made, in order, the ref `created`, and the memo with the props it was computed for.
pub record Provider (S : Type 0) : Type 0 where
  pub clients : List (Browser S)
  pub created : Option ℕ
  pub memo : Option (Props × Client)

abbrev pub same_client : Option ℕ → Option ℕ → Bool
same_client none none = true
same_client (some n) (some m) = eqb n m
same_client a b = false

abbrev pub same_key : Option String → Option String → Bool
same_key none none = true
same_key (some a) (some b) = a == b
same_key a b = false

abbrev pub same_props : Props → Props → Bool
same_props p q = same_client p.client q.client && same_key p.project_key q.project_key

module _ {S : Type 0} where
  abbrev pub remember : Props → Client → Exec (Provider S) Client
  remember props client s = (ok client, record s { memo = some (props, client) })

  -- `if (!created.current) created.current = createBrowserIforevents(projectKey, options);`
  abbrev pub make : Outcome (Browser S) → Props → Exec (Provider S) Client
  make (ok b) props s =
      remember props (made (length s.clients))
        (record s { clients = s.clients ++ b ∷ []; created = some (length s.clients) })
  make (thrown e) props s = (thrown e, s)
  make out_of_fuel props s = (out_of_fuel, s)

  -- The function of the memo.
  unfoldable pub compute : (String → Outcome (Browser S)) → Props → Exec (Provider S) Client
  compute create props s = elim props.client [
    | some n ↦ remember props (brought n) s
    | none ↦ elim (truthy props.project_key) [
      | none ↦ (thrown (other "[iforevents] IforeventsProvider needs a projectKey or a client"), s)
      | some key ↦ elim s.created [
        | some n ↦ remember props (made n) s
        | none ↦ make (create key) props s
      ]
    ]
  ]

  -- A render, which gives the client that the hooks see.
  unfoldable pub render : (String → Outcome (Browser S)) → Props → Exec (Provider S) Client
  unfolding compute
  render create props s = elim s.memo [
    | none ↦ compute create props s
    | some (before, client) ↦
        if same_props before props then (ok client, s) else compute create props s
  ]

  -- `void created.current?.shutdown()`, of the n-th client.
  unfoldable pub shut_down_at : Clock → ℕ → List (Browser S) → List (Browser S)
  shut_down_at clock n [] = []
  shut_down_at clock zero (b ∷ bs) = (Browser.shutdown clock b).1 ∷ bs
  shut_down_at clock (suc n) (b ∷ bs) = b ∷ shut_down_at clock n bs

  abbrev pub shut_down : Clock → Option ℕ → List (Browser S) → List (Browser S)
  shut_down clock none bs = bs
  shut_down clock (some n) bs = shut_down_at clock n bs

  -- The cleanup of the effect.
  unfoldable pub cleanup : Clock → Provider S → Provider S
  unfolding shut_down_at
  cleanup clock s = record s { clients = shut_down clock s.created s.clients; created = none }
