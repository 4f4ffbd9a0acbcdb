-- ===== src/Provider/Hooks.antt =====
-- js/packages/react/src/index.tsx: `useIforevents`, and `useTrack` and `useIdentify`, whose memo of a
-- bound method React keeps while the client is the same.
pub mod Stable
use iforevents_sdks.Prelude.{
  ℕ, suc, String, ◌≡◌, refl, sym, ◌∙◌, ap, subst, eq_refl, Bool, true, false, ◌&&◌, Option, none,
  some, List, [], ◌∷◌, ◌++◌, length, eqb, ◌==◌, if◌then◌else◌, arith, Bool-cases, Option-cases, inl,
  inr,
}
use iforevents_sdks.Errors.{other}
use iforevents_sdks.Exec.{Outcome, ok, thrown, out_of_fuel, Exec}
use iforevents_sdks.Api.{truthy}
use iforevents_sdks.Browser.{Browser}
use iforevents_sdks.Provider.{
  Client, brought, made, Props, Provider, same_client, same_key, same_props, compute, make,
  remember, render,
}

-- The value of the context, `none` outside every provider.
unfoldable pub use_iforevents : Option Client → Outcome Client
use_iforevents none =
    thrown (other "[iforevents] useIforevents must be used inside <IforeventsProvider>")
use_iforevents (some client) = ok client

-- A component that calls `useTrack` or `useIdentify`: the memo, with the client it was computed for,
-- and how many methods were bound. A bound method is known by its number.
pub record Component : Type 0 where
  pub memo : Option (Client × ℕ)
  pub bound : ℕ

abbrev pub is_same : Client → Client → Bool
is_same (brought n) (brought m) = eqb n m
is_same (made n) (made m) = eqb n m
is_same a b = false

abbrev pub bind_method : Client → Component → Outcome ℕ × Component
bind_method client c = (ok c.bound, record { memo = some (client, c.bound); bound = suc c.bound })

-- `useMemo(() => client.track.bind(client), [client])`, and that of `identify`.
unfoldable pub use_method : Client → Component → Outcome ℕ × Component
use_method client c = elim c.memo [
  | none ↦ bind_method client c
  | some (before, n) ↦ if is_same before client then (ok n, c) else bind_method client c
]

-- `useTrack`, and `useIdentify`
abbrev pub use_bound : Outcome Client → Component → Outcome ℕ × Component
use_bound (ok client) c = use_method client c
use_bound (thrown e) c = (thrown e, c)
use_bound out_of_fuel c = (out_of_fuel, c)

-- What a component within a provider is given by a render of that.
abbrev pub within :
    {S : Type 0} → Outcome Client × Provider S → Component → Outcome ℕ × (Provider S × Component)
within (ok client, s) c =
    let (method, c') = use_bound (use_iforevents (some client)) c in (method, (s, c'))
within (thrown e, s) c = (thrown e, (s, c))
within (out_of_fuel, s) c = (out_of_fuel, (s, c))

module _ {S : Type 0} (create : String → Outcome (Browser S)) where
  -- A render of a provider, and of a component within it, if the provider's did not throw.
  unfoldable pub render_within : Props → Exec (Provider S × Component) ℕ
  unfolding render use_iforevents
  render_within props (s, c) = within (render create props s) c
