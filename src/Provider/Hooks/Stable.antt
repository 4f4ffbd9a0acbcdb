-- ===== src/Provider/Hooks/Stable.antt =====
-- The functions that the hooks give over the renders of a provider.
use iforevents_sdks.Prelude.{
  ℕ, String, ◌≡◌, refl, sym, ◌∙◌, ap, subst, eq_refl, true, ◌&&◌, Option, none, some, List, [], ◌∷◌,
  ◌++◌, length, if◌then◌else◌, arith, Bool-cases, inl, inr,
}
use iforevents_sdks.Errors.{other}
use iforevents_sdks.Exec.{Outcome, ok, thrown, out_of_fuel}
use iforevents_sdks.Api.{truthy}
use iforevents_sdks.Browser.{Browser}
use iforevents_sdks.Provider.{
  Client, brought, made, Props, Provider, same_client, same_key, same_props, compute, make,
  remember, render,
}
use iforevents_sdks.Provider.Hooks.{
  use_iforevents, Component, is_same, bind_method, use_method, within, render_within,
}

is_same_refl : (client : Client) → is_same client client ≡ true
is_same_refl (brought n) = ground arith
is_same_refl (made n) = ground arith

same_props_refl : (p : Props) → same_props p p ≡ true
same_props_refl p = go p.client p.project_key
  where
    go :
        (client : Option ℕ) (key : Option String)
        → (same_client client client && same_key key key) ≡ true
    go none none = refl
    go none (some key) = eq_refl key
    go (some n) none = ground arith
    go (some n) (some key) = ground (arith, eq_refl key)

bound_again :
    (client before : Client) (c : Component) (n : ℕ)
    → c.memo ≡ some (before, n)
    → is_same before client ≡ true
    → use_method client c ≡ (ok n, c)
unfolding use_method
bound_again client before c n kept same =
    subst
      (λ m.
        use_method client (record { memo = m; bound = c.bound })
        ≡ (ok n, record { memo = m; bound = c.bound }))
      (sym kept) (rw (same, use_method) refl)

-- A call binds a method, and the next gives the same.
abbrev Binds : Client → Outcome ℕ × Component → Type 0
Binds client (o, c) = (n : ℕ) × ((o ≡ ok n) × (use_method client c ≡ (ok n, c)))

use_method-Binds : (client : Client) (c : Component) → Binds client (use_method client c)
unfolding use_method
use_method-Binds client c = go c.memo refl
  where
    fresh : Binds client (bind_method client c)
    fresh = (c.bound, (refl, bound_again client client _ c.bound refl (is_same_refl client)))

    go :
        (m : Option (Client × ℕ))
        → c.memo ≡ m
        → Binds client (elim m [
          | none ↦ bind_method client c
          | some (before, n) ↦ if is_same before client then (ok n, c) else bind_method client c
        ])
    go none e = fresh
    go (some (before, n)) e = elim (Bool-cases (is_same before client)) [
      | inl same ↦
          subst (λ b. Binds client (if b then (ok n, c) else bind_method client c)) (sym same)
            (n, (refl, bound_again client before c n e same))
      | inr changed ↦
          subst (λ b. Binds client (if b then (ok n, c) else bind_method client c)) (sym changed)
            fresh
    ]

module _ {S : Type 0} (create : String → Outcome (Browser S)) where
  abbrev providing : List (Browser S) → Option ℕ → Option (Props × Client) → Provider S
  providing clients created memo = record { clients = clients; created = created; memo = memo }

  -- A client of a memo for the same props is given again, and nothing changes.
  render_memo :
      (before props : Props) (client : Client) (s : Provider S)
      → s.memo ≡ some (before, client)
      → same_props before props ≡ true
      → render create props s ≡ (ok client, s)
  unfolding render
  render_memo before props client s kept same =
      subst
        (λ m.
          render create props (providing s.clients s.created m)
          ≡ (ok client, providing s.clients s.created m))
        (sym kept) (rw (same, render) refl)

  -- The memo holds the client that was given, if one was.
  abbrev Kept : Props → Outcome Client × Provider S → Type 0
  Kept props (o, s) =
      (client : Client)
      → o ≡ ok client
      → (before : Props) × ((s.memo ≡ some (before, client)) × (same_props before props ≡ true))

  remember-Kept :
      (props : Props) (client : Client) (s : Provider S) → Kept props (remember props client s)
  remember-Kept props client s given e = (props, (ground arith, same_props_refl props))

  make-Kept :
      (o : Outcome (Browser S)) (props : Props) (s : Provider S) → Kept props (make o props s)
  make-Kept (ok b) props s client e =
      remember-Kept props (made (length s.clients))
        (record s { clients = s.clients ++ b ∷ []; created = some (length s.clients) }) client e
  make-Kept (thrown x) props s client e = cc
  make-Kept out_of_fuel props s client e = cc

  compute-Kept : (props : Props) (s : Provider S) → Kept props (compute create props s)
  unfolding compute
  compute-Kept props s = go props.client (truthy props.project_key) s.created
    where
      go :
          (client : Option ℕ) (key : Option String) (created : Option ℕ)
          → Kept props (elim client [
            | some n ↦ remember props (brought n) s
            | none ↦ elim key [
              | none ↦ (
                thrown (other "[iforevents] IforeventsProvider needs a projectKey or a client"),
                s,
              )
              | some key ↦ elim created [
                | some n ↦ remember props (made n) s
                | none ↦ make (create key) props s
              ]
            ]
          ])
      go (some n) key created client e = remember-Kept props (brought n) s client e
      go none none created client e = cc
      go none (some key) (some n) client e = remember-Kept props (made n) s client e
      go none (some key) none client e = make-Kept (create key) props s client e

  render-Kept : (props : Props) (s : Provider S) → Kept props (render create props s)
  unfolding render
  render-Kept props s = go s.memo refl
    where
      go :
          (m : Option (Props × Client))
          → s.memo ≡ m
          → Kept props (elim m [
            | none ↦ compute create props s
            | some (before, client) ↦
                if same_props before props then (ok client, s) else compute create props s
          ])
      go none e = compute-Kept props s
      go (some (before, client)) e = elim (Bool-cases (same_props before props)) [
        | inl same ↦
            subst (λ b. Kept props (if b then (ok client, s) else compute create props s))
              (sym same) (λ given is. (before, (e ∙ ground arith, same)))
        | inr changed ↦
            subst (λ b. Kept props (if b then (ok client, s) else compute create props s))
              (sym changed) (compute-Kept props s)
      ]

  -- Within a provider whose props stay the same, `useTrack` and `useIdentify` give a component the
  -- same function at each render, and no client is made again, once the provider has not thrown.
  pub render_within_again :
      (props : Props) (s : Provider S) (c : Component) (n : ℕ)
      → (render_within create props (s, c)).0 ≡ ok n
      → render_within create props (render_within create props (s, c)).1
        ≡ (ok n, (render_within create props (s, c)).1)
  unfolding render_within use_iforevents
  render_within_again props s c n h = go (render create props s) (render-Kept props s) h
    where
      go :
          (r : Outcome Client × Provider S)
          → Kept props r
          → (within r c).0 ≡ ok n
          → render_within create props (within r c).1 ≡ (ok n, (within r c).1)
      go (ok client, t) kept h =
          let (before, (held, same)) = kept client refl in
          let (m, (is, again)) = use_method-Binds client c in
          ap (λ r. within r (use_method client c).1) (render_memo before props client t held same)
          ∙ ap (λ r. (r.0, (t, r.1))) again
          ∙ ap (λ o. (o, (t, (use_method client c).1))) (sym is ∙ h)
      go (thrown e, t) kept h = cc
      go (out_of_fuel, t) kept h = cc
