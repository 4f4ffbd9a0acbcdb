-- ===== src/Provider/Life.antt =====
-- How many clients a provider makes, and what becomes of them.
use iforevents_sdks.Prelude.{
  ℕ, String, ◌≡◌, refl, ◌∙◌, ap, sym, subst, eq_refl, false, Bool-cases, inl, inr, Option, none,
  some, List, [], ◌∷◌, ◌==◌,
}
use iforevents_sdks.Exec.{Outcome, ok, thrown, out_of_fuel}
use iforevents_sdks.Facade.{Clock}
use iforevents_sdks.Facade
use iforevents_sdks.Facade.FanOut.{AllEnd}
use iforevents_sdks.Facade.Lifecycle.{IsClosed, shutdown-IsClosed}
use iforevents_sdks.Browser.{Browser}
use iforevents_sdks.Browser
use iforevents_sdks.Provider.{
  Client, made, Props, Provider, same_props, compute, render, make, shut_down_at, cleanup,
}

module _ {S : Type 0} (create : String → Outcome (Browser S)) where
  unfoldable pub render_all : List Props → Provider S → Provider S
  render_all [] s = s
  render_all (p ∷ ps) s = render_all ps (render create p s).1

  abbrev pub unmounted : Provider S
  unmounted = record { clients = []; created = none; memo = none }

  -- There is no client, or one, which the ref holds.
  pub data IsSingle : List (Browser S) → Option ℕ → Type 0 where
    no_client : IsSingle [] none
    one_client : (b : Browser S) → IsSingle (b ∷ []) (some 0)

  abbrev pub Holds : Provider S → Type 0
  Holds s = IsSingle s.clients s.created

  make-Holds :
      (o : Outcome (Browser S)) (props : Props) (memo : Option (Props × Client))
      → Holds (make o props (record { clients = []; created = none; memo = memo })).1
  make-Holds (ok b) props memo = one_client b
  make-Holds (thrown f) props memo = no_client
  make-Holds out_of_fuel props memo = no_client

  keyed-Holds :
      (key : String) (memo : Option (Props × Client)) (clients : List (Browser S))
      (created : Option ℕ)
      → (key == "") ≡ false
      → IsSingle clients created
      → Holds
          (compute create
            (record { client = none; project_key = some key })
            (record { clients = clients; created = created; memo = memo })).1
  unfolding compute
  keyed-Holds key memo clients created n no_client =
      rw (n, compute) (make-Holds (create key) _ memo)
  keyed-Holds key memo clients created n (one_client b) = rw (n, compute) (one_client b)

  compute-Holds :
      (client : Option ℕ) (key : Option String) (memo : Option (Props × Client))
      (clients : List (Browser S)) (created : Option ℕ)
      → IsSingle clients created
      → Holds
          (compute create
            (record { client = client; project_key = key })
            (record { clients = clients; created = created; memo = memo })).1
  unfolding compute
  compute-Holds (some n) key memo clients created h = h
  compute-Holds none none memo clients created h = h
  compute-Holds none (some key) memo clients created h = elim (Bool-cases (key == "")) [
    | inl y ↦ rw (y, compute) h
    | inr n ↦ keyed-Holds key memo clients created n h
  ]

  render-Holds :
      (props : Props) (memo : Option (Props × Client)) (clients : List (Browser S))
      (created : Option ℕ)
      → IsSingle clients created
      → Holds (render create props (record { clients = clients; created = created; memo = memo })).1
  unfolding render
  render-Holds props none clients created h =
      compute-Holds props.client props.project_key none clients created h
  render-Holds props (some (before, client)) clients created h =
      elim (Bool-cases (same_props before props)) [
        | inl y ↦ rw (y, render) h
        | inr n ↦
            rw (n, render)
              (compute-Holds props.client props.project_key (some (before, client)) clients created
                h)
      ]

  -- However often a provider is rendered, and whatever its props are then, until its effect is
  -- cleaned up it makes at most one client, which it keeps.
  pub render_all-Holds : (ps : List Props) (s : Provider S) → Holds s → Holds (render_all ps s)
  unfolding render_all
  render_all-Holds [] s h = h
  render_all-Holds (p ∷ ps) s h =
      render_all-Holds ps _ (render-Holds p s.memo s.clients s.created h)

  module _ (clock : Clock) where
    abbrev pub keyed : String → Props
    keyed key = record { client = none; project_key = some key }

    -- What a provider is left with when its effect has been cleaned up.
    abbrev pub cleaned : String → Provider S
    cleaned key = cleanup clock (render create (keyed key) unmounted).1

    -- The provider after its client has been made, and after that has been shut down.
    abbrev holding : String → Browser S → Option ℕ → Provider S
    holding key b created = record {
      clients = b ∷ [];
      created = created;
      memo = some (keyed key, made 0);
    }

    first_render :
        (key : String) (b : Browser S)
        → (key == "") ≡ false
        → create key ≡ ok b
        → (render create (keyed key) unmounted).1 ≡ holding key b (some 0)
    unfolding render compute
    first_render key b n e = rw (n, e, render, compute) refl

    cleaned_is :
        (key : String) (b : Browser S)
        → (key == "") ≡ false
        → create key ≡ ok b
        → cleaned key ≡ holding key (Browser.shutdown clock b).1 none
    unfolding cleanup shut_down_at
    cleaned_is key b n e = ap (cleanup clock) (first_render key b n e)

    next_render :
        (key : String) (b : Browser S)
        → render create (keyed key) (holding key b none) ≡ (ok (made 0), holding key b none)
    unfolding render
    next_render key b = rw (eq_refl key, render) refl

    shut_down_facade :
        (b : Browser S)
        → b.ready ≡ ok tt
        → (Browser.shutdown clock b).1.iforevents ≡ (Facade.shutdown clock b.iforevents).1
    unfolding Browser.shutdown
    shut_down_facade b r = rw (r, Browser.shutdown) refl

    -- Where the effect of a provider that has made its client is cleaned up while it stays
    -- mounted, and all integrations come to an end with the shutdown, its next render gives the
    -- same client, whose facade is closed.
    pub cleanup-IsClosed :
        (key : String) (b : Browser S)
        → (key == "") ≡ false
        → create key ≡ ok b
        → b.ready ≡ ok tt
        → AllEnd (λ i. i.shutdown) b.iforevents.integrations
        → (render create (keyed key) (cleaned key) ≡ (ok (made 0), cleaned key))
          × ((c : Browser S) × (((cleaned key).clients ≡ c ∷ []) × IsClosed clock c.iforevents))
    cleanup-IsClosed key b n e r h =
        let closed = shutdown-IsClosed clock b.iforevents h in
        let is = cleaned_is key b n e in
        (
          ap (render create (keyed key)) is
              ∙ next_render key (Browser.shutdown clock b).1
              ∙ ap (λ s. (ok (made 0), s)) (sym is),
          (
            (Browser.shutdown clock b).1,
            (
              ap (λ (s : Provider S). s.clients) is,
              subst (IsClosed clock) (sym (shut_down_facade b r)) closed.0,
            ),
          ),
        )
