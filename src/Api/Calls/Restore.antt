-- ===== src/Api/Calls/Restore.antt =====
-- What `init` takes from the store.
use iforevents_sdks.Prelude.{
  ◌+◌, String, ◌≡◌, refl, ◌∙◌, ◌≢◌, Bool, true, false, Option, none, some, if◌then◌else◌, arith,
  eq_iff,
}
use iforevents_sdks.Js.Value.{Value, nil, item, array}
use iforevents_sdks.Exec.{ok}
use iforevents_sdks.Storage.{IsLawful}
use iforevents_sdks.Ids.{anonymous_id}
use iforevents_sdks.Api.{
  Env, State, new_state, user_key, identified_key, anonymous_key, queue_key, truthy,
}
use iforevents_sdks.Api.Calls.{
  is_true, set_anonymous, set_user, restored, restore_identity, restored_queue, restore_queue, init,
}
use iforevents_sdks.Api.Calls.Identity.{set_user-Mirrored, set_anonymous-stored}
use iforevents_sdks.Api.Calls.Visitor.{
  stored, Mirrored, Mirrored-SameVisitor, SameVisitor, SameVisitor-refl, SameVisitor-of_fields,
  SameVisitor-remove_queue,
}

module _ {S : Type 0} (env : Env S) (lawful : IsLawful env.storage) where
  restored_queue-SameVisitor :
      (v : Option Value) (s t : State S)
      → SameVisitor env s t
      → SameVisitor env s (restored_queue env v t)
  unfolding restored_queue
  restored_queue-SameVisitor none s t h = SameVisitor-remove_queue env lawful s t h
  restored_queue-SameVisitor (some (array nil)) s t h = h
  restored_queue-SameVisitor (some (array (item v vs))) s t h =
      SameVisitor-of_fields env h (ground arith) (ground arith) (ground arith) (ground arith)
        (ground arith)
  restored_queue-SameVisitor (some _) s t h = h

  raw-SameVisitor :
      (on : Bool) (raw : Option String) (s : State S)
      → SameVisitor env s (
          if on
          then elim raw [ none ↦ s | some text ↦ restored_queue env (env.runtime.parse text) s ]
          else s)
  raw-SameVisitor false raw s = SameVisitor-refl env s
  raw-SameVisitor true none s = SameVisitor-refl env s
  raw-SameVisitor true (some text) s =
      restored_queue-SameVisitor (env.runtime.parse text) s s (SameVisitor-refl env s)

  restore_queue-SameVisitor : (s : State S) → SameVisitor env s (restore_queue env s)
  unfolding restore_queue
  restore_queue-SameVisitor s =
      raw-SameVisitor env.config.persist_queue (truthy (env.storage.get queue_key s.store)) s

  pub init_run :
      (s : State S)
      → env.hooks.on_init ≡ none
      → init env s
        ≡ (ok tt, record (restore_queue env (restore_identity env s)) { initialized = true })
  unfolding init
  init_run s hook = ground arith

  init-SameVisitor :
      (s : State S)
      → env.hooks.on_init ≡ none
      → SameVisitor env (restore_identity env s) (init env s).1
        × ((init env s).1.initialized ≡ true)
  init-SameVisitor s hook = rw (init_run s hook) (
    SameVisitor-of_fields env (restore_queue-SameVisitor (restore_identity env s)) refl refl refl
        refl refl,
    refl,
  )

  resumed :
      (s : State S) (user anonymous : String)
      → stored env user_key s ≡ some user
      → stored env anonymous_key s ≡ some anonymous
      → user ≢ ""
      → anonymous ≢ ""
      → let t = restore_identity env s in
        (t.user_id ≡ some user)
        × (t.anon_id ≡ some anonymous)
        × (t.identified ≡ is_true (stored env identified_key s))
  unfolding restore_identity restored set_anonymous set_user
  resumed s user anonymous u a hu ha = ground (arith, eq_iff user "", eq_iff anonymous "")

  -- A new instance over the store of an instance whose ids are in the store and not empty takes
  -- up the same visitor: the user id, the anonymous id, and whether it is identified.
  pub init_resumes :
      (s : State S) (user anonymous : String)
      → env.hooks.on_init ≡ none
      → Mirrored env s
      → s.user_id ≡ some user
      → s.anon_id ≡ some anonymous
      → user ≢ ""
      → anonymous ≢ ""
      → let t = (init env (new_state s.store)).1 in
        (t.user_id ≡ some user) × (t.anon_id ≡ some anonymous) × (t.identified ≡ s.identified)
  unfolding new_state
  init_resumes s user anonymous hook m u a hu ha =
      let start : State S = new_state s.store in
      let (v, _) = init-SameVisitor start hook in
      let (user_id, anon_id, identified) =
        resumed start user anonymous (m.user ∙ u) (m.anonymous ∙ a) hu ha in
      (v.user_id ∙ user_id, v.anon_id ∙ anon_id, v.identified ∙ identified ∙ m.identified)

  started :
      (s : State S)
      → stored env user_key s ≡ none
      → stored env anonymous_key s ≡ none
      → let t = restore_identity env s in
        let id = some (anonymous_id (env.random s.drawn)) in
        (t.user_id ≡ id) × (t.anon_id ≡ id) × (t.identified ≡ false) × Mirrored env t
  unfolding restore_identity restored set_user set_anonymous
  started s u a =
      let id : String = anonymous_id (env.random s.drawn) in
      let drew : State S = record s { drawn = s.drawn + 1 } in
      let m =
        set_user-Mirrored env lawful id false (set_anonymous env id drew)
          (set_anonymous-stored env lawful id drew) in
      rw (u, a) (refl, refl, refl, m)

  -- Over a store without ids, `init` makes one id and writes it as the user's and the visitor's,
  -- not identified.
  pub init_fresh :
      (s : State S)
      → env.hooks.on_init ≡ none
      → stored env user_key s ≡ none
      → stored env anonymous_key s ≡ none
      → let t = (init env s).1 in
        let id = some (anonymous_id (env.random s.drawn)) in
        (t.user_id ≡ id)
        × (t.anon_id ≡ id)
        × (t.identified ≡ false)
        × (t.initialized ≡ true)
        × Mirrored env t
  init_fresh s hook u a =
      let (v, done) = init-SameVisitor s hook in
      let (user_id, anon_id, identified, m) = started s u a in
      (
        v.user_id ∙ user_id,
        v.anon_id ∙ anon_id,
        v.identified ∙ identified,
        done,
        Mirrored-SameVisitor env m v,
      )
