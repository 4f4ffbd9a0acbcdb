-- ===== src/NextServer.antt =====
-- js/packages/next/src/server.ts: the client of a server process. A module may be loaded again
-- while the process goes on, which forgets its own variable; `globalThis` stays.
use iforevents_sdks.Prelude.{ℕ, zero, suc, ◌+◌, ◌≡◌, refl, Option, none, some, List, [], ◌∷◌, arith}

-- `singleton`, the global variable, and how often `createIforevents` has been called; a client is
-- named by the number of the call that made it.
pub record Process : Type 0 where
  pub singleton : Option ℕ
  pub global : Option ℕ
  pub created : ℕ
  pub shut_down : List ℕ

-- `getServerIforevents`
unfoldable pub get_server_iforevents : Process → ℕ × Process
get_server_iforevents s = elim s.singleton [
  | some client ↦ (client, s)
  | none ↦ elim s.global [
    | some client ↦ (client, record s { singleton = some client })
    | none ↦ (
      s.created,
      record s { singleton = some s.created; global = some s.created; created = s.created + 1 },
    )
  ]
]

abbrev pub current : Process → Option ℕ
current s = elim s.singleton [ some client ↦ some client | none ↦ s.global ]

abbrev pub shut : Option ℕ → List ℕ → List ℕ
shut none clients = clients
shut (some client) clients = client ∷ clients

-- `resetServerIforevents`
unfoldable pub reset_server_iforevents : Process → Process
reset_server_iforevents s = record s {
  singleton = none;
  global = none;
  shut_down = shut (current s) s.shut_down;
}

-- What happens in a process.
pub data Happening : Type 0 where
  asked reloaded was_reset : Happening

unfoldable pub after : List Happening → Process → Process
unfolding get_server_iforevents reset_server_iforevents
after [] s = s
after (asked ∷ rest) s = after rest (get_server_iforevents s).1
after (reloaded ∷ rest) s = after rest (record s { singleton = none })
after (was_reset ∷ rest) s = after rest (reset_server_iforevents s)

-- The clients before the n-th, the newest first.
abbrev pub before : ℕ → List ℕ
before zero = []
before (suc n) = n ∷ before n

-- No client is lost: all that were made have been shut down, each once and in order, but for one
-- that the process holds; the module knows that one or none.
pub data IsConsistent (s : Process) : Type 0 where
  idle : s.singleton ≡ none → s.global ≡ none → s.shut_down ≡ before s.created → IsConsistent s
  kept :
      {client : ℕ}
      → s.singleton ≡ none
      → s.global ≡ some client
      → s.created ≡ suc client
      → s.shut_down ≡ before client
      → IsConsistent s
  held :
      {client : ℕ}
      → s.singleton ≡ some client
      → s.global ≡ some client
      → s.created ≡ suc client
      → s.shut_down ≡ before client
      → IsConsistent s

get-IsConsistent : (s : Process) → IsConsistent s → IsConsistent (get_server_iforevents s).1
unfolding get_server_iforevents
get-IsConsistent s (idle e g d) = rw (e, g) (held refl refl (omega arith) d)
get-IsConsistent s (kept e g c d) = rw (e, g) (held refl refl c d)
get-IsConsistent s (held e g c d) = rw e (held refl g c d)

reload-IsConsistent : (s : Process) → IsConsistent s → IsConsistent (record s { singleton = none })
reload-IsConsistent s (idle e g d) = idle refl g d
reload-IsConsistent s (kept e g c d) = kept refl g c d
reload-IsConsistent s (held e g c d) = kept refl g c d

reset-IsConsistent : (s : Process) → IsConsistent s → IsConsistent (reset_server_iforevents s)
unfolding reset_server_iforevents
reset-IsConsistent s (idle e g d) = idle refl refl (rw (e, g) d)
reset-IsConsistent s (kept e g c d) = idle refl refl (rw (e, g, c, d) refl)
reset-IsConsistent s (held e g c d) = idle refl refl (rw (e, c, d) refl)

-- Whatever happens in a process, its modules loaded again included, every client that
-- `getServerIforevents` has made but the current one has been shut down, each of them once and
-- in order, and there is at most one current client, which the process and, if at all, the
-- module hold.
pub after-IsConsistent :
    (happenings : List Happening) (s : Process) → IsConsistent s → IsConsistent (after happenings s)
unfolding after
after-IsConsistent [] s h = h
after-IsConsistent (asked ∷ rest) s h = after-IsConsistent rest _ (get-IsConsistent s h)
after-IsConsistent (reloaded ∷ rest) s h = after-IsConsistent rest _ (reload-IsConsistent s h)
after-IsConsistent (was_reset ∷ rest) s h = after-IsConsistent rest _ (reset-IsConsistent s h)
