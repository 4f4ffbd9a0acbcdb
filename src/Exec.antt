-- ===== src/Exec.antt =====
-- Calls that change an object and may reject. What was written before a rejection stays written.
-- `out_of_fuel` stands for a loop that has not ended within its fuel, and for a promise that nobody
-- settles.
pub mod Keeps
use iforevents_sdks.Prelude.{◌≡◌, refl, ◌⊎◌, inl, inr}
use iforevents_sdks.Errors.{Error}

pub data Outcome (A : Type 0) : Type 0 where
  ok : A → Outcome A
  thrown : Error → Outcome A
  out_of_fuel : Outcome A

abbrev pub Exec : Type 0 → Type 0 → Type 0
Exec S A = S → Outcome A × S

abbrev pub then_run : {S A B : Type 0} → Outcome A → (A → Exec S B) → Exec S B
then_run (ok a) f s = f a s
then_run (thrown e) f s = (thrown e, s)
then_run out_of_fuel f s = (out_of_fuel, s)

infixl 5 ◌>>=◌ ◌>>◌
abbrev pub ◌>>=◌ : {S A B : Type 0} → Exec S A → (A → Exec S B) → Exec S B
◌>>=◌ m f s = then_run (m s).0 f (m s).1

abbrev pub ◌>>◌ : {S B : Type 0} → Exec S (Unit {0}) → Exec S B → Exec S B
m >> k = m >>= λ _. k

abbrev pub pure : {S A : Type 0} → A → Exec S A
pure a s = (ok a, s)

abbrev pub throw : {S A : Type 0} → Error → Exec S A
throw e s = (thrown e, s)

abbrev pub exhausted : {S A : Type 0} → Exec S A
exhausted s = (out_of_fuel, s)

-- `await` of a promise that is never settled.
abbrev pub unsettled : {S A : Type 0} → Exec S A
unsettled s = (out_of_fuel, s)

abbrev pub gets : {S A : Type 0} → (S → A) → Exec S A
gets f s = (ok (f s), s)

abbrev pub modify : {S : Type 0} → (S → S) → Exec S (Unit {0})
modify f s = (ok tt, f s)

-- `try { return m } catch (e) { ... }`
abbrev pub caught : {A : Type 0} → Outcome A → Outcome (A ⊎ Error)
caught (ok a) = ok (inl a)
caught (thrown e) = ok (inr e)
caught out_of_fuel = out_of_fuel

abbrev pub attempt : {S A : Type 0} → Exec S A → Exec S (A ⊎ Error)
attempt m s = (caught (m s).0, (m s).1)

abbrev pub unit_outcome : {A : Type 0} → Outcome A → Outcome (Unit {0})
unit_outcome out_of_fuel = out_of_fuel
unit_outcome o = ok tt

-- What a promise comes to, less its value.
abbrev pub void_outcome : {A : Type 0} → Outcome A → Outcome (Unit {0})
void_outcome (ok a) = ok tt
void_outcome (thrown e) = thrown e
void_outcome out_of_fuel = out_of_fuel

-- `void m`: started, and neither its rejection nor that it never settles goes to anybody. The model
-- runs it at once, to its end or to where it waits for ever.
abbrev pub background : {S A : Type 0} → Exec S A → Exec S (Unit {0})
background m s = (ok tt, (m s).1)

-- The call came to an end.
abbrev pub Ends : {A : Type 0} → Outcome A → Type 0
Ends (ok a) = Unit
Ends (thrown e) = Unit
Ends out_of_fuel = ⊥
