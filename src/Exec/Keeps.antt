-- ===== src/Exec/Keeps.antt =====
-- Invariants of calls, one rule for each way to build a call.
use iforevents_sdks.Prelude.{◌⊎◌, inl, inr, Bool, true, false, if◌then◌else◌}
use iforevents_sdks.Errors.{Error}
use iforevents_sdks.Exec.{
  Outcome, Exec, ok, thrown, out_of_fuel, ◌>>=◌, pure, throw, gets, modify, attempt, background,
  then_run,
}

-- `m` keeps `P`, whether it returns or rejects.
pub record Keeps {S A : Type 0} (P : S → Type 0) (m : Exec S A) : Type 0 where
  pub at : (s : S) → P s → P (m s).1

module _ {S A : Type 0} {P : S → Type 0} where
  pub Keeps-pure : (a : A) → Keeps P (pure a)
  Keeps-pure a = record { at = λ s h. h }

  pub Keeps-throw : (e : Error) → Keeps P (throw {A = A} e)
  Keeps-throw e = record { at = λ s h. h }

  pub Keeps-gets : (f : S → A) → Keeps P (gets f)
  Keeps-gets f = record { at = λ s h. h }

  pub Keeps-if : (b : Bool) (m n : Exec S A) → Keeps P m → Keeps P n → Keeps P (if b then m else n)
  Keeps-if true m n km kn = km
  Keeps-if false m n km kn = kn

  pub Keeps-attempt : (m : Exec S A) → Keeps P m → Keeps P (attempt m)
  Keeps-attempt m km = record { at = km.at }

  pub Keeps-background : (m : Exec S A) → Keeps P m → Keeps P (background m)
  Keeps-background m km = record { at = km.at }

pub Keeps-modify :
    {S : Type 0} {P : S → Type 0} (f : S → S) → ((s : S) → P s → P (f s)) → Keeps P (modify f)
Keeps-modify f h = record { at = h }

module _ {S A B : Type 0} {P : S → Type 0} where
  Keeps-then :
      (r : Outcome A) (f : A → Exec S B) (s : S)
      → ((a : A) → Keeps P (f a))
      → P s
      → P (then_run r f s).1
  Keeps-then (ok a) f s kf h = (kf a).at s h
  Keeps-then (thrown e) f s kf h = h
  Keeps-then out_of_fuel f s kf h = h

  pub Keeps-bind :
      (m : Exec S A) (f : A → Exec S B) → Keeps P m → ((a : A) → Keeps P (f a)) → Keeps P (m >>= f)
  Keeps-bind m f km kf = record { at = λ s h. Keeps-then (m s).0 f (m s).1 kf (km.at s h) }

-- The two ways on from an attempt.
pub Keeps-after :
    {S A B : Type 0} {P : S → Type 0} (f : A → Exec S B) (g : Error → Exec S B) (r : A ⊎ Error)
    → ((a : A) → Keeps P (f a))
    → ((e : Error) → Keeps P (g e))
    → Keeps P (elim r [ inl a ↦ f a | inr e ↦ g e ])
Keeps-after f g (inl a) kf kg = kf a
Keeps-after f g (inr e) kf kg = kg e
