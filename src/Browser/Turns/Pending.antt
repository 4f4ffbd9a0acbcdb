-- ===== src/Browser/Turns/Pending.antt =====
-- The events and calls that a client has in hand, by what they wait for.
use iforevents_sdks.Prelude.{
  ℕ, suc, ◌+◌, ◌≡◌, refl, ◌∙◌, ap, List, [], ◌∷◌, ◌++◌, map, length, eqb, if◌then◌else◌, arith,
}
use iforevents_sdks.Browser.Turns.{
  Event, Person, ClientCall, identifies, sends, Job, begins, hands, Turns, woken, asleep,
}

-- The events that go with the run of a number.
abbrev pub of_run : ℕ → List (ℕ × Event) → List Event
of_run n [] = []
of_run n ((m, e) ∷ es) = let rest = of_run n es in if eqb m n then e ∷ rest else rest

-- The events of a list of calls, each with the number of the calls of `identify` before it, those
-- before the list included.
abbrev pub numbered : ℕ → List ClientCall → List (ℕ × Event)
numbered n [] = []
numbered n (identifies p ∷ cs) = numbered (suc n) cs
numbered n (sends e ∷ cs) = (n, e) ∷ numbered n cs

abbrev pub people : List ClientCall → List Person
people [] = []
people (identifies p ∷ cs) = p ∷ people cs
people (sends e ∷ cs) = people cs

abbrev pub calls_of : List Job → List ClientCall
calls_of [] = []
calls_of (begins c ∷ js) = c ∷ calls_of js
calls_of (hands n e ∷ js) = calls_of js

abbrev pub hands_of : List Job → List (ℕ × Event)
hands_of [] = []
hands_of (begins c ∷ js) = hands_of js
hands_of (hands n e ∷ js) = (n, e) ∷ hands_of js

-- The calls that have not come past `await ready`.
abbrev pub pending : Turns → List ClientCall
pending t = calls_of t.jobs ++ t.on_ready

pub of_run-append :
    (n : ℕ) (xs ys : List (ℕ × Event)) → of_run n (xs ++ ys) ≡ of_run n xs ++ of_run n ys
of_run-append n [] ys = refl
of_run-append n ((m, e) ∷ xs) ys = ground (arith, of_run-append n xs ys)

pub numbered-append :
    (n : ℕ) (xs ys : List ClientCall)
    → numbered n (xs ++ ys) ≡ numbered n xs ++ numbered (n + length (people xs)) ys
numbered-append n [] ys = ap (λ m. numbered m ys) (omega arith)
numbered-append n (identifies p ∷ xs) ys =
    numbered-append (suc n) xs ys ∙ ap (λ m. numbered (suc n) xs ++ numbered m ys) (omega arith)
numbered-append n (sends e ∷ xs) ys = ap (◌∷◌ (n, e)) (numbered-append n xs ys)

pub people-append : (xs ys : List ClientCall) → people (xs ++ ys) ≡ people xs ++ people ys
people-append [] ys = refl
people-append (identifies p ∷ xs) ys = ap (◌∷◌ p) (people-append xs ys)
people-append (sends e ∷ xs) ys = people-append xs ys

pub calls_of-append : (xs ys : List Job) → calls_of (xs ++ ys) ≡ calls_of xs ++ calls_of ys
calls_of-append [] ys = refl
calls_of-append (begins c ∷ xs) ys = ap (◌∷◌ c) (calls_of-append xs ys)
calls_of-append (hands n e ∷ xs) ys = calls_of-append xs ys

pub hands_of-append : (xs ys : List Job) → hands_of (xs ++ ys) ≡ hands_of xs ++ hands_of ys
hands_of-append [] ys = refl
hands_of-append (begins c ∷ xs) ys = hands_of-append xs ys
hands_of-append (hands n e ∷ xs) ys = ap (◌∷◌ (n, e)) (hands_of-append xs ys)

pub calls_of-begins : (cs : List ClientCall) → calls_of (map begins cs) ≡ cs
calls_of-begins [] = refl
calls_of-begins (c ∷ cs) = ap (◌∷◌ c) (calls_of-begins cs)

pub hands_of-begins : (cs : List ClientCall) → hands_of (map begins cs) ≡ []
hands_of-begins [] = refl
hands_of-begins (c ∷ cs) = hands_of-begins cs

pub calls_of-woken : (n : ℕ) (es : List (ℕ × Event)) → calls_of (woken n es) ≡ []
calls_of-woken n [] = refl
calls_of-woken n ((m, e) ∷ es) = ground (arith, calls_of-woken n es)

-- The events that wait for a run are those it wakes, and those of the others stay.
pub woken_lem :
    (k n : ℕ) (es : List (ℕ × Event))
    → of_run k (hands_of (woken n es)) ≡ (if eqb n k then of_run k es else [])
woken_lem k n [] = ground arith
woken_lem k n ((m, e) ∷ es) = ground (arith, woken_lem k n es)

pub asleep_lem :
    (k n : ℕ) (es : List (ℕ × Event))
    → of_run k (asleep n es) ≡ (if eqb n k then [] else of_run k es)
asleep_lem k n [] = ground arith
asleep_lem k n ((m, e) ∷ es) = ground (arith, asleep_lem k n es)

pub of_run-one :
    (k n : ℕ) (e : Event) (es : List (ℕ × Event))
    → of_run k ((n, e) ∷ es) ≡ of_run k ((n, e) ∷ []) ++ of_run k es
of_run-one k n e es = ground arith

-- One more call is numbered by the calls of `identify` before it.
pub numbered-one :
    (cs : List ClientCall) (c : ClientCall)
    → numbered 0 (cs ++ c ∷ []) ≡ numbered 0 cs ++ numbered (length (people cs)) (c ∷ [])
numbered-one cs c =
    numbered-append 0 cs (c ∷ []) ∙ ap (λ m. numbered 0 cs ++ numbered m (c ∷ [])) (omega arith)
