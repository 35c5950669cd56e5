-- ===== src/Common/Ending.antt =====
-- Routines that come to an end: with a value that has a property, by a failed assertion or by a shut
-- down, but not for want of fuel.
use mathlib.Core.Path.{◌≡◌, refl}
use mathlib.Core.Bool.{Bool, true, false}
use rsl.Common.Outcomes.{Outcome, done, assert_failed, shut_down, stuck, ◌>>=◌, ◌>>◌, log_assert}

abbrev pub Total : {A : Type 0} → (A → Type 0) → Outcome A → Type 0
Total P (done a) = P a
Total P assert_failed = Unit {0}
Total P shut_down = Unit {0}
Total P stuck = ⊥

-- That it ends, and no more.
abbrev pub Ends : {A : Type 0} → Outcome A → Type 0
Ends m = Total (λ _. Unit {0}) m

pub Total-bind :
    {A B : Type 0} (P : A → Type 0) (Q : B → Type 0) (m : Outcome A) (f : A → Outcome B)
    → Total P m
    → ((a : A) → P a → Total Q (f a))
    → Total Q (m >>= f)
Total-bind P Q (done a) f h k = k a h
Total-bind P Q assert_failed f h k = tt
Total-bind P Q shut_down f h k = tt
Total-bind P Q stuck f h k = elim h [ ]

pub Total-log_assert :
    {B : Type 0} (Q : B → Type 0) (b : Bool) (m : Outcome B)
    → (b ≡ true → Total Q m)
    → Total Q (log_assert b >> m)
Total-log_assert Q true m h = h refl
Total-log_assert Q false m h = tt

pub Ends-bind :
    {A B : Type 0} (m : Outcome A) (f : A → Outcome B)
    → Ends m
    → ((a : A) → Ends (f a))
    → Ends (m >>= f)
Ends-bind m f h k = Total-bind (λ _. Unit {0}) (λ _. Unit {0}) m f h (λ a _. k a)

pub Total-map :
    {A : Type 0} (P Q : A → Type 0) (m : Outcome A) → Total P m → ((a : A) → P a → Q a) → Total Q m
Total-map P Q (done a) h k = k a h
Total-map P Q assert_failed h k = tt
Total-map P Q shut_down h k = tt
Total-map P Q stuck h k = elim h [ ]
