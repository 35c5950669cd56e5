-- ===== src/Common/Outcomes.antt =====
-- What a routine of the engine comes to: a value, a failed `LogAssert` (the process dies), a
-- `ShutDown` (the process exits), or, in the model only, a recursion that ran out of fuel.
use mathlib.Core.Path.{◌≡◌, refl, sym, subst}
use mathlib.Core.Bool.{Bool, true, false}

pub data Outcome {ℓ} (A : Type ℓ) : Type ℓ where
  done : A → Outcome A
  assert_failed : Outcome A
  shut_down : Outcome A
  stuck : Outcome A

infixl 5 ◌>>=◌ ◌>>◌
abbrev pub ◌>>=◌ {ℓ κ} : {A : Type ℓ} {B : Type κ} → Outcome A → (A → Outcome B) → Outcome B
done a >>= f = f a
assert_failed >>= f = assert_failed
shut_down >>= f = shut_down
stuck >>= f = stuck

abbrev pub ◌>>◌ {ℓ} : {B : Type ℓ} → Outcome (Unit {0}) → Outcome B → Outcome B
m >> k = m >>= λ _. k

-- `LogAssert(b)`.
abbrev pub log_assert : Bool → Outcome (Unit {0})
log_assert true = done tt
log_assert false = assert_failed

-- The property `P` of the value, where there is one.
abbrev pub Holds {ℓ κ} : {A : Type ℓ} → (A → Type κ) → Outcome A → Type κ
Holds P (done a) = P a
Holds P assert_failed = Unit {_}
Holds P shut_down = Unit {_}
Holds P stuck = Unit {_}

pub done_injective {ℓ} : {A : Type ℓ} {a b : A} → done a ≡ done b → a ≡ b
done_injective e = cc

pub Holds-bind {ℓ κ μ} :
    {A : Type ℓ} {B : Type κ} (P : A → Type μ) (Q : B → Type μ) (m : Outcome A) (f : A → Outcome B)
    → Holds P m
    → ((a : A) → P a → Holds Q (f a))
    → Holds Q (m >>= f)
Holds-bind P Q (done a) f h k = k a h
Holds-bind P Q assert_failed f h k = tt
Holds-bind P Q shut_down f h k = tt
Holds-bind P Q stuck f h k = tt

-- Whatever holds of every value holds.
pub Holds-all {ℓ κ} : {A : Type ℓ} {P : A → Type κ} (m : Outcome A) → ((a : A) → P a) → Holds P m
Holds-all (done a) h = h a
Holds-all assert_failed h = tt
Holds-all shut_down h = tt
Holds-all stuck h = tt

pub Holds-map {ℓ κ μ} :
    {A : Type ℓ} (P : A → Type κ) (Q : A → Type μ) (m : Outcome A)
    → Holds P m
    → ((a : A) → P a → Q a)
    → Holds Q m
Holds-map P Q (done a) h k = k a h
Holds-map P Q assert_failed h k = tt
Holds-map P Q shut_down h k = tt
Holds-map P Q stuck h k = tt

-- A value that is thrown away.
pub Holds-skip {ℓ κ μ} :
    {A : Type ℓ} {B : Type κ} (Q : B → Type μ) (m : Outcome A) (b : B)
    → Q b
    → Holds Q (m >>= λ _. done b)
Holds-skip Q (done a) b q = q
Holds-skip Q assert_failed b q = tt
Holds-skip Q shut_down b q = tt
Holds-skip Q stuck b q = tt

-- After an assertion its condition is known.
pub Holds-log_assert {ℓ κ} :
    {B : Type ℓ} (Q : B → Type κ) (b : Bool) (m : Outcome B)
    → (b ≡ true → Holds Q m)
    → Holds Q (log_assert b >> m)
Holds-log_assert Q true m h = h refl
Holds-log_assert Q false m h = tt

-- The second of two routines decides.
pub Holds-into {ℓ κ μ} :
    {A : Type ℓ} {B : Type κ} (Q : B → Type μ) (m : Outcome A) (f : A → Outcome B)
    → ((a : A) → Holds Q (f a))
    → Holds Q (m >>= f)
Holds-into Q (done a) f k = k a
Holds-into Q assert_failed f k = tt
Holds-into Q shut_down f k = tt
Holds-into Q stuck f k = tt

-- There is a value, and it has the property.
abbrev pub Returns {ℓ} : {A : Type ℓ} → (A → Type 0) → Outcome A → Type 0
Returns P (done a) = P a
Returns P assert_failed = ⊥
Returns P shut_down = ⊥
Returns P stuck = ⊥

pub Returns-bind {ℓ κ} :
    {A : Type ℓ} {B : Type κ} (P : A → Type 0) (Q : B → Type 0) (m : Outcome A) (f : A → Outcome B)
    → Returns P m
    → ((a : A) → P a → Returns Q (f a))
    → Returns Q (m >>= f)
Returns-bind P Q (done a) f h k = k a h
Returns-bind P Q assert_failed f h k = elim h [ ]
Returns-bind P Q shut_down f h k = elim h [ ]
Returns-bind P Q stuck f h k = elim h [ ]

pub Returns-log_assert {ℓ} :
    {B : Type ℓ} (Q : B → Type 0) (b : Bool) (m : Outcome B)
    → b ≡ true
    → Returns Q m
    → Returns Q (log_assert b >> m)
Returns-log_assert Q b m e h = subst (λ b. Returns Q (log_assert b >> m)) (sym e) h

pub Returns-map {ℓ} :
    {A : Type ℓ} (P Q : A → Type 0) (m : Outcome A)
    → ((a : A) → P a → Q a)
    → Returns P m
    → Returns Q m
Returns-map P Q (done a) k h = k a h
Returns-map P Q assert_failed k h = h
Returns-map P Q shut_down k h = h
Returns-map P Q stuck k h = h
