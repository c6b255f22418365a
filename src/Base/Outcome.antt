-- ===== src/Base/Outcome.antt =====
-- What a call of the program does: it returns, it throws an exception that nothing above it
-- catches, or it leaves the language's defined behaviour.
use mathlib.Core.Bool.{Bool, true, false}
use cpe400_peer_2_peer_file.Base.Tests.{if◌then◌else◌}
use mathlib.Core.Path.{◌≡◌, refl, subst}

pub data Exception : Type 0 where
  -- std::filesystem::filesystem_error with the code 2, of a missing file, and with any other
  no_such_file : Exception
  filesystem_error : Exception
  -- cereal cannot read what it was given
  archive_error : Exception
  -- std::runtime_error("Unrecognized message type")
  unrecognized_type : Exception
  -- std::runtime_error("Failed to connect")
  connect_failed : Exception
  -- ZTError
  zt_error : Exception

pub data Outcome {ℓ} (A : Type ℓ) : Type ℓ where
  returns : A → Outcome A
  throws : Exception → Outcome A
  -- a cast to a class that the object does not have
  undefined : Outcome A
  -- the model's bound on nested calls was met
  too_deep : Outcome A

infixl 5 ◌>>=◌
abbrev pub ◌>>=◌ {ℓ κ} : {A : Type ℓ} {B : Type κ} → Outcome A → (A → Outcome B) → Outcome B
returns a >>= f = f a
throws e >>= f = throws e
undefined >>= f = undefined
too_deep >>= f = too_deep

pub >>=-eq-returns {ℓ κ} :
    {A : Type ℓ} {B : Type κ} (m : Outcome A) (f : A → Outcome B) {b : B}
    → (m >>= f) ≡ returns b
    → (a : A) × (m ≡ returns a) × (f a ≡ returns b)
>>=-eq-returns (returns a) f h = (a, refl, h)
>>=-eq-returns (throws e) f h = cc
>>=-eq-returns undefined f h = cc
>>=-eq-returns too_deep f h = cc

-- A property of the result, where there is one.
abbrev pub Ensures {ℓ κ} : {A : Type ℓ} → (A → Type κ) → Outcome A → Type κ
Ensures P (returns a) = P a
Ensures P _ = Unit

pub >>=-Ensures {ℓ κ ι μ} :
    {A : Type ℓ} {B : Type κ} (P : A → Type ι) (Q : B → Type μ) (m : Outcome A) (f : A → Outcome B)
    → Ensures P m
    → ((a : A) → P a → Ensures Q (f a))
    → Ensures Q (m >>= f)
>>=-Ensures P Q (returns a) f h go_on = go_on a h
>>=-Ensures P Q (throws e) f h go_on = tt
>>=-Ensures P Q undefined f h go_on = tt
>>=-Ensures P Q too_deep f h go_on = tt

-- Where nothing is known of the first result.
pub returned-Ensures {ℓ κ μ} :
    {A : Type ℓ} {B : Type κ} (Q : B → Type μ) (m : Outcome A) (f : A → Outcome B)
    → ((a : A) → Ensures Q (f a))
    → Ensures Q (m >>= f)
returned-Ensures Q (returns a) f go_on = go_on a
returned-Ensures Q (throws e) f go_on = tt
returned-Ensures Q undefined f go_on = tt
returned-Ensures Q too_deep f go_on = tt

pub eq_returns-Ensures {ℓ κ} :
    {A : Type ℓ} (P : A → Type κ) (m : Outcome A) → ((a : A) → m ≡ returns a → P a) → Ensures P m
eq_returns-Ensures P (returns a) h = h a refl
eq_returns-Ensures P (throws e) h = tt
eq_returns-Ensures P undefined h = tt
eq_returns-Ensures P too_deep h = tt

pub Ensures-eq_returns {ℓ κ} :
    {A : Type ℓ} (P : A → Type κ) (m : Outcome A) (a : A) → Ensures P m → m ≡ returns a → P a
Ensures-eq_returns P m a h e = subst (Ensures P) e h

pub if-Ensures {ℓ κ} :
    {A : Type ℓ} (P : A → Type κ) (test : Bool) (x y : Outcome A)
    → Ensures P x
    → Ensures P y
    → Ensures P (if test then x else y)
if-Ensures P true x y hx hy = hx
if-Ensures P false x y hx hy = hy

-- The call did not meet the model's bound, and a property of the result holds, where there is one.
abbrev pub Ends {ℓ} : {A : Type ℓ} → (A → Type 0) → Outcome A → Type 0
Ends P (returns a) = P a
Ends P (throws e) = Unit
Ends P undefined = Unit
Ends P too_deep = ⊥

-- Nothing of the result.
abbrev pub Any {ℓ} : {A : Type ℓ} → A → Type 0
Any a = Unit

pub >>=-Ends {ℓ κ} :
    {A : Type ℓ} {B : Type κ} (P : A → Type 0) (Q : B → Type 0) (m : Outcome A) (f : A → Outcome B)
    → Ends P m
    → ((a : A) → P a → Ends Q (f a))
    → Ends Q (m >>= f)
>>=-Ends P Q (returns a) f h go_on = go_on a h
>>=-Ends P Q (throws e) f h go_on = tt
>>=-Ends P Q undefined f h go_on = tt
>>=-Ends P Q too_deep f h go_on = absurd h

pub if-Ends {ℓ} :
    {A : Type ℓ} (P : A → Type 0) (test : Bool) (x y : Outcome A)
    → Ends P x
    → Ends P y
    → Ends P (if test then x else y)
if-Ends P true x y hx hy = hx
if-Ends P false x y hx hy = hy
