-- ===== src/Common/Results.antt =====
-- How a run of the program's code can end.
use mathlib.Core.Path.{◌≡◌, refl, subst}
use mathlib.Core.Bool.{Bool, true, false}
use pets_server_linux.Common.Tests.{if◌then◌else◌}
use mathlib.Core.Logic.{◌≢◌, ◌⊎◌, inl, inr}

-- The C++ exceptions that the code lets through, and the accesses that C++ leaves undefined.
pub data Fault : Type 0 where
  bad_any_cast bad_function_call out_of_range : Fault
  null_access out_of_bounds double_free use_after_free no_return signed_overflow : Fault

-- `stuck` is no behaviour of the program: the fuel or the schedule of the model ran out.
pub data Outcome {ℓ} (A : Type ℓ) : Type ℓ where
  done : A → Outcome A
  fail : Fault → Outcome A
  stuck : Outcome A

infixl 5 ◌>>=◌
abbrev pub ◌>>=◌ {ℓ κ} : {A : Type ℓ} {B : Type κ} → Outcome A → (A → Outcome B) → Outcome B
done a >>= f = f a
fail e >>= f = fail e
stuck >>= f = stuck

pub Outcome-cases {ℓ} :
    {A : Type ℓ} (r : Outcome A)
    → ((a : A) × (r ≡ done a)) ⊎ ((e : Fault) × (r ≡ fail e)) ⊎ (r ≡ stuck)
Outcome-cases (done a) = inl (a, refl)
Outcome-cases (fail e) = inr (inl (e, refl))
Outcome-cases stuck = inr (inr refl)

-- Inversion of a bind that ends.
pub >>=-eq-done {ℓ κ} :
    {A : Type ℓ} {B : Type κ} (m : Outcome A) (f : A → Outcome B) {b : B}
    → (m >>= f) ≡ done b
    → (a : A) × (m ≡ done a) × (f a ≡ done b)
>>=-eq-done (done a) f h = (a, refl, h)
>>=-eq-done (fail e) f h = cc
>>=-eq-done stuck f h = cc

-- A bind of two parts that are never stuck is not stuck.
pub >>=-ne-stuck {ℓ κ} :
    {A : Type ℓ} {B : Type κ} (m : Outcome A) (f : A → Outcome B)
    → m ≢ stuck
    → ((a : A) → m ≡ done a → f a ≢ stuck)
    → (m >>= f) ≢ stuck
>>=-ne-stuck (done a) f hm hf = hf a refl
>>=-ne-stuck (fail e) f hm hf = λ p. cc
>>=-ne-stuck stuck f hm hf = absurd (hm refl)

pub done-injective {ℓ} : {A : Type ℓ} {a b : A} → done a ≡ done b → a ≡ b
done-injective e = cc

-- Every result that a run ends with has a property.
pub record Ensures {ℓ κ} {A : Type ℓ} (P : A → Type κ) (m : Outcome A) : Type (ℓ ⊔ κ) where
  pub of_done : (a : A) → m ≡ done a → P a

pub Ensures-after {ℓ κ μ} :
    {A : Type ℓ} {B : Type κ} {Q : B → Type μ} (m : Outcome A) (f : A → Outcome B)
    → ((a : A) → m ≡ done a → Ensures Q (f a))
    → Ensures Q (m >>= f)
Ensures-after (done a) f k = k a refl
Ensures-after (fail e) f k = record { of_done = λ a e. absurd (cc) }
Ensures-after stuck f k = record { of_done = λ a e. absurd (cc) }

pub Ensures-if {ℓ κ} :
    {A : Type ℓ} {P : A → Type κ} (b : Bool) (x y : Outcome A)
    → (b ≡ true → Ensures P x)
    → (b ≡ false → Ensures P y)
    → Ensures P (if b then x else y)
Ensures-if true x y h k = h refl
Ensures-if false x y h k = k refl

pub Ensures-end {ℓ κ} : {A : Type ℓ} {P : A → Type κ} (a : A) → P a → Ensures P (done a)
Ensures-end {P} a h = record { of_done = λ b e. subst P (done-injective e) h }

-- A run does not end with a fault.
pub record Avoids {ℓ} {A : Type ℓ} (e : Fault) (m : Outcome A) : Type ℓ where
  pub of_fail : m ≢ fail e

pub Avoids-after {ℓ κ} :
    {A : Type ℓ} {B : Type κ} {e : Fault} (m : Outcome A) (f : A → Outcome B)
    → Avoids e m
    → ((a : A) → m ≡ done a → Avoids e (f a))
    → Avoids e (m >>= f)
Avoids-after (done a) f v k = k a refl
Avoids-after (fail e) f v k = record { of_fail = λ h. v.of_fail (cc) }
Avoids-after stuck f v k = record { of_fail = λ h. cc }

pub Avoids-if {ℓ} :
    {A : Type ℓ} {e : Fault} (b : Bool) (x y : Outcome A)
    → (b ≡ true → Avoids e x)
    → (b ≡ false → Avoids e y)
    → Avoids e (if b then x else y)
Avoids-if true x y h k = h refl
Avoids-if false x y h k = k refl

pub Avoids-end {ℓ} : {A : Type ℓ} {e : Fault} (a : A) → Avoids e (done a)
Avoids-end a = record { of_fail = λ h. cc }
