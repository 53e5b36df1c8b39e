-- ===== src/Base/Outcomes.antt =====
-- How a run of C code ends: with a result, by an access outside the memory that it was given, or
-- with its fuel used up.
use mathlib.Core.Path.{◌≡◌, refl}
use mathlib.Core.Bool.{Bool, true, false}
use mathlib.Core.Logic.{◌≢◌}
use native.Mathlib.Omega.{arith}
use ad_index.Base.Tests.{if◌then◌else◌}
use mathlib.Core.Option.{Option, none, some}

pub data Run {ℓ} (A : Type ℓ) : Type ℓ where
  done : A → Run A
  fault : Run A
  out_of_fuel : Run A

infixl 5 ◌>>=◌
abbrev pub ◌>>=◌ {ℓ κ} : {A : Type ℓ} {B : Type κ} → Run A → (A → Run B) → Run B
done a >>= f = f a
fault >>= f = fault
out_of_fuel >>= f = out_of_fuel

-- The run ends normally, with a result that satisfies `P`.
abbrev pub Returns {ℓ} : {A : Type ℓ} → Run A → (A → Type 0) → Type 0
Returns (done a) P = P a
Returns fault P = ⊥
Returns out_of_fuel P = ⊥

-- The rule of sequencing.
pub bind-Returns {ℓ κ} :
    {A : Type ℓ} {B : Type κ} (P : A → Type 0) (Q : B → Type 0) (m : Run A) (f : A → Run B)
    → Returns m P
    → ((a : A) → P a → Returns (f a) Q)
    → Returns (m >>= f) Q
bind-Returns P Q (done a) f h k = k a h
bind-Returns P Q fault f h k = absurd h
bind-Returns P Q out_of_fuel f h k = absurd h

pub map-Returns {ℓ} :
    {A : Type ℓ} (P Q : A → Type 0) (m : Run A) → Returns m P → ((a : A) → P a → Q a) → Returns m Q
map-Returns P Q (done a) h k = k a h
map-Returns P Q fault h k = absurd h
map-Returns P Q out_of_fuel h k = absurd h

-- What a run that ends normally returns.
pub Returns-inv {ℓ} :
    {A : Type ℓ} (P : A → Type 0) (m : Run A) → Returns m P → (a : A) × (m ≡ done a) × P a
Returns-inv P (done a) h = (a, refl, h)
Returns-inv P fault h = absurd h
Returns-inv P out_of_fuel h = absurd h

-- A read of an array.
abbrev pub read {ℓ} : {A : Type ℓ} → Option A → Run A
read none = fault
read (some a) = done a

-- Every branch, and every result of a step, has the property.
pub if_ind {ℓ} :
    {A : Type ℓ} (P : A → Type 0) (test : Bool) (x y : A) → P x → P y → P (if test then x else y)
if_ind P true x y h k = h
if_ind P false x y h k = k

pub bind_ind {ℓ κ} :
    {A : Type ℓ} {B : Type κ} (P : Run B → Type 0) (m : Run A) (f : A → Run B)
    → P fault
    → P out_of_fuel
    → ((a : A) → P (f a))
    → P (m >>= f)
bind_ind P (done a) f h k l = l a
bind_ind P fault f h k l = h
bind_ind P out_of_fuel f h k l = k

pub option_ind {ℓ κ} :
    {A : Type ℓ} {B : Type κ} (P : B → Type 0) (m : Option A) (x : B) (f : A → B)
    → P x
    → ((a : A) → P (f a))
    → P (elim m [ none ↦ x | some a ↦ f a ])
option_ind P none x f h k = h
option_ind P (some a) x f h k = k a

-- A run of steps that do not use up the fuel.
pub bind_ends {ℓ κ} :
    {A : Type ℓ} {B : Type κ} (m : Run A) (f : A → Run B)
    → m ≢ out_of_fuel
    → ((a : A) → f a ≢ out_of_fuel)
    → (m >>= f) ≢ out_of_fuel
bind_ends (done a) f n h = h a
bind_ends fault f n h = λ e. ground (arith, e)
bind_ends out_of_fuel f n h = absurd (n refl)
