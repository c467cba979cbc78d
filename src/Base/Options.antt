-- ===== src/Base/Options.antt =====
-- A chain of steps of which each may fail.
use mathlib.Core.Path.{◌≡◌, refl}
use mathlib.Core.Option.{Option, none, some}

infixl 5 ◌>>=◌
abbrev pub ◌>>=◌ {ℓ κ} : {A : Type ℓ} {B : Type κ} → Option A → (A → Option B) → Option B
none >>= f = none
some a >>= f = f a

pub >>=-ext {ℓ κ} :
    {A : Type ℓ} {B : Type κ} (m : Option A) (f g : A → Option B)
    → ((a : A) → f a ≡ g a)
    → (m >>= f) ≡ (m >>= g)
>>=-ext none f g h = refl
>>=-ext (some a) f g h = h a

pub >>=-some {ℓ} : {A : Type ℓ} (m : Option A) → (m >>= some) ≡ m
>>=-some none = refl
>>=-some (some a) = refl

pub >>=_assoc {ℓ κ μ} :
    {A : Type ℓ} {B : Type κ} {C : Type μ} (m : Option A) (f : A → Option B) (g : B → Option C)
    → (m >>= f >>= g) ≡ (m >>= λ a. f a >>= g)
>>=_assoc none f g = refl
>>=_assoc (some a) f g = refl
