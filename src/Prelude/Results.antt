-- ===== src/Prelude/Results.antt =====
-- A value or an error: the pair of results of a Go function that may fail.
use mathlib.Core.Path.{◌≡◌, refl}
use mathlib.Core.Logic.{◌⊎◌, inl, inr}

pub data Result {ℓ} (E : Type 0) (A : Type ℓ) : Type ℓ where
  ok : A → Result E A
  fail : E → Result E A

infixl 1 ◌>>=◌
abbrev pub ◌>>=◌ {ℓ κ} :
    {E : Type 0} {A : Type ℓ} {B : Type κ} → Result E A → (A → Result E B) → Result E B
ok a >>= f = f a
fail e >>= f = fail e

-- `P` holds of a value, `Q` of an error.
abbrev pub Post {ℓ} : {E : Type 0} {A : Type ℓ} → (A → Type 0) → (E → Type 0) → Result E A → Type 0
Post P Q (ok a) = P a
Post P Q (fail e) = Q e

pub Post-bind {ℓ κ} :
    {E : Type 0} {A : Type ℓ} {B : Type κ} (P : A → Type 0) (R : B → Type 0) (Q : E → Type 0)
    (r : Result E A) (f : A → Result E B)
    → Post P Q r
    → ((a : A) → P a → Post R Q (f a))
    → Post R Q (r >>= f)
Post-bind P R Q (ok a) f h k = k a h
Post-bind P R Q (fail e) f h k = h

pub Post-map {ℓ} :
    {E : Type 0} {A : Type ℓ} (P R : A → Type 0) (Q : E → Type 0) (r : Result E A)
    → Post P Q r
    → ((a : A) → P a → R a)
    → Post R Q r
Post-map P R Q (ok a) h k = k a h
Post-map P R Q (fail e) h k = h

-- Inversion of a successful bind.
pub >>=-eq-ok {ℓ κ} :
    {E : Type 0} {A : Type ℓ} {B : Type κ} (r : Result E A) (next : A → Result E B) {b : B}
    → (r >>= next) ≡ ok b
    → (a : A) × (r ≡ ok a) × (next a ≡ ok b)
>>=-eq-ok (fail e) next ended = cc
>>=-eq-ok (ok a) next ended = (a, refl, ended)

pub ok_injective {ℓ} :
    {E : Type 0} {A : Type ℓ} (a b : A) → ◌≡◌ {A = Result E A} (ok a) (ok b) → a ≡ b
ok_injective a b h = cc

pub Result-cases {ℓ} :
    {E : Type 0} {A : Type ℓ} (r : Result E A) → ((a : A) × (r ≡ ok a)) ⊎ ((e : E) × (r ≡ fail e))
Result-cases (ok a) = inl (a, refl)
Result-cases (fail e) = inr (e, refl)

pub bind_assoc {ℓ κ μ} :
    {E : Type 0} {A : Type ℓ} {B : Type κ} {C : Type μ} (m : Result E A) (first : A → Result E B)
    (then_do : B → Result E C)
    → (m >>= first >>= then_do) ≡ (m >>= λ x. first x >>= then_do)
bind_assoc (fail e) first then_do = refl
bind_assoc (ok x) first then_do = refl

pub bind_congr {ℓ κ} :
    {E : Type 0} {A : Type ℓ} {B : Type κ} (m : Result E A) {first second : A → Result E B}
    → ((x : A) → first x ≡ second x)
    → (m >>= first) ≡ (m >>= second)
bind_congr m same = λ i. m >>= λ x. same x i

pub bind-ok {ℓ} : {E : Type 0} {A : Type ℓ} (r : Result E A) → (r >>= ok) ≡ r
bind-ok (ok a) = refl
bind-ok (fail e) = refl
