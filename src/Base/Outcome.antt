-- ===== src/Base/Outcome.antt =====
-- What a fallible function that may panic does, with its bind for `do` blocks (the operator `?`).
use mathlib.Core.Path.{◌≡◌, refl, ap, subst}
use mathlib.Core.Logic.{◌⊎◌, inl, inr}
use mathlib.Core.Option.{Option, none, some}
use post_rs.Base.Words.{Result, ok, err}

pub data Outcome {ℓ κ} (E : Type κ) (A : Type ℓ) : Type (ℓ ⊔ κ) where
  done : A → Outcome E A
  failed : E → Outcome E A
  panicked : Outcome E A

infixl 5 ◌>>=◌
abbrev pub ◌>>=◌ {ℓ κ μ} :
    {E : Type κ} {A : Type ℓ} {B : Type μ} → Outcome E A → (A → Outcome E B) → Outcome E B
done a >>= f = f a
failed e >>= f = failed e
panicked >>= f = panicked

-- `?` on a `Result`, and a panic on `None`.
abbrev pub lift {ℓ κ} : {E : Type κ} {A : Type ℓ} → Result E A → Outcome E A
lift (ok a) = done a
lift (err e) = failed e

abbrev pub expect {ℓ κ} : {E : Type κ} {A : Type ℓ} → Option A → Outcome E A
expect (some a) = done a
expect none = panicked

pub Outcome-cases {ℓ κ} :
    {E : Type κ} {A : Type ℓ} (r : Outcome E A)
    → ((a : A) × (r ≡ done a)) ⊎ ((e : E) × (r ≡ failed e)) ⊎ (r ≡ panicked)
Outcome-cases (done a) = inl (a, refl)
Outcome-cases (failed e) = inr (inl (e, refl))
Outcome-cases panicked = inr (inr refl)

-- Inversion of a bind that succeeds.
pub >>=-eq-done {ℓ κ μ} :
    {E : Type κ} {A : Type ℓ} {B : Type μ} (m : Outcome E A) (f : A → Outcome E B) {b : B}
    → (m >>= f) ≡ done b
    → (a : A) × (m ≡ done a) × (f a ≡ done b)
>>=-eq-done (done a) f h = (a, refl, h)
>>=-eq-done (failed e) f h = cc
>>=-eq-done panicked f h = cc

pub lift-eq-done {ℓ κ} :
    {E : Type κ} {A : Type ℓ} (r : Result E A) {a : A} → lift r ≡ done a → r ≡ ok a
lift-eq-done (ok a) h = cc
lift-eq-done (err e) h = cc

pub expect-eq-done {ℓ κ} :
    {E : Type κ} {A : Type ℓ} (o : Option A) {a : A} → expect {E = E} o ≡ done a → o ≡ some a
expect-eq-done (some a) h = cc
expect-eq-done none h = cc

pub bind-done {ℓ κ μ} :
    {E : Type κ} {A : Type ℓ} {B : Type μ} {r : Outcome E A} {a : A} (f : A → Outcome E B)
    → r ≡ done a
    → (r >>= f) ≡ f a
bind-done f e = ap (λ t. t >>= f) e

pub bind_assoc {ℓ κ μ ν} :
    {E : Type κ} {A : Type ℓ} {B : Type μ} {C : Type ν} (r : Outcome E A) (f : A → Outcome E B)
    (g : B → Outcome E C)
    → ((r >>= f) >>= g) ≡ (r >>= λ a. f a >>= g)
bind_assoc (done a) f g = refl
bind_assoc (failed e) f g = refl
bind_assoc panicked f g = refl

pub bind-cong {ℓ κ μ} :
    {E : Type κ} {A : Type ℓ} {B : Type μ} (r : Outcome E A) {f g : A → Outcome E B}
    → ((a : A) → f a ≡ g a)
    → (r >>= f) ≡ (r >>= g)
bind-cong (done a) h = h a
bind-cong (failed e) h = refl
bind-cong panicked h = refl

-- What is true of the value of an outcome, if it has one.
abbrev pub Holds {ℓ κ μ} : {E : Type κ} {A : Type ℓ} → (A → Type μ) → Outcome E A → Type μ
Holds P (done a) = P a
Holds P (failed e) = Unit
Holds P panicked = Unit

pub bind-Holds {ℓ κ μ ν} :
    {E : Type κ} {A : Type ℓ} {B : Type μ} (P : B → Type ν) (r : Outcome E A) (f : A → Outcome E B)
    → ((a : A) → r ≡ done a → Holds P (f a))
    → Holds P (r >>= f)
bind-Holds P (done a) f h = h a refl
bind-Holds P (failed e) f h = tt
bind-Holds P panicked f h = tt

pub Holds-done {ℓ κ ν} :
    {E : Type κ} {A : Type ℓ} (P : A → Type ν) {r : Outcome E A} {a : A}
    → Holds P r
    → r ≡ done a
    → P a
Holds-done P h e = subst (Holds P) e h

pub expect-Holds {ℓ κ μ} :
    (E : Type κ) {A : Type ℓ} (P : A → Type μ) (o : Option A)
    → ((a : A) → o ≡ some a → P a)
    → Holds P (expect {E = E} o)
expect-Holds E P (some a) h = h a refl
expect-Holds E P none h = tt
