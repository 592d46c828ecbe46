-- ===== src/Prelude/Results.antt =====
-- Calls that may not return: `none` is a call that does not, or undefined behaviour.
use mathlib.Core.Path.{◌≡◌}
use mathlib.Core.Option.{Option, none, some}

infixl 5 ◌>>=◌
abbrev pub ◌>>=◌ : {A B : Type 0} → Option A → (A → Option B) → Option B
none >>= f = none
some a >>= f = f a

-- What holds of every result.
abbrev pub Returns : {A : Type 0} → (A → Type 0) → Option A → Type 0
Returns P none = Unit {0}
Returns P (some a) = P a

pub bind-Returns :
    {A B : Type 0} (Q : A → Type 0) (P : B → Type 0) (o : Option A) (f : A → Option B)
    → Returns Q o
    → ((a : A) → Q a → Returns P (f a))
    → Returns P (o >>= f)
bind-Returns Q P none f h g = record {}
bind-Returns Q P (some a) f h g = g a h

pub always : {A : Type 0} (o : Option A) → Returns (λ _. Unit {0}) o
always none = record {}
always (some a) = record {}

pub Returns-some :
    {A : Type 0} (P : A → Type 0) (o : Option A) (a : A) → o ≡ some a → Returns P o → P a
Returns-some P none a e h = absurd cc
Returns-some P (some b) a e h = let same : a ≡ b = cc in rw same h

pub Returns-map :
    {A : Type 0} (P Q : A → Type 0) (o : Option A)
    → ((a : A) → P a → Q a)
    → Returns P o
    → Returns Q o
Returns-map P Q none f h = record {}
Returns-map P Q (some a) f h = f a h
