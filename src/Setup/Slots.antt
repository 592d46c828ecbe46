-- ===== src/Setup/Slots.antt =====
-- src/dhmp_config.c: the slots of the arrays, one set after the other.
use rdma_middleware.Prelude.{
  ℕ, zero, suc, ◌+◌, ◌≤◌, ◌<◌, ◌≡◌, refl, ap, some, List, [], ◌∷◌, ◌++◌, map, length, get_elem?,
  set, drop, arith,
}
use rdma_middleware.Setup.Config.{change}

-- The slots from `i` on, overlaid.
abbrev pub overlay : {A : Type 0} → List A → ℕ → List A → List A
overlay [] i ys = []
overlay (x ∷ xs) zero [] = x ∷ xs
overlay (x ∷ xs) zero (y ∷ ys) = y ∷ overlay xs zero ys
overlay (x ∷ xs) (suc i) ys = x ∷ overlay xs i ys

pub overlay-nil : {A : Type 0} → (xs : List A) (i : ℕ) → overlay xs i [] ≡ xs
overlay-nil [] i = refl
overlay-nil (x ∷ xs) zero = refl
overlay-nil (x ∷ xs) (suc i) = ap (λ t. x ∷ t) (overlay-nil xs i)

pub overlay-set :
    {A : Type 0}
    → (xs : List A) (i : ℕ) (y : A) (ys : List A) → i < length xs
    → overlay (set xs i y) (i + 1) ys ≡ overlay xs i (y ∷ ys)
overlay-set [] i y ys h = absurd (omega arith)
overlay-set (x ∷ xs) zero y ys h = refl
overlay-set (x ∷ xs) (suc i) y ys h =
    let e : suc i + 1 ≡ suc (i + 1) = omega arith in
    rw e (ap (λ t. x ∷ t) (overlay-set xs i y ys (omega arith)))

pub overlay-drop :
    {A : Type 0}
    → (xs ys : List A) → length ys ≤ length xs
    → overlay xs 0 ys ≡ ys ++ drop (length ys) xs
overlay-drop [] [] h = refl
overlay-drop [] (y ∷ ys) h = absurd (omega arith)
overlay-drop (x ∷ xs) [] h = refl
overlay-drop (x ∷ xs) (y ∷ ys) h = ap (λ t. y ∷ t) (overlay-drop xs ys (omega arith))

set-set : {A : Type 0} → (xs : List A) (i : ℕ) (a b : A) → set (set xs i a) i b ≡ set xs i b
set-set [] i a b = refl
set-set (x ∷ xs) zero a b = refl
set-set (x ∷ xs) (suc i) a b = ap (λ t. x ∷ t) (set-set xs i a b)

get_elem?-self :
    {A : Type 0} → (xs : List A) (i : ℕ) (a : A) → i < length xs → get_elem? (set xs i a) i ≡ some a
get_elem?-self [] i a h = absurd (omega arith)
get_elem?-self (x ∷ xs) zero a h = refl
get_elem?-self (x ∷ xs) (suc i) a h = get_elem?-self xs i a (omega arith)

get_elem?-in :
    {A : Type 0} → (xs : List A) (i : ℕ) → i < length xs → (a : A) × (get_elem? xs i ≡ some a)
get_elem?-in [] i h = absurd (omega arith)
get_elem?-in (x ∷ xs) zero h = (x, refl)
get_elem?-in (x ∷ xs) (suc i) h = get_elem?-in xs i (omega arith)

-- A slot that has just been set.
pub change-set :
    {A : Type 0}
    → (f : A → A) (xs : List A) (i : ℕ) (a : A) → i < length xs
    → change f (set xs i a) i ≡ some (set xs i (f a))
unfolding change
change-set f xs i a h = rw (get_elem?-self xs i a h) (ap some (set-set xs i a (f a)))

pub change-in :
    {A : Type 0}
    → (f : A → A) (xs : List A) (i : ℕ) → i < length xs
    → (a : A) × (change f xs i ≡ some (set xs i (f a)))
unfolding change
change-in f xs i h = let (a, e) = get_elem?-in xs i h in (a, rw e refl)

pub length-map : {A B : Type 0} → (f : A → B) (xs : List A) → length (map f xs) ≡ length xs
length-map f [] = refl
length-map f (x ∷ xs) = ap suc (length-map f xs)
