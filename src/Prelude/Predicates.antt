-- ===== src/Prelude/Predicates.antt =====
-- A predicate that holds of every item of a list.
use mathlib.Core.List.{List, [], ◌∷◌, ◌++◌, map}

abbrev pub All {ℓ κ} : {A : Type ℓ} → (A → Type κ) → List A → Type κ
All P [] = Unit
All P (x ∷ xs) = P x × All P xs

pub All-map {ℓ κ μ ν} :
    {A : Type ℓ} {B : Type κ} (P : A → Type μ) (Q : B → Type ν) (f : A → B) (xs : List A)
    → ((x : A) → P x → Q (f x))
    → All P xs
    → All Q (map f xs)
All-map P Q f [] h all = tt
All-map P Q f (x ∷ xs) h all = (h x all.0, All-map P Q f xs h all.1)

pub All-map_total {ℓ κ ν} :
    {A : Type ℓ} {B : Type κ} (Q : B → Type ν) (f : A → B) (xs : List A)
    → ((x : A) → Q (f x))
    → All Q (map f xs)
All-map_total Q f [] h = tt
All-map_total Q f (x ∷ xs) h = (h x, All-map_total Q f xs h)

pub All-mono {ℓ μ ν} :
    {A : Type ℓ} (P : A → Type μ) (Q : A → Type ν) (xs : List A)
    → ((x : A) → P x → Q x)
    → All P xs
    → All Q xs
All-mono P Q [] h all = tt
All-mono P Q (x ∷ xs) h all = (h x all.0, All-mono P Q xs h all.1)

pub All-append {ℓ κ} :
    {A : Type ℓ} (P : A → Type κ) (xs ys : List A) → All P xs → All P ys → All P (xs ++ ys)
All-append P [] ys hx hy = hy
All-append P (x ∷ xs) ys hx hy = (hx.0, All-append P xs ys hx.1 hy)

-- A relation that holds at every position that both lists have.
abbrev pub Pairwise {ℓ κ} : {A : Type ℓ} {B : Type κ} → (A → B → Type 0) → List A → List B → Type 0
Pairwise r (x ∷ xs) (y ∷ ys) = r x y × Pairwise r xs ys
Pairwise r xs ys = Unit

pub Pairwise-refl {ℓ} :
    {A : Type ℓ} (r : A → A → Type 0) (xs : List A) → ((x : A) → r x x) → Pairwise r xs xs
Pairwise-refl r [] h = tt
Pairwise-refl r (x ∷ xs) h = (h x, Pairwise-refl r xs h)
