-- ===== src/Base/Among.antt =====
-- Membership in a list, as a relation.
use dnsdata_js.Base.Lists.{All}
use mathlib.Core.List.{List, [], ◌∷◌, ◌++◌, map}

-- `x` is an element of the list.
pub data Among {ℓ} {A : Type ℓ} (x : A) : List A → Type ℓ where
  here : {xs : List A} → Among x (x ∷ xs)
  there : {y : A} {xs : List A} → Among x xs → Among x (y ∷ xs)

pub All-Among {ℓ κ} :
    {A : Type ℓ} (P : A → Type κ) (x : A) (xs : List A) → Among x xs → All P xs → P x
All-Among P x _ here (p, h) = p
All-Among P x (y ∷ xs) (there m) (p, h) = All-Among P x xs m h

pub Among-append_left {ℓ} : {A : Type ℓ} (x : A) (xs ys : List A) → Among x xs → Among x (xs ++ ys)
Among-append_left x _ ys here = here
Among-append_left x (y ∷ xs) ys (there m) = there (Among-append_left x xs ys m)

pub Among-append_right {ℓ} : {A : Type ℓ} (x : A) (xs ys : List A) → Among x ys → Among x (xs ++ ys)
Among-append_right x [] ys m = m
Among-append_right x (y ∷ xs) ys m = there (Among-append_right x xs ys m)

pub Among-map {ℓ κ} :
    {A : Type ℓ} {B : Type κ} (f : A → B) (x : A) (xs : List A)
    → Among x xs
    → Among (f x) (map f xs)
Among-map f x _ here = here
Among-map f x (y ∷ xs) (there m) = there (Among-map f x xs m)

pub All-map_Among {ℓ κ} :
    {A : Type ℓ} (P : A → Type κ) (xs : List A) → ((x : A) → Among x xs → P x) → All P xs
All-map_Among P [] h = tt
All-map_Among P (x ∷ xs) h = (h x here, All-map_Among P xs (λ y m. h y (there m)))
