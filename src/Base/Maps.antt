-- ===== src/Base/Maps.antt =====
-- `Map` with strings as keys: the entries in the order in which their keys were first set.
use dnsdata_js.Base.Tests.{if◌then◌else◌, Bool-cases}
use dnsdata_js.Base.Text.{Text, text_eq, text_eq_iff}
use mathlib.Core.Path.{subst, ◌≡◌, refl, ap, ◌∙◌}
use mathlib.Core.Logic.{inl, inr}
use mathlib.Core.Bool.{true, false}
use mathlib.Core.Option.{Option, none, some}
use mathlib.Core.List.{List, [], ◌∷◌}

pub text_eq_refl : (k : Text) → text_eq k k ≡ true
text_eq_refl k = let (to, from) = text_eq_iff k k in from refl

module _ {ℓ} {V : Type ℓ} where
  unfoldable pub get : Text → List (Text × V) → Option V
  unfolding text_eq
  get k [] = none
  get k ((l, v) ∷ m) = let rest = get k m in if text_eq l k then some v else rest

  unfoldable pub set : Text → V → List (Text × V) → List (Text × V)
  unfolding text_eq
  set k v [] = (k, v) ∷ []
  set k v ((l, w) ∷ m) = let rest = set k v m in if text_eq l k then (l, v) ∷ m else (l, w) ∷ rest

  pub get-set_same : (k : Text) (v : V) (m : List (Text × V)) → get k (set k v m) ≡ some v
  unfolding get set
  get-set_same k v [] = rw (text_eq_refl k) refl
  get-set_same k v ((l, w) ∷ m) = elim (Bool-cases (text_eq l k)) [
    | inl t ↦ rw t (rw t refl)
    | inr f ↦ rw f (rw f (get-set_same k v m))
  ]

  pub get-set_other :
      (k j : Text) (v : V) (m : List (Text × V)) → text_eq k j ≡ false → get j (set k v m) ≡ get j m
  unfolding get set
  get-set_other k j v [] h = rw h refl
  get-set_other k j v ((l, w) ∷ m) h = elim (Bool-cases (text_eq l k)) [
    | inl t ↦
        let (to, from) = text_eq_iff l k in
        let g : text_eq l j ≡ false = ap (λ (x : Text). text_eq x j) (to t) ∙ h in rw t (rw g refl)
    | inr f ↦ rw f (ap (λ o. if text_eq l j then some w else o) (get-set_other k j v m h))
  ]

  -- A key that is there stays there.
  pub get-set-some :
      (k j : Text) (v w : V) (m : List (Text × V))
      → get j m ≡ some w
      → (u : V) × (get j (set k v m) ≡ some u)
  get-set-some k j v w m h = elim (Bool-cases (text_eq k j)) [
    | inl t ↦
        let (to, from) = text_eq_iff k j in
        (v, subst (λ (x : Text). get x (set k v m) ≡ some v) (to t) (get-set_same k v m))
    | inr f ↦ (w, get-set_other k j v m f ∙ h)
  ]
