-- ===== src/Base/Order.antt =====
-- Comparison functions with three results, their laws, and the order they give to lists.
use dnsdata_js.Base.{
  ℕ, List, [], ◌∷◌, ltb, ◌==◌, if◌then◌else◌, ◌≡◌, refl, sym, ap, ◌∙◌, arith, ◌⊎◌, inl, inr,
}

-- The sign of a comparison: negative, 0 or positive.
pub data Sign : Type 0 where
  less equal greater : Sign

abbrev pub opposite : Sign → Sign
opposite less = greater
opposite equal = equal
opposite greater = less

-- The sign of `a - b`, and `compare_values` of two numbers.
unfoldable pub sign_of_sub : ℕ → ℕ → Sign
sign_of_sub a b = if a == b then equal else if ltb a b then less else greater

-- `c || d` on results of comparisons.
abbrev pub or_else : Sign → Sign → Sign
or_else equal d = d
or_else less d = less
or_else greater d = greater

-- What makes a comparison function a total order up to the elements it calls equal.
pub record Comparison {ℓ} {A : Type ℓ} (c : A → A → Sign) : Type ℓ where
  pub flip : (a b : A) → c b a ≡ opposite (c a b)
  pub equal_left : (a b d : A) → c a b ≡ equal → c a d ≡ c b d
  pub less_trans : (a b d : A) → c a b ≡ less → c b d ≡ less → c a d ≡ less

pub sign_of_sub-Comparison : Comparison sign_of_sub
unfolding sign_of_sub
sign_of_sub-Comparison = record {
  flip = λ a b. ground arith;
  equal_left = λ a b d h. ground arith;
  less_trans = λ a b d h k. ground arith;
}

-- The order of the keys.
pub Comparison-on {ℓ κ} :
    {A : Type ℓ} {B : Type κ} (key : A → B) (c : B → B → Sign)
    → Comparison c
    → Comparison (λ (a b : A). c (key a) (key b))
Comparison-on key c law = record {
  flip = λ a b. law.flip (key a) (key b);
  equal_left = λ a b d. law.equal_left (key a) (key b) (key d);
  less_trans = λ a b d. law.less_trans (key a) (key b) (key d);
}

pub Sign-cases : (s : Sign) → (s ≡ less) ⊎ ((s ≡ equal) ⊎ (s ≡ greater))
Sign-cases less = inl refl
Sign-cases equal = inr (inl refl)
Sign-cases greater = inr (inr refl)

module _ {ℓ} {A : Type ℓ} (c : A → A → Sign) where
  -- The first unequal pair decides, and a list stands before its extensions.
  unfoldable pub lexicographic : List A → List A → Sign
  lexicographic [] [] = equal
  lexicographic [] (y ∷ ys) = less
  lexicographic (x ∷ xs) [] = greater
  lexicographic (x ∷ xs) (y ∷ ys) = or_else (c x y) (lexicographic xs ys)

  module _ (law : Comparison c) where
    pub equal_refl : (a : A) → c a a ≡ equal
    equal_refl a =
        let f : c a a ≡ opposite (c a a) = law.flip a a in
        elim (Sign-cases (c a a)) [ inl l ↦ cc | inr (inl e) ↦ e | inr (inr g) ↦ cc ]

    pub equal_right : (a b d : A) → c b d ≡ equal → c a b ≡ c a d
    equal_right a b d h = law.flip b a ∙ ap opposite (law.equal_left b d a h) ∙ sym (law.flip d a)

    opposite-or_else :
        (s t u : Sign) → u ≡ opposite t → or_else (opposite s) u ≡ opposite (or_else s t)
    opposite-or_else less t u h = refl
    opposite-or_else equal t u h = h
    opposite-or_else greater t u h = refl

    lexicographic-flip : (a b : List A) → lexicographic b a ≡ opposite (lexicographic a b)
    unfolding lexicographic
    lexicographic-flip [] [] = refl
    lexicographic-flip [] (y ∷ ys) = refl
    lexicographic-flip (x ∷ xs) [] = refl
    lexicographic-flip (x ∷ xs) (y ∷ ys) =
        rw (law.flip x y) (opposite-or_else (c x y) _ _ (lexicographic-flip xs ys))

    or_else-equal : (s t : Sign) → or_else s t ≡ equal → (s ≡ equal) × (t ≡ equal)
    or_else-equal equal t h = (refl, h)
    or_else-equal less t h = cc
    or_else-equal greater t h = cc

    or_else-less : (s t : Sign) → or_else s t ≡ less → (s ≡ less) ⊎ ((s ≡ equal) × (t ≡ less))
    or_else-less equal t h = inr (refl, h)
    or_else-less less t h = inl refl
    or_else-less greater t h = cc

    lexicographic-equal_left :
        (a b d : List A) → lexicographic a b ≡ equal → lexicographic a d ≡ lexicographic b d
    unfolding lexicographic
    lexicographic-equal_left [] [] d h = refl
    lexicographic-equal_left [] (y ∷ ys) d h = cc
    lexicographic-equal_left (x ∷ xs) [] d h = cc
    lexicographic-equal_left (x ∷ xs) (y ∷ ys) [] h = refl
    lexicographic-equal_left (x ∷ xs) (y ∷ ys) (z ∷ zs) h =
        let (e, r) = or_else-equal (c x y) _ h in
        rw (law.equal_left x y z e, lexicographic-equal_left xs ys zs r) refl

    lexicographic-less_trans :
        (a b d : List A)
        → lexicographic a b ≡ less
        → lexicographic b d ≡ less
        → lexicographic a d ≡ less
    unfolding lexicographic
    lexicographic-less_trans [] [] d h k = cc
    lexicographic-less_trans [] (y ∷ ys) [] h k = cc
    lexicographic-less_trans [] (y ∷ ys) (z ∷ zs) h k = refl
    lexicographic-less_trans (x ∷ xs) [] d h k = cc
    lexicographic-less_trans (x ∷ xs) (y ∷ ys) [] h k = cc
    lexicographic-less_trans (x ∷ xs) (y ∷ ys) (z ∷ zs) h k = elim (or_else-less (c x y) _ h) [
      | inl l ↦ elim (or_else-less (c y z) _ k) [
        | inl m ↦ rw (law.less_trans x y z l m) refl
        | inr (e, m) ↦ rw (sym (equal_right x y z e), l) refl
      ]
      | inr (e, r) ↦ elim (or_else-less (c y z) _ k) [
        | inl m ↦ rw (law.equal_left x y z e, m) refl
        | inr (f, m) ↦ rw (law.equal_left x y z e, f) (lexicographic-less_trans xs ys zs r m)
      ]
    ]

    pub lexicographic-Comparison : Comparison lexicographic
    lexicographic-Comparison = record {
      flip = lexicographic-flip;
      equal_left = lexicographic-equal_left;
      less_trans = lexicographic-less_trans;
    }

  -- Where equal elements are the same, equal lists are.
  pub lexicographic-equal :
      ((x y : A) → c x y ≡ equal → x ≡ y) → (a b : List A) → lexicographic a b ≡ equal → a ≡ b
  unfolding lexicographic
  lexicographic-equal same [] [] h = refl
  lexicographic-equal same [] (y ∷ ys) h = cc
  lexicographic-equal same (x ∷ xs) [] h = cc
  lexicographic-equal same (x ∷ xs) (y ∷ ys) h = elim (Sign-cases (c x y)) [
    | inl l ↦ absurd (cc)
    | inr (inl e) ↦
        let r : lexicographic xs ys ≡ equal = (rw e at h) in
        rw (same x y e, lexicographic-equal same xs ys r) refl
    | inr (inr g) ↦ absurd (cc)
  ]

pub sign_of_sub-equal : (a b : ℕ) → sign_of_sub a b ≡ equal → a ≡ b
unfolding sign_of_sub
sign_of_sub-equal a b h = ground arith
