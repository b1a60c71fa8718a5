-- ===== src/Dnssec/Denial/Chain.antt =====
-- packages/core/src/dnssec/nsec.ts and nsec3.ts: the records of a whole zone. Each owner points to
-- the next one in the order, and the last one to the first.
use dnsdata_js.Base.{ℕ, ◌+◌, List, [], ◌∷◌, ◌≡◌, refl, ap, ◌∙◌, arith, inl, inr}
use dnsdata_js.Base.Order.{Sign, less, equal, greater, opposite, Comparison, Sign-cases, equal_refl}
use dnsdata_js.Dnssec.Denial.Count.{
  one_if, count, NotGreater, above, Places, below, count-at, last-above, inner-above, NotGreater-of,
  last-below, first-below, only-below,
}
use dnsdata_js.Dnssec.Denial.{covers, is_equal}

module _ {ℓ} {A : Type ℓ} (c : A → A → Sign) where
  -- Each owner with the next one; the last with the first of all.
  unfoldable pub links : A → A → List A → List (A × A)
  links first owner [] = (owner, first) ∷ []
  links first owner (next ∷ rest) = (owner, next) ∷ links first next rest

  abbrev pub Sorted : A → List A → Type 0
  Sorted owner [] = Unit
  Sorted owner (next ∷ rest) = (c owner next ≡ less) × Sorted next rest

  -- How many records match the name or cover it.
  unfoldable pub denials : A → List (A × A) → ℕ
  unfolding covers one_if
  denials q [] = 0
  denials q ((owner, next) ∷ rest) =
      one_if (is_equal (c q owner)) + one_if (covers c owner next q) + denials q rest

  module _ (law : Comparison c) where
    greater_of : {a b : A} → c a b ≡ less → c b a ≡ greater
    greater_of {a} {b} h = law.flip a b ∙ ap opposite h

    less_of : {a b : A} → c a b ≡ greater → c b a ≡ less
    less_of {a} {b} h = law.flip a b ∙ ap opposite h

    equal_of : {a b : A} → c a b ≡ equal → c b a ≡ equal
    equal_of {a} {b} h = law.flip a b ∙ ap opposite h

    denials-cons :
        (q owner next : A) (rest : List (A × A))
        → denials q ((owner, next) ∷ rest)
          ≡ count (c q owner) (c q next) (c next owner) + denials q rest
    unfolding denials count covers one_if
    denials-cons q owner next rest = refl

    Places-at :
        (q owner next : A) (s : Sign) → c owner next ≡ less → c q owner ≡ s → Places s (c q next)
    unfolding Places
    Places-at q owner next less l e = law.less_trans q owner next e l
    Places-at q owner next equal l e = law.equal_left q owner next e ∙ l
    Places-at q owner next greater l e = tt

    NotGreater-next :
        (first owner next : A) (t : Sign)
        → c owner next ≡ less
        → c first owner ≡ t
        → NotGreater t
        → c first next ≡ less
    unfolding NotGreater
    NotGreater-next first owner next less l e n = law.less_trans first owner next e l
    NotGreater-next first owner next equal l e n = law.equal_left first owner next e ∙ l
    NotGreater-next first owner next greater l e n = absurd n

    denials-above :
        (q first owner : A) (rest : List A)
        → c q first ≡ greater
        → NotGreater (c first owner)
        → Sorted owner rest
        → denials q (links first owner rest) ≡ above (c q owner)
    unfolding links denials above
    denials-above q first owner [] h k s = omega (
      arith,
      denials-cons q owner first [],
      last-above (c q owner) (c q first) (c first owner) h k,
    )
    denials-above q first owner (next ∷ rest) h k (l, s) = omega (
      arith,
      denials-cons q owner next (links first next rest),
      denials-above q first next rest h
          (NotGreater-of (c first next)
            (inl (NotGreater-next first owner next (c first owner) l refl k)))
          s,
      inner-above (c q owner) (c q next) (c next owner) (greater_of l)
          (Places-at q owner next (c q owner) l refl),
    )

    denials-below :
        (q first owner : A) (rest : List A)
        → NotGreater (c q first)
        → c q owner ≡ less
        → c first owner ≡ less
        → Sorted owner rest
        → denials q (links first owner rest) ≡ below (c q first)
    unfolding links count one_if denials below
    denials-below q first owner [] n h k s = omega (
      arith,
      denials-cons q owner first [],
      last-below (c q first) (c first owner) k n,
      count-at less (c q first) (c first owner) h refl refl,
    )
    denials-below q first owner (next ∷ rest) n h k (l, s) = omega (
      arith,
      denials-cons q owner next (links first next rest),
      count-at less less greater h (law.less_trans q owner next h l) (greater_of l),
      denials-below q first next rest n (law.less_trans q owner next h l)
          (law.less_trans first owner next k l) s,
    )

    denials-not_above :
        (q first : A) (rest : List A)
        → NotGreater (c q first)
        → Sorted first rest
        → denials q (links first first rest) ≡ 1
    unfolding links denials
    denials-not_above q first [] n s = omega (
      arith,
      denials-cons q first first [],
      only-below (c q first) (c first first) n (equal_refl c law first),
    )
    denials-not_above q first (next ∷ rest) n (l, s) =
        let h : c q next ≡ less = NotGreater-next q first next (c q first) l refl n in
        omega (
          arith,
          denials-cons q first next (links first next rest),
          denials-below q first next rest n h l s,
          first-below (c q first) (c q next) (c next first) n h (greater_of l),
        )

    -- In a zone whose owners stand in order, each pointing to the next one and the last to the first,
    -- every name is matched or covered by exactly one of the records.
    pub denials-links :
        (q first : A) (rest : List A) → Sorted first rest → denials q (links first first rest) ≡ 1
    unfolding above
    denials-links q first rest s = elim (Sign-cases (c q first)) [
      | inl l ↦ denials-not_above q first rest (NotGreater-of (c q first) (inl l)) s
      | inr (inl e) ↦ denials-not_above q first rest (NotGreater-of (c q first) (inr e)) s
      | inr (inr g) ↦
          denials-above q first first rest g
            (NotGreater-of (c first first) (inr (equal_refl c law first))) s
          ∙ ap above g
    ]
