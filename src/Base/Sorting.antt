-- ===== src/Base/Sorting.antt =====
-- `Array.prototype.sort` with a comparison function, which is stable, and a list in order with the
-- repeats of each run left out.
use dnsdata_js.Base.Lists.{All}
use dnsdata_js.Base.Order.{
  Sign, less, equal, greater, opposite, Comparison, Sign-cases, equal_refl, equal_right,
}
use dnsdata_js.Base.Among.{Among, here, there}
use mathlib.Core.Path.{◌≡◌, sym, ap, ◌∙◌}
use mathlib.Core.Logic.{inl, inr}
use mathlib.Core.List.{List, [], ◌∷◌}

-- At the first place where nothing before it is greater than it.
abbrev at_place {ℓ} : {A : Type ℓ} → Sign → A → A → List A → List A → List A
at_place greater x y ys rest = y ∷ rest
at_place _ x y ys rest = x ∷ y ∷ ys

abbrev pub unless_equal {ℓ} : {A : Type ℓ} → Sign → A → List A → List A
unless_equal equal x rest = rest
unless_equal _ x rest = x ∷ rest

abbrev pub NotAfter : Sign → Type 0
NotAfter greater = ⊥
NotAfter _ = Unit

module _ {ℓ} {A : Type ℓ} (c : A → A → Sign) where
  unfoldable pub insert : A → List A → List A
  insert x [] = x ∷ []
  insert x (y ∷ ys) = let rest = insert x ys in at_place (c x y) x y ys rest

  unfoldable pub sort : List A → List A
  unfolding insert
  sort [] = []
  sort (x ∷ xs) = insert x (sort xs)

  -- The elements that are not equal to the one before them.
  unfoldable pub drop_repeats_of : A → List A → List A
  drop_repeats_of previous [] = []
  drop_repeats_of previous (x ∷ xs) =
      let rest = drop_repeats_of x xs in unless_equal (c previous x) x rest

  unfoldable pub drop_repeats : List A → List A
  unfolding drop_repeats_of
  drop_repeats [] = []
  drop_repeats (x ∷ xs) = x ∷ drop_repeats_of x xs

  -- No element is greater than a later one.
  abbrev pub Weakly : List A → Type 0
  Weakly [] = Unit
  Weakly (x ∷ xs) = All (λ (y : A). NotAfter (c x y)) xs × Weakly xs

  -- Every element is less than all later ones.
  abbrev pub Ascending : List A → Type 0
  Ascending [] = Unit
  Ascending (x ∷ xs) = All (λ (y : A). c x y ≡ less) xs × Ascending xs

  Among-insert : (x y : A) (ys : List A) → Among x (y ∷ ys) → Among x (insert y ys)
  unfolding insert
  Among-insert x y [] m = m
  Among-insert x y (z ∷ ys) m = elim (Sign-cases (c y z)) [
    | inl l ↦ rw l m
    | inr (inl e) ↦ rw e m
    | inr (inr g) ↦ rw g (insert_there x y z ys m (Among-insert x y ys))
  ]
    where
      insert_there :
          (x y z : A) (ys : List A)
          → Among x (y ∷ z ∷ ys)
          → (Among x (y ∷ ys) → Among x (insert y ys))
          → Among x (z ∷ insert y ys)
      insert_there x _ z ys here h = there (h here)
      insert_there x y _ ys (there here) h = here
      insert_there x y z ys (there (there m)) h = there (h (there m))

  -- Nothing is lost.
  pub Among-sort : (x : A) (xs : List A) → Among x xs → Among x (sort xs)
  unfolding sort
  Among-sort x (_ ∷ xs) here = Among-insert x x (sort xs) here
  Among-sort x [] m = elim m [ ]
  Among-sort x (y ∷ xs) (there m) = Among-insert x y (sort xs) (there (Among-sort x xs m))

  module _ {κ} (P : A → Type κ) where
    All-insert : (x : A) (xs : List A) → P x → All P xs → All P (insert x xs)
    unfolding insert
    All-insert x [] p h = (p, tt)
    All-insert x (y ∷ ys) p (q, h) = elim (Sign-cases (c x y)) [
      | inl l ↦ rw l (p, (q, h))
      | inr (inl e) ↦ rw e (p, (q, h))
      | inr (inr g) ↦ rw g (q, All-insert x ys p h)
    ]

    -- What holds of every element holds after sorting.
    pub All-sort : (xs : List A) → All P xs → All P (sort xs)
    unfolding sort
    All-sort [] h = tt
    All-sort (x ∷ xs) (p, h) = All-insert x (sort xs) p (All-sort xs h)

    All-drop_repeats_of : (p : A) (xs : List A) → All P xs → All P (drop_repeats_of p xs)
    unfolding drop_repeats_of
    All-drop_repeats_of p [] h = tt
    All-drop_repeats_of p (x ∷ xs) (q, h) = elim (Sign-cases (c p x)) [
      | inl l ↦ rw l (q, All-drop_repeats_of x xs h)
      | inr (inl e) ↦ rw e (All-drop_repeats_of x xs h)
      | inr (inr g) ↦ rw g (q, All-drop_repeats_of x xs h)
    ]

    pub All-drop_repeats : (xs : List A) → All P xs → All P (drop_repeats xs)
    unfolding drop_repeats
    All-drop_repeats [] h = tt
    All-drop_repeats (x ∷ xs) (p, h) = (p, All-drop_repeats_of x xs h)

  module _ (law : Comparison c) where
    NotAfter-of_less : (a b d : A) → c a b ≡ less → NotAfter (c b d) → NotAfter (c a d)
    NotAfter-of_less a b d l n = elim (Sign-cases (c b d)) [
      | inl m ↦ rw (law.less_trans a b d l m) tt
      | inr (inl e) ↦ rw (sym (equal_right c law a b d e), l) tt
      | inr (inr g) ↦ absurd (rw g at n)
    ]

    NotAfter-trans : (a b d : A) → NotAfter (c a b) → NotAfter (c b d) → NotAfter (c a d)
    NotAfter-trans a b d h n = elim (Sign-cases (c a b)) [
      | inl l ↦ NotAfter-of_less a b d l n
      | inr (inl e) ↦ rw (law.equal_left a b d e) n
      | inr (inr g) ↦ absurd (rw g at h)
    ]

    All-NotAfter :
        (x y : A) (ys : List A)
        → NotAfter (c x y)
        → All (λ (z : A). NotAfter (c y z)) ys
        → All (λ (z : A). NotAfter (c x z)) ys
    All-NotAfter x y [] n h = tt
    All-NotAfter x y (z ∷ ys) n (p, h) = (NotAfter-trans x y z n p, All-NotAfter x y ys n h)

    insert-Weakly : (x : A) (ys : List A) → Weakly ys → Weakly (insert x ys)
    unfolding insert
    insert-Weakly x [] w = (tt, tt)
    insert-Weakly x (y ∷ ys) (h, w) = elim (Sign-cases (c x y)) [
      | inl l ↦ let n : NotAfter (c x y) = (rw l tt) in rw l ((n, All-NotAfter x y ys n h), (h, w))
      | inr (inl e) ↦
          let n : NotAfter (c x y) = (rw e tt) in rw e ((n, All-NotAfter x y ys n h), (h, w))
      | inr (inr g) ↦
          let f : c y x ≡ less = law.flip x y ∙ ap opposite g in
          let n : NotAfter (c y x) = (rw f tt) in
          rw g (All-insert (λ (z : A). NotAfter (c y z)) x ys n h, insert-Weakly x ys w)
    ]

    pub sort-Weakly : (xs : List A) → Weakly (sort xs)
    unfolding sort
    sort-Weakly [] = tt
    sort-Weakly (x ∷ xs) = insert-Weakly x (sort xs) (sort-Weakly xs)

    all-less :
        (p x : A) (xs : List A)
        → c p x ≡ less
        → All (λ (y : A). c x y ≡ less) xs
        → All (λ (y : A). c p y ≡ less) xs
    all-less p x [] l h = tt
    all-less p x (y ∷ xs) l (m, h) = (law.less_trans p x y l m, all-less p x xs l h)

    all-equal :
        (p x : A) (xs : List A)
        → c p x ≡ equal
        → All (λ (y : A). c x y ≡ less) xs
        → All (λ (y : A). c p y ≡ less) xs
    all-equal p x [] e h = tt
    all-equal p x (y ∷ xs) e (m, h) = (law.equal_left p x y e ∙ m, all-equal p x xs e h)

    drop_repeats_of-Ascending :
        (p : A) (xs : List A) → Weakly (p ∷ xs) → Ascending (p ∷ drop_repeats_of p xs)
    unfolding drop_repeats_of
    drop_repeats_of-Ascending p [] w = (tt, tt)
    drop_repeats_of-Ascending p (x ∷ xs) ((n, h), w) =
        let (k, a) = drop_repeats_of-Ascending x xs w in
        elim (Sign-cases (c p x)) [
          | inl l ↦ rw l ((l, all-less p x (drop_repeats_of x xs) l k), (k, a))
          | inr (inl e) ↦ rw e (all-equal p x (drop_repeats_of x xs) e k, a)
          | inr (inr g) ↦ absurd (rw g at n)
        ]

    -- What is sorted and has no repeats in each run is strictly ascending.
    pub drop_repeats-Ascending : (xs : List A) → Weakly xs → Ascending (drop_repeats xs)
    unfolding drop_repeats
    drop_repeats-Ascending [] w = tt
    drop_repeats-Ascending (x ∷ xs) w = drop_repeats_of-Ascending x xs w

    -- An element equal to `x` is in the list.
    abbrev pub Stands : A → List A → Type ℓ
    Stands x xs = (y : A) × Among y xs × (c y x ≡ equal)

    Stands-drop_repeats_of :
        (x p : A) (xs : List A) → Among x (p ∷ xs) → Stands x (p ∷ drop_repeats_of p xs)
    unfolding drop_repeats_of
    Stands-drop_repeats_of x _ xs here = (x, here, equal_refl c law x)
    Stands-drop_repeats_of x p [] (there m) = elim m [ ]
    Stands-drop_repeats_of x p (q ∷ xs) (there m) =
        let (y, k, e) = Stands-drop_repeats_of x q xs m in
        elim (Sign-cases (c p q)) [
          | inl l ↦ rw l (y, there k, e)
          | inr (inl f) ↦ rw f (replaced x p q (drop_repeats_of q xs) f y k e)
          | inr (inr g) ↦ rw g (y, there k, e)
        ]
      where
        replaced :
            (x p q : A) (rest : List A)
            → c p q ≡ equal
            → (y : A) → Among y (q ∷ rest)
            → c y x ≡ equal
            → Stands x (p ∷ rest)
        replaced x p q rest f _ here e = (p, here, law.equal_left p q x f ∙ e)
        replaced x p q rest f y (there k) e = (y, there k, e)

    -- Nothing is lost but repeats.
    pub Stands-drop_repeats : (x : A) (xs : List A) → Among x xs → Stands x (drop_repeats xs)
    unfolding drop_repeats
    Stands-drop_repeats x [] m = elim m [ ]
    Stands-drop_repeats x (p ∷ xs) m = Stands-drop_repeats_of x p xs m
