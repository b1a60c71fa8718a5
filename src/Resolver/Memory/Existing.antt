-- ===== src/Resolver/Memory/Existing.antt =====
-- packages/core/src/resolver/memory/zone_index.ts: which names exist in a zone.
use dnsdata_js.Base.{
  ℕ, zero, suc, ◌+◌, ◌≤◌, true, false, List, [], ◌∷◌, length, Bool-cases, inl, inr, ◌⊎◌, ◌↔◌, ◌≡◌,
  refl, sym, ap, arith,
}
use dnsdata_js.Base.Text.{Text, dot, text_eq, text_eq_iff}
use dnsdata_js.Base.Maps.{text_eq_refl}
use mathlib.Core.Path.{subst}
use dnsdata_js.Resolver.Memory.{labels, parent}
use dnsdata_js.Resolver.Memory.Parents.{parent-labels}
use dnsdata_js.Resolver.Memory.ZoneIndex.{has, add_existing, steps_up}

-- `n` is `owner` or one of its ancestors, up to `apex` where the way passes it.
pub data Above (apex : Text) : Text → Text → Type 0 where
  here : {n : Text} → Above apex n n
  up :
      {owner n : Text}
      → text_eq owner apex ≡ false
      → Above apex (parent owner) n
      → Above apex owner n

abbrev pub Has : Text → List Text → Type 0
Has n xs = has n xs ≡ true

-- With every name but the apex goes its parent, or else the parent is `p`.
abbrev pub ClosedBut : Text → Text → List Text → Type 0
ClosedBut apex p xs =
    (n : Text) → Has n xs → text_eq n apex ≡ false → Has (parent n) xs ⊎ (parent n ≡ p)

abbrev pub Closed : Text → List Text → Type 0
Closed apex xs = (n : Text) → Has n xs → text_eq n apex ≡ false → Has (parent n) xs

Has-cons : (n x : Text) (xs : List Text) → Has n xs → Has n (x ∷ xs)
unfolding has
Has-cons n x xs h = ground arith

Has-head : (n : Text) (xs : List Text) → Has n (n ∷ xs)
unfolding has
Has-head n xs = rw (text_eq_refl n) refl

Has-uncons : (n x : Text) (xs : List Text) → Has n (x ∷ xs) → (n ≡ x) ⊎ Has n xs
unfolding has
Has-uncons n x xs h = elim (Bool-cases (text_eq x n)) [
  | inl t ↦ let (to, from) = text_eq_iff x n in inl (sym (to t))
  | inr f ↦ inr (rw f at h)
]

-- The fuel suffices: the root is there, or comes next, or is as far as there are labels.
data Enough (xs : List Text) : ℕ → Text → Type 0 where
  at_root : {f : ℕ} → 1 ≤ f → Has (dot ∷ []) xs → Enough xs f (dot ∷ [])
  to_root : {f : ℕ} → 2 ≤ f → Enough xs f (dot ∷ [])
  below : {f : ℕ} {n : Text} → length (labels n) + 3 ≤ f → Enough xs f n

root-parent : parent (dot ∷ []) ≡ dot ∷ []
unfolding parent
root-parent = refl

Enough-cases :
    {f : ℕ} {n : Text} {xs : List Text}
    → Enough xs f n
    → (1 ≤ f) × ((Has n xs ⊎ (n ≡ dot ∷ [])) ⊎ (length (labels n) + 3 ≤ f))
Enough-cases (at_root f h) = (f, inl (inl h))
Enough-cases (to_root f) = (omega arith, inl (inr refl))
Enough-cases (below f) = (omega arith, inr f)

Enough-up :
    {f : ℕ} {n : Text} {xs : List Text}
    → Enough xs (suc f) n
    → has n xs ≡ false
    → Enough (n ∷ xs) f (parent n)
Enough-up {f} {xs = xs} (at_root g h) k = cc
Enough-up {f} {xs = xs} (to_root g) k =
    rw root-parent (at_root (omega arith) (Has-head (dot ∷ []) xs))
Enough-up {f} {n} {xs} (below g) k = elim (parent-labels n) [
  | inl e ↦ rw e (to_root (omega arith))
  | inr l ↦ below (omega arith)
]

-- What is there stays there.
Has-add_existing :
    (apex : Text) (f : ℕ) (n m : Text) (xs : List Text)
    → Has m xs
    → Has m (add_existing apex f n xs)
unfolding add_existing
Has-add_existing apex zero n m xs h = h
Has-add_existing apex (suc f) n m xs h = elim (Bool-cases (has n xs)) [
  | inl t ↦ rw t h
  | inr u ↦ rw u (elim (Bool-cases (text_eq n apex)) [
    | inl t ↦ rw t (Has-cons m n xs h)
    | inr v ↦ rw v (Has-add_existing apex f (parent n) m (n ∷ xs) (Has-cons m n xs h))
  ])
]

-- What the loop adds is an ancestor of the owner.
add_existing-Above :
    (apex : Text) (f : ℕ) (n m : Text) (xs : List Text)
    → Has m (add_existing apex f n xs)
    → Has m xs ⊎ Above apex n m
unfolding add_existing
add_existing-Above apex zero n m xs h = inl h
add_existing-Above apex (suc f) n m xs h = elim (Bool-cases (has n xs)) [
  | inl t ↦ inl (rw t at h)
  | inr u ↦
      let h = (rw u at h) in
      elim (Bool-cases (text_eq n apex)) [
        | inl t ↦ added m n xs (rw t at h)
        | inr v ↦ elim (add_existing-Above apex f (parent n) m (n ∷ xs) (rw v at h)) [
          | inl k ↦ added m n xs k
          | inr a ↦ inr (up v a)
        ]
      ]
]
  where
    added : (m n : Text) (xs : List Text) → Has m (n ∷ xs) → Has m xs ⊎ Above apex n m
    added m n xs h = elim (Has-uncons m n xs h) [
      | inl e ↦ inr (subst (λ (x : Text). Above apex n x) (sym e) here)
      | inr k ↦ inl k
    ]

-- The loop leaves no name without its parent, although it stops at the first name that is there.
add_existing-Closed :
    (apex : Text) (f : ℕ) (n : Text) (xs : List Text)
    → Enough xs f n
    → ClosedBut apex n xs
    → Closed apex (add_existing apex f n xs) × Has n (add_existing apex f n xs)
unfolding add_existing
add_existing-Closed apex zero n xs e c =
    let (some_fuel, cases) = Enough-cases e in absurd (omega arith)
add_existing-Closed apex (suc f) n xs e c = elim (Bool-cases (has n xs)) [
  | inl t ↦ rw t (known t, t)
  | inr u ↦ rw u (elim (Bool-cases (text_eq n apex)) [
    | inl t ↦ rw t (topped t, Has-head n xs)
    | inr v ↦ rw v (
        let (closed, there) =
          add_existing-Closed apex f (parent n) (n ∷ xs) (Enough-up e u) climbing in
        (closed, Has-add_existing apex f (parent n) n (n ∷ xs) (Has-head n xs)))
  ])
]
  where
    known : Has n xs → Closed apex xs
    known t m h d = elim (c m h d) [ inl k ↦ k | inr q ↦ subst (λ (x : Text). Has x xs) (sym q) t ]

    kept : (m : Text) → Has (parent m) xs ⊎ (parent m ≡ n) → Has (parent m) (n ∷ xs)
    kept m (inl k) = Has-cons (parent m) n xs k
    kept m (inr q) = subst (λ (x : Text). Has x (n ∷ xs)) (sym q) (Has-head n xs)

    topped : text_eq n apex ≡ true → Closed apex (n ∷ xs)
    topped t m h d = elim (Has-uncons m n xs h) [
      | inl q ↦ let same = ap (λ (x : Text). text_eq x apex) q in cc
      | inr k ↦ kept m (c m k d)
    ]

    climbing : ClosedBut apex (parent n) (n ∷ xs)
    climbing m h d = elim (Has-uncons m n xs h) [
      | inl q ↦ inr (ap parent q)
      | inr k ↦ inl (kept m (c m k d))
    ]

Closed-Above :
    (apex owner n : Text) (xs : List Text)
    → Closed apex xs
    → Above apex owner n
    → Has owner xs
    → Has n xs
Closed-Above apex owner n xs c here h = h
Closed-Above apex owner n xs c (up d a) h = Closed-Above apex (parent owner) n xs c a (c owner h d)

-- The names of the zone: from a closed set the loop makes a closed set with exactly the ancestors
-- of the owner more.
pub add_existing-step :
    (apex owner : Text) (xs : List Text)
    → Closed apex xs
    → (c : Closed apex (add_existing apex (steps_up owner) owner xs)) × ((n : Text)
        → Has n (add_existing apex (steps_up owner) owner xs) ↔ (Has n xs ⊎ Above apex owner n))
add_existing-step apex owner xs c =
    let (closed, there) =
      add_existing-Closed apex (steps_up owner) owner xs (below (omega arith))
        (λ m h d. inl (c m h d)) in
    (
      closed,
      λ n. (
        add_existing-Above apex (steps_up owner) owner n xs,
        λ w. elim w [
          | inl h ↦ Has-add_existing apex (steps_up owner) owner n xs h
          | inr a ↦
              Closed-Above apex owner n (add_existing apex (steps_up owner) owner xs) closed a there
        ],
      ),
    )
