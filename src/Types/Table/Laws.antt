-- ===== src/Types/Table/Laws.antt =====
-- Tables that are inverse to each other.
use dnsdata_js.Base.{
  ℕ, Bool, true, false, ◌&&◌, Option, none, some, List, [], ◌∷◌, ◌==◌, ==_iff, ◌≡◌, refl, ap, sym,
  ◌∙◌, Bool-cases, inl, inr,
}
use dnsdata_js.Base.Text.{Text}
use dnsdata_js.Base.Result.{Exception, Result, ok, err, stuck}
use dnsdata_js.Types.Table.{case_of, or_throw}

abbrev is_ok : ℕ → Result ℕ → Bool
is_ok k (ok n) = n == k
is_ok k (err e) = false
is_ok k stuck = false

-- `read` gives back the number of every name of the table.
unfoldable pub reads : (Text → Result ℕ) → List (ℕ × Text) → Bool
reads read [] = true
reads read ((k, v) ∷ t) = is_ok k (read v) && reads read t

is_ok-true : (k : ℕ) (r : Result ℕ) → is_ok k r ≡ true → r ≡ ok k
is_ok-true k (ok n) h = ap ok ((==_iff n k).0 h)
is_ok-true k (err e) h = cc
is_ok-true k stuck h = cc

&&-both : (a b : Bool) → (a && b) ≡ true → (a ≡ true) × (b ≡ true)
&&-both true b h = (refl, h)
&&-both false b h = cc

reads-case_of :
    (read : Text → Result ℕ) (t : List (ℕ × Text)) (n : ℕ) (s : Text)
    → reads read t ≡ true
    → case_of t n ≡ some s
    → read s ≡ ok n
unfolding reads case_of
reads-case_of read [] n s h e = cc
reads-case_of read ((k, v) ∷ t) n s h e =
    let (a, b) = &&-both (is_ok k (read v)) (reads read t) h in
    elim (Bool-cases (k == n)) [
      | inl t ↦
          let q : k ≡ n = (==_iff k n).0 t in
          let f : some v ≡ some s = (rw t at e) in
          let g : v ≡ s = ap (λ o. elim o [ none ↦ v | some x ↦ x ]) f in
          ap read (sym g) ∙ is_ok-true k (read v) a ∙ ap ok q
      | inr f ↦ reads-case_of read t n s b (rw f at e)
    ]

pub reads-or_throw :
    (read : Text → Result ℕ) (t : List (ℕ × Text)) (x : Exception) (n : ℕ) (s : Text)
    → reads read t ≡ true
    → or_throw x (case_of t n) ≡ ok s
    → read s ≡ ok n
reads-or_throw read t x n s h = go (case_of t n) refl
  where
    go : (o : Option Text) → case_of t n ≡ o → or_throw x o ≡ ok s → read s ≡ ok n
    go none e f = cc
    go (some v) e f =
        let g : v ≡ s = ap (λ r. elim r [ ok y ↦ y | err z ↦ v | stuck ↦ v ]) f in
        reads-case_of read t n s h (e ∙ ap some g)
