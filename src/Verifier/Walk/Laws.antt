-- ===== src/Verifier/Walk/Laws.antt =====
-- packages/core/src/verifier: what holds of the value a walk settles with.
use dnsdata_js.Base.{Bool, true, false, if◌then◌else◌, ◌≡◌, refl}
use dnsdata_js.Base.Result.{Result, ok, err, stuck}
use dnsdata_js.Verifier.Walk.{
  Settled, fulfilled, threw, World, Walk, VerifierError, return, throw_error, of_result, settle,
  ◌>>=◌,
}

abbrev pub Fulfils {ℓ} : {A : Type ℓ} → (A → Type 0) → Settled A → Type 0
Fulfils P (fulfilled a w) = P a
Fulfils P (threw e w) = Unit

-- Whatever the world is, a value that the walk settles with satisfies `P`.
pub record Ensures {ℓ} {A : Type ℓ} (P : A → Type 0) (m : Walk A) : Type 0 where
  pub holds : (w : World) → Fulfils P (m w)

module _ {ℓ κ} {A : Type ℓ} {B : Type κ} where
  settle-Fulfils :
      (P : A → Type 0) (Q : B → Type 0) (s : Settled A) (next : A → Walk B)
      → Fulfils P s
      → ((a : A) → P a → Ensures Q (next a))
      → Fulfils Q (settle next s)
  settle-Fulfils P Q (fulfilled a w) next h k = (k a h).holds w
  settle-Fulfils P Q (threw e w) next h k = tt

  pub Ensures->>= :
      (P : A → Type 0) (Q : B → Type 0) (m : Walk A) (next : A → Walk B)
      → Ensures P m
      → ((a : A) → P a → Ensures Q (next a))
      → Ensures Q (m >>= next)
  Ensures->>= P Q m next h k = record { holds = λ w. settle-Fulfils P Q (m w) next (h.holds w) k }

  -- Where nothing is known of the first value.
  pub Ensures-then :
      (Q : B → Type 0) (m : Walk A) (next : A → Walk B)
      → ((a : A) → Ensures Q (next a))
      → Ensures Q (m >>= next)
  Ensures-then Q m next k =
      Ensures->>= (λ a. Unit) Q m next (record { holds = λ w. anything (m w) }) (λ a h. k a)
    where
      anything : (s : Settled A) → Fulfils (λ (a : A). Unit {0}) s
      anything (fulfilled a w) = tt
      anything (threw e w) = tt

module _ {A : Type 0} where
  pub Ensures-of_result : (r : Result A) → Ensures (λ a. r ≡ ok a) (of_result r)
  Ensures-of_result (ok a) = record { holds = λ w. refl }
  Ensures-of_result (err e) = record { holds = λ w. tt }
  Ensures-of_result stuck = record { holds = λ w. tt }

  pub Ensures-return : (P : A → Type 0) (a : A) → P a → Ensures P (return a)
  Ensures-return P a h = record { holds = λ w. h }

  pub Ensures-throw_error : (P : A → Type 0) (e : VerifierError) → Ensures P (throw_error e)
  Ensures-throw_error P e = record { holds = λ w. tt }

  weaken-Fulfils :
      (P Q : A → Type 0) (s : Settled A) → Fulfils P s → ((a : A) → P a → Q a) → Fulfils Q s
  weaken-Fulfils P Q (fulfilled a w) h k = k a h
  weaken-Fulfils P Q (threw e w) h k = tt

  pub Ensures-weaken :
      (P Q : A → Type 0) (m : Walk A) → Ensures P m → ((a : A) → P a → Q a) → Ensures Q m
  Ensures-weaken P Q m h k = record { holds = λ w. weaken-Fulfils P Q (m w) (h.holds w) k }

  pub Ensures-if :
      (P : A → Type 0) (b : Bool) (m n : Walk A)
      → (b ≡ true → Ensures P m)
      → (b ≡ false → Ensures P n)
      → Ensures P (if b then m else n)
  Ensures-if P true m n h k = h refl
  Ensures-if P false m n h k = k refl
