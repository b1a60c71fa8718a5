-- ===== src/Verifier/Walk/Frame.antt =====
-- packages/core/src/verifier: steps of a walk that leave the aliases of the result alone.
use dnsdata_js.Base.{Bool, true, false, if◌then◌else◌, ◌≡◌, refl, ◌∙◌}
use dnsdata_js.Base.Result.{Result, ok, err, stuck}
use dnsdata_js.Verifier.Walk.{
  Settled, fulfilled, threw, World, Walk, VerifierError, chain_timeout, Outside, return,
  throw_error, of_result, settle, check_aborted, poll_signal, ◌>>=◌,
}

abbrev pub SameAliases {ℓ} : {A : Type ℓ} → World → Settled A → Type 0
SameAliases w (fulfilled a w') = w'.result.aliases ≡ w.result.aliases
SameAliases w (threw e w') = Unit

-- A walk that settles with a value has the aliases it started with.
pub record Keeps {ℓ} {A : Type ℓ} (m : Walk A) : Type 0 where
  pub holds : (w : World) → SameAliases w (m w)

follow-SameAliases {ℓ} :
    {B : Type ℓ} (v w : World) (s : Settled B)
    → w.result.aliases ≡ v.result.aliases
    → SameAliases w s
    → SameAliases v s
follow-SameAliases v w (fulfilled b x) e h = h ∙ e
follow-SameAliases v w (threw x y) e h = tt

module _ {ℓ κ} {A : Type ℓ} {B : Type κ} where
  settle-SameAliases :
      (v : World) (s : Settled A) (next : A → Walk B)
      → SameAliases v s
      → ((a : A) → Keeps (next a))
      → SameAliases v (settle next s)
  settle-SameAliases v (fulfilled a w) next h k =
      follow-SameAliases v w (next a w) h ((k a).holds w)
  settle-SameAliases v (threw e w) next h k = tt

  pub Keeps->>= :
      (m : Walk A) (next : A → Walk B) → Keeps m → ((a : A) → Keeps (next a)) → Keeps (m >>= next)
  Keeps->>= m next h k = record { holds = λ w. settle-SameAliases w (m w) next (h.holds w) k }

module _ {ℓ} {A : Type ℓ} where
  pub Keeps-return : (a : A) → Keeps (return a)
  Keeps-return a = record { holds = λ w. refl }

  pub Keeps-throw_error : (e : VerifierError) → Keeps {A = A} (throw_error e)
  Keeps-throw_error e = record { holds = λ w. tt }

  pub Keeps-of_result : (r : Result A) → Keeps (of_result r)
  Keeps-of_result (ok a) = record { holds = λ w. refl }
  Keeps-of_result (err e) = record { holds = λ w. tt }
  Keeps-of_result stuck = record { holds = λ w. tt }

  pub Keeps-if : (b : Bool) (m n : Walk A) → Keeps m → Keeps n → Keeps (if b then m else n)
  Keeps-if true m n h k = h
  Keeps-if false m n h k = k

pub Keeps-check_aborted : (out : Outside) → Keeps (check_aborted out)
unfolding check_aborted
Keeps-check_aborted out =
    Keeps->>= (poll_signal out) _ (record { holds = λ w. refl })
      (λ aborted. Keeps-if aborted _ _ (Keeps-throw_error chain_timeout) (Keeps-return tt))
