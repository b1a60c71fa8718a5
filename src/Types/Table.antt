-- ===== src/Types/Table.antt =====
-- Switches over numbers and names, as tables.
pub mod Laws
use dnsdata_js.Base.{
  ℕ, Bool, true, false, Option, none, some, List, [], ◌∷◌, ◌==◌, if◌then◌else◌, ◌≡◌, refl, arith,
  ◌&&◌,
}
use dnsdata_js.Base.Text.{Text, text_eq, text_eq_iff}
use dnsdata_js.Base.Result.{Exception, Result, ok, err}

-- `switch (n) { case k: return v; … }`
unfoldable pub case_of {ℓ} : {V : Type ℓ} → List (ℕ × V) → ℕ → Option V
case_of [] n = none
case_of ((k, v) ∷ t) n = if k == n then some v else case_of t n

-- `switch (s) { case "v": return k; … }`
unfoldable pub case_of_name : List (ℕ × Text) → Text → Option ℕ
unfolding text_eq
case_of_name [] s = none
case_of_name ((k, v) ∷ t) s = if text_eq v s then some k else case_of_name t s

-- `default: throw e;`
abbrev pub or_throw {ℓ} : {V : Type ℓ} → Exception → Option V → Result V
or_throw e none = err e
or_throw e (some v) = ok v
