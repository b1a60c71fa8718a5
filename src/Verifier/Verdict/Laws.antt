-- ===== src/Verifier/Verdict/Laws.antt =====
-- packages/core/src/verifier/verdict.ts: the verdicts combine to the worst one.
use dnsdata_js.Base.{ℕ, arith, ◌≡◌, if◌then◌else◌, ltb}
use dnsdata_js.Verifier.Verdict.{
  Verdict, indeterminate, secure, secure_no_data, secure_nx_domain, insecure, bogus,
  combine_verdicts,
}

-- Bogus over insecure over indeterminate over the secure ones.
unfoldable pub severity : Verdict → ℕ
severity bogus = 3
severity insecure = 2
severity indeterminate = 1
severity secure = 0
severity secure_no_data = 0
severity secure_nx_domain = 0

abbrev pub worse : ℕ → ℕ → ℕ
worse a b = if ltb a b then b else a

-- `combine_verdicts` is the worst of both.
combine_verdicts-worse :
    (a b : Verdict) → severity (combine_verdicts a b) ≡ worse (severity a) (severity b)
unfolding combine_verdicts severity
combine_verdicts-worse a b = ground arith

-- `combine_verdicts` is associative with `secure` as its unit, and the severity of a combination is
-- that of the worse verdict: bogus over insecure over indeterminate over the three secure ones.
pub combine_verdicts-monoid :
    (a b c : Verdict)
    → (combine_verdicts (combine_verdicts a b) c ≡ combine_verdicts a (combine_verdicts b c))
      × ((combine_verdicts secure a ≡ a)
          × ((combine_verdicts a secure ≡ a)
              × (severity (combine_verdicts a b) ≡ worse (severity a) (severity b))))
unfolding combine_verdicts
combine_verdicts-monoid a b c =
    (ground arith, (ground arith, (ground arith, combine_verdicts-worse a b)))
