-- ===== src/Verifier/Negative/Search.antt =====
-- packages/core/src/verifier/leaf_negative.ts: what `find_nsec` finds.
use dnsdata_js.Base.{
  Bool, true, false, ◌&&◌, none, some, List, [], ◌∷◌, ◌≡◌, refl, inl, inr, Bool-cases, ap,
}
use mathlib.Core.Path.{subst}
use dnsdata_js.Base.Among.{Among, here, there}
use dnsdata_js.Verifier.Negative.{Zone, NsecCandidate, find_nsec, type_nsec}

pub &&-true : (a b : Bool) → (a && b) ≡ true → (a ≡ true) × (b ≡ true)
&&-true true b h = (refl, h)
&&-true false b h = cc

-- A candidate that is found passes the test, verifies, and is one of the candidates.
pub find_nsec-some :
    (z : Zone) (pred : NsecCandidate → Bool) (cands : List NsecCandidate) (c : NsecCandidate)
    → find_nsec z pred cands ≡ some c
    → (pred c ≡ true) × ((z.verify_rrset c.owner type_nsec ≡ true) × Among c cands)
unfolding find_nsec
find_nsec-some z pred [] c e = cc
find_nsec-some z pred (d ∷ cands) c e =
    elim (Bool-cases (pred d && z.verify_rrset d.owner type_nsec)) [
      | inl t ↦
          let (p, v) = &&-true (pred d) (z.verify_rrset d.owner type_nsec) t in
          let same : some d ≡ some c = (rw t at e) in
          let is : d ≡ c = ap (λ o. elim o [ none ↦ d | some x ↦ x ]) same in
          subst
            (λ (x : NsecCandidate).
              (pred x ≡ true) × ((z.verify_rrset x.owner type_nsec ≡ true) × Among x (d ∷ cands)))
            is (p, (v, here))
      | inr f ↦
          let rest : find_nsec z pred cands ≡ some c = (rw f at e) in
          let (p, (v, m)) = find_nsec-some z pred cands c rest in (p, (v, there m))
    ]
