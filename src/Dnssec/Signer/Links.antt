-- ===== src/Dnssec/Signer/Links.antt =====
-- packages/core/src/dnssec/signer/nsec.ts: the NSEC handlers of the records that `build_nsec` returns.
use dnsdata_js.Base.{
  ℕ, Bool, true, false, ◌||◌, List, [], ◌∷◌, ◌++◌, map, All, ◌≡◌, refl, ap, ◌∙◌, inl, inr,
  Bool-cases,
}
use dnsdata_js.Base.Text.{Text, join}
use dnsdata_js.Base.Among.{Among, here, there}
use dnsdata_js.Base.Spaces.Words.{is_word}
use dnsdata_js.Base.Result.{Result, ok, ◌>>=◌, map_result}
use dnsdata_js.Types.RrType.{rr_type_name}
use dnsdata_js.Dnssec.Canonical.{compare_canonical_names}
use dnsdata_js.Dnssec.Denial.Chain.{links}
use dnsdata_js.Dnssec.Nsec.{Nsec}
use dnsdata_js.Dnssec.Nsec.Laws.{owner_and_next}
use dnsdata_js.Dnssec.Nsec.Presentation.{nsec_of_value}
use dnsdata_js.Dnssec.Nsec.RoundTrip.{nsec_of, nsec_of_value-join}
use dnsdata_js.Dnssec.SignerNames.{is_at_or_below}
use dnsdata_js.Dnssec.Signer.{ResourceRecord, includes, is_generated_type, type_rrsig, type_nsec}
use dnsdata_js.Dnssec.Signer.View.{
  ZoneView, view_from, sorted_types, bitmap_types, bitmap_text, type_names, chain_types, with_type,
  with_cut,
}
use dnsdata_js.Dnssec.Signer.Chain.{nsec_record, nsec_chain}
use dnsdata_js.Dnssec.Signer.Types.{
  Are16Bit, HasTypes, bitmap_types-Are16Bit, includes-sorted_types, includes-append,
}

-- The owner of a record with what the NSEC handler reads from its value.
abbrev pub handler_of : ResourceRecord → Result (Text × Nsec)
handler_of rr = nsec_of_value rr.value >>= λ n. ok (rr.label, n)

unfoldable pub handlers_of : List ResourceRecord → Result (List (Text × Nsec))
unfolding nsec_of_value
handlers_of rrs = map_result handler_of rrs

-- What the handlers are to be: the next owner, and the types of the bitmap.
unfoldable pub chained : ZoneView → Text → List Text → List (Text × Nsec)
unfolding sorted_types chain_types
chained v apex [] = []
chained v apex (o ∷ []) = (o, nsec_of apex (sorted_types (bitmap_types v o))) ∷ []
chained v apex (o ∷ next ∷ owners) =
    (o, nsec_of next (sorted_types (bitmap_types v o))) ∷ chained v apex (next ∷ owners)

nsec_of_value-types :
    (next : Text) (ts : List ℕ)
    → is_word next ≡ true
    → includes ts type_rrsig ≡ true
    → Are16Bit ts
    → nsec_of_value (next ++ (32 ∷ []) ++ join (32 ∷ []) (map rr_type_name ts))
      ≡ ok (nsec_of next ts)
unfolding includes
nsec_of_value-types next [] w h b = absurd (cc)
nsec_of_value-types next (t ∷ ts) w h b = nsec_of_value-join next t ts w b

bitmap_types-rrsig :
    (v : ZoneView) (o : Text) → includes (sorted_types (bitmap_types v o)) type_rrsig ≡ true
unfolding chain_types includes
bitmap_types-rrsig v o = includes-sorted_types (bitmap_types v o) type_rrsig (
    includes-append (chain_types v o) (type_rrsig ∷ type_nsec ∷ []) type_rrsig
    ∙ or_true (includes (chain_types v o) type_rrsig))
  where
    or_true : (b : Bool) → (b || includes (46 ∷ 47 ∷ []) 46) ≡ true
    or_true true = refl
    or_true false = refl

nsec_record-handler_of :
    (v : ZoneView) (ttl : ℕ) (o next : Text)
    → HasTypes v.types
    → is_word next ≡ true
    → handler_of (nsec_record v ttl o next) ≡ ok (o, nsec_of next (sorted_types (bitmap_types v o)))
unfolding type_names bitmap_text
nsec_record-handler_of v ttl o next h w =
    ap (λ (r : Result Nsec). r >>= λ n. ok (o, n))
      (nsec_of_value-types next (sorted_types (bitmap_types v o)) w (bitmap_types-rrsig v o)
        (bitmap_types-Are16Bit v o h))

-- The records of the chain are read back with their next owners and their types.
pub handlers_of-nsec_chain :
    (v : ZoneView) (ttl : ℕ) (apex : Text) (owners : List Text)
    → HasTypes v.types
    → is_word apex ≡ true
    → All (λ (o : Text). is_word o ≡ true) owners
    → handlers_of (nsec_chain v ttl apex owners) ≡ ok (chained v apex owners)
unfolding handlers_of nsec_chain chained
handlers_of-nsec_chain v ttl apex [] h w ws = refl
handlers_of-nsec_chain v ttl apex (o ∷ []) h w ws =
    rw (nsec_record-handler_of v ttl o apex h w) refl
handlers_of-nsec_chain v ttl apex (o ∷ next ∷ owners) h w (k, (m, ks)) =
    rw
      (
        nsec_record-handler_of v ttl o next h m,
        handlers_of-nsec_chain v ttl apex (next ∷ owners) h w (m, ks),
      )
      refl

pub chained-links :
    (v : ZoneView) (apex o : Text) (owners : List Text)
    → owner_and_next (chained v apex (o ∷ owners)) ≡ links compare_canonical_names apex o owners
unfolding owner_and_next chained links
chained-links v apex o [] = refl
chained-links v apex o (next ∷ owners) =
    ap (λ (x : List (Text × Text)). (o, next) ∷ x) (chained-links v apex next owners)

-- Every owner has its record in the chain.
pub Among-chained :
    (v : ZoneView) (apex o : Text) (owners : List Text)
    → Among o owners
    → (next : Text) × Among
        (o, nsec_of next (sorted_types (bitmap_types v o)))
        (chained v apex owners)
unfolding chained
Among-chained v apex o [] m = elim m [ ]
Among-chained v apex o (_ ∷ []) here = (apex, here)
Among-chained v apex o (x ∷ []) (there m) = elim m [ ]
Among-chained v apex o (_ ∷ next ∷ owners) here = (next, here)
Among-chained v apex o (x ∷ next ∷ owners) (there m) =
    let (n, k) = Among-chained v apex o (next ∷ owners) m in (n, there k)

-- And every record of the chain is one of an owner, with the types of that owner.
pub chained-Among :
    (v : ZoneView) (apex o : Text) (n : Nsec) (owners : List Text)
    → Among (o, n) (chained v apex owners)
    → Among o owners
      × (n.covered_types ≡ (nsec_of o (sorted_types (bitmap_types v o))).covered_types)
unfolding chained
chained-Among v apex o n [] m = elim m [ ]
chained-Among v apex _ _ (x ∷ []) here = (here, refl)
chained-Among v apex o n (x ∷ []) (there m) = elim m [ ]
chained-Among v apex _ _ (x ∷ next ∷ owners) here = (here, refl)
chained-Among v apex o n (x ∷ next ∷ owners) (there m) =
    let (k, e) = chained-Among v apex o n (next ∷ owners) m in (there k, e)

-- The loop of `ZoneView.of` returns where every record that signing keeps is at or below the apex.
pub view_from-ok :
    (apex : Text) (rrs : List ResourceRecord) (v : ZoneView)
    → All
        (λ (r : ResourceRecord).
          is_generated_type r.type ≡ false → is_at_or_below r.label apex ≡ true)
        rrs
    → (w : ZoneView) × (view_from apex rrs v ≡ ok w)
unfolding view_from
view_from-ok apex [] v h = (v, refl)
view_from-ok apex (r ∷ rrs) v (i, h) = elim (Bool-cases (is_generated_type r.type)) [
  | inl t ↦ let (w, e) = view_from-ok apex rrs v h in (w, rw (t, view_from) e)
  | inr f ↦
      let (w, e) = view_from-ok apex rrs (with_cut apex r (with_type r v)) h in
      (w, rw (f, i f, view_from) e)
]
