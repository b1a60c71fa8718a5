-- ===== src/Resolver/Memory/Laws.antt =====
-- packages/core/src/resolver/memory/zone_index.ts: what the index of a zone answers.
use mathlib.Core.Path.{subst}
use dnsdata_js.Base.{
  true, if◌then◌else◌, Option, none, some, List, [], ◌∷◌, ◌++◌, Bool-cases, Option-cases, inl, inr,
  ◌⊎◌, ◌↔◌, ◌≡◌, refl, sym, ap, ◌∙◌, append-nil, append_assoc,
}
use dnsdata_js.Base.Among.{Among, here, there}
use dnsdata_js.Base.Text.{Text, text_eq, text_eq_iff}
use dnsdata_js.Base.Maps.{get, set, get-set_same, get-set_other}
use dnsdata_js.Dnssec.Signer.{ResourceRecord}
use dnsdata_js.Resolver.Memory.{normalize, is_at_or_below}
use dnsdata_js.Resolver.Memory.ZoneIndex.{
  ZoneIndex, no_index, has, has_name, records, add_owner, index_from, add_existing, steps_up,
}
use dnsdata_js.Resolver.Memory.Existing.{Above, Closed, add_existing-step}

-- The records whose owner is `name`, in their order.
unfoldable pub owned : Text → List ResourceRecord → List ResourceRecord
owned name [] = []
owned name (rr ∷ rrs) =
    let rest = owned name rrs in if text_eq (normalize rr.label) name then rr ∷ rest else rest

abbrev value_or : ZoneIndex → Option ZoneIndex → ZoneIndex
value_or idx none = idx
value_or idx (some i) = i

-- What a record within the zone does to the index.
add_owner-eq-some :
    (apex : Text) (rr : ResourceRecord) (idx next : ZoneIndex)
    → add_owner apex rr idx ≡ some next
    → (within : is_at_or_below (normalize rr.label) apex ≡ true) × (next.by_name
        ≡ set (normalize rr.label) (records idx (normalize rr.label) ++ rr ∷ []) idx.by_name)
      × (next.exists
          ≡ add_existing apex (steps_up (normalize rr.label)) (normalize rr.label) idx.exists)
unfolding add_owner
add_owner-eq-some apex rr idx next h =
    elim (Bool-cases (is_at_or_below (normalize rr.label) apex)) [
      | inl t ↦
          let same = ap (value_or idx) (rw t at h) in
          (
            t,
            sym (ap (λ (i : ZoneIndex). i.by_name) same),
            sym (ap (λ (i : ZoneIndex). i.exists) same),
          )
      | inr f ↦ let e = (rw f at h) in cc
    ]

or_empty : Option (List ResourceRecord) → List ResourceRecord
or_empty none = []
or_empty (some rrs) = rrs

records-or_empty :
    (idx : ZoneIndex) (name : Text) → records idx name ≡ or_empty (get name idx.by_name)
unfolding records or_empty
records-or_empty idx name = elim (Option-cases (get name idx.by_name)) [
  | inl e ↦ rw (e, records) refl
  | inr (rrs, e) ↦ rw (e, records) refl
]

records-add_owner :
    (apex : Text) (rr : ResourceRecord) (idx next : ZoneIndex) (name : Text)
    → add_owner apex rr idx ≡ some next
    → records next name ≡ records idx name ++ owned name (rr ∷ [])
unfolding owned or_empty
records-add_owner apex rr idx next name h =
    let (within, names, exist) = add_owner-eq-some apex rr idx next h in
    let owner = normalize rr.label in
    let now = records-or_empty next name ∙ ap (λ m. or_empty (get name m)) names in
    elim (Bool-cases (text_eq owner name)) [
      | inl t ↦
          let (to, from) = text_eq_iff owner name in
          let q : owner ≡ name = to t in
          rw t (
            now
            ∙ ap or_empty (
                ap (λ (k : Text). get k (set owner (records idx owner ++ rr ∷ []) idx.by_name))
                  (sym q)
                ∙ get-set_same owner (records idx owner ++ rr ∷ []) idx.by_name)
            ∙ ap (λ (k : Text). records idx k ++ rr ∷ []) q)
      | inr f ↦ rw f (
          now
          ∙ ap or_empty (get-set_other owner name (records idx owner ++ rr ∷ []) idx.by_name f)
          ∙ sym (records-or_empty idx name)
          ∙ sym (append-nil (records idx name)))
    ]

exists-add_owner :
    (apex : Text) (rr : ResourceRecord) (idx next : ZoneIndex)
    → add_owner apex rr idx ≡ some next
    → Closed apex idx.exists
    → (c : Closed apex next.exists) × ((n : Text)
        → (has_name next n ≡ true) ↔ ((has_name idx n ≡ true) ⊎ Above apex (normalize rr.label) n))
unfolding has_name
exists-add_owner apex rr idx next h c =
    let (within, names, exist) = add_owner-eq-some apex rr idx next h in
    rw exist (add_existing-step apex (normalize rr.label) idx.exists c)

-- An ancestor of the owner of a record of the list, up to the apex.
abbrev pub Reached : Text → List ResourceRecord → Text → Type 0
Reached apex rrs n = (rr : ResourceRecord) × Among rr rrs × Above apex (normalize rr.label) n

owned-cons :
    (name : Text) (rr : ResourceRecord) (rrs : List ResourceRecord)
    → owned name (rr ∷ []) ++ owned name rrs ≡ owned name (rr ∷ rrs)
unfolding owned
owned-cons name rr rrs = elim (Bool-cases (text_eq (normalize rr.label) name)) [
  | inl t ↦ rw t refl
  | inr f ↦ rw f refl
]

index_from-records :
    (apex : Text) (rrs : List ResourceRecord) (idx last : ZoneIndex) (name : Text)
    → index_from apex rrs idx ≡ some last
    → records last name ≡ records idx name ++ owned name rrs
unfolding index_from owned
index_from-records apex [] idx last name h =
    let same = ap (value_or idx) h in
    sym (append-nil (records last name)) ∙ ap (λ (i : ZoneIndex). records i name ++ []) (sym same)
index_from-records apex (rr ∷ rrs) idx last name h = elim (Option-cases (add_owner apex rr idx)) [
  | inl e ↦ let k = (rw (e, index_from) at h) in cc
  | inr (next, e) ↦
      index_from-records apex rrs next last name (rw (e, index_from) at h)
      ∙ ap (λ (rs : List ResourceRecord). rs ++ owned name rrs)
          (records-add_owner apex rr idx next name e)
      ∙ append_assoc (records idx name) (owned name (rr ∷ [])) (owned name rrs)
      ∙ ap (◌++◌ (records idx name)) (owned-cons name rr rrs)
]

index_from-exists :
    (apex : Text) (rrs : List ResourceRecord) (idx last : ZoneIndex)
    → index_from apex rrs idx ≡ some last
    → Closed apex idx.exists
    → (n : Text) → (has_name last n ≡ true) ↔ ((has_name idx n ≡ true) ⊎ Reached apex rrs n)
unfolding index_from
index_from-exists apex [] idx last h c n =
    let same = ap (value_or idx) h in
    (
      λ k. inl (subst (λ (i : ZoneIndex). has_name i n ≡ true) (sym same) k),
      λ w. elim w [
        | inl k ↦ subst (λ (i : ZoneIndex). has_name i n ≡ true) same k
        | inr (rr, m, a) ↦ elim m [ ]
      ],
    )
index_from-exists apex (rr ∷ rrs) idx last h c n = elim (Option-cases (add_owner apex rr idx)) [
  | inl e ↦ let k = (rw (e, index_from) at h) in cc
  | inr (next, e) ↦
      let (closed, step) = exists-add_owner apex rr idx next e c in
      let (to, from) = step n in
      let (rest, back) = index_from-exists apex rrs next last (rw (e, index_from) at h) closed n in
      (
        λ k. elim (rest k) [ inl w ↦ first (to w) | inr (r, m, a) ↦ inr (r, there m, a) ],
        λ w. elim w [ inl k ↦ back (inl (from (inl k))) | inr r ↦ later from back r ],
      )
]
  where
    first : {A : Type 0} → A ⊎ Above apex (normalize rr.label) n → A ⊎ Reached apex (rr ∷ rrs) n
    first (inl k) = inl k
    first (inr a) = inr (rr, here, a)

    later :
        {A B C : Type 0}
        → (B ⊎ Above apex (normalize rr.label) n → A)
        → (A ⊎ Reached apex rrs n → C)
        → Reached apex (rr ∷ rrs) n
        → C
    later from back (r, here, a) = back (inl (from (inr a)))
    later from back (r, there m, a) = back (inr (r, m, a))

no_names-Closed : (apex : Text) → Closed apex no_index.exists
unfolding has
no_names-Closed apex n h d = cc

-- Where every record lies within the zone, the index answers a name with the records that it owns,
-- in their order, and a name exists exactly where it is the owner of a record or an ancestor of
-- one, up to the apex: the loop over the parents, which stops at the first name that is there,
-- misses no empty non-terminal and has enough fuel.
pub index_from-has_name :
    (apex : Text) (rrs : List ResourceRecord) (idx : ZoneIndex)
    → index_from apex rrs no_index ≡ some idx
    → (name : Text)
    → (records idx name ≡ owned name rrs) × ((has_name idx name ≡ true) ↔ Reached apex rrs name)
unfolding has_name records has get
index_from-has_name apex rrs idx h name =
    let (to, from) = index_from-exists apex rrs no_index idx h (no_names-Closed apex) name in
    (
      index_from-records apex rrs no_index idx name h,
      (λ k. elim (to k) [ inl w ↦ cc | inr r ↦ r ], λ r. from (inr r)),
    )
