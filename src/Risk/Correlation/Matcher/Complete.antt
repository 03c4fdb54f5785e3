-- ===== src/Risk/Correlation/Matcher/Complete.antt =====
-- What the matcher reports, and what it leaves out.
use chain_sentinel.Base.{
  ◌≤◌, String, ◌≡◌, refl, sym, ◌∙◌, subst, ◌⊎◌, inl, inr, true, false, ◌||◌, some, List, [], ◌∷◌,
  ◌++◌, map, arith, eq_iff, Bool-cases, Option-cases, length, All, All-intro, sort_by, mem, add,
  mem-add, put, keys, values, ok, Distinct, Distinct-put, All-map, Distinct-sort_by_key, All-intro,
}
use chain_sentinel.Evidence.Models.{RiskEvidence}
use chain_sentinel.Risk.Correlation.{CorrelatedRiskFinding}
use chain_sentinel.Risk.Correlation.Index.{EvidenceIndex, evidence_index}
use chain_sentinel.Risk.Correlation.Registry.{
  CorrelationRuleHandler, Registry, register, register_all, handler_le, all_handlers,
}
use chain_sentinel.Risk.Correlation.Matcher.{
  same_texts, mem_texts, match_handlers, match, correlate,
}

abbrev pub fingerprints : List CorrelatedRiskFinding → List (List String)
fingerprints fs = map (λ f. f.evidence_ids) fs

-- No two lists of texts are the same.
abbrev pub DistinctTexts : List (List String) → Type 0
DistinctTexts [] = Unit
DistinctTexts (x ∷ xs) = (mem_texts x xs ≡ false) × DistinctTexts xs

-- A handler of the list returns the finding.
abbrev pub FoundBy : EvidenceIndex → List CorrelationRuleHandler → CorrelatedRiskFinding → Type 0
FoundBy index [] f = ⊥
FoundBy index (h ∷ hs) f = (h.evaluate index ≡ some f) ⊎ FoundBy index hs f

-- A handler finds nothing, or a finding over the same evidence is there.
abbrev pub Covered : EvidenceIndex → List (List String) → CorrelationRuleHandler → Type 0
Covered index reported h =
    (f : CorrelatedRiskFinding)
    → h.evaluate index ≡ some f
    → mem_texts f.evidence_ids reported ≡ true

same_texts_refl : (xs : List String) → same_texts xs xs ≡ true
same_texts_refl [] = refl
same_texts_refl (x ∷ xs) = ground (arith, same_texts_refl xs, eq_iff x x)

same_texts_sym : (xs ys : List String) → same_texts xs ys ≡ same_texts ys xs
same_texts_sym [] [] = refl
same_texts_sym [] (y ∷ ys) = refl
same_texts_sym (x ∷ xs) [] = refl
same_texts_sym (x ∷ xs) (y ∷ ys) = ground (arith, same_texts_sym xs ys, eq_iff x y, eq_iff y x)

mem_texts-append :
    (x : List String) (xs ys : List (List String))
    → mem_texts x (xs ++ ys) ≡ (mem_texts x xs || mem_texts x ys)
mem_texts-append x [] ys = refl
mem_texts-append x (y ∷ xs) ys = ground (arith, mem_texts-append x xs ys)

-- No id of a handler is among `ids`.
abbrev Unseen : List String → List CorrelationRuleHandler → Type 0
Unseen ids hs = All (λ h. mem h.definition.id ids ≡ false) hs

abbrev handler_ids : List CorrelationRuleHandler → List String
handler_ids hs = map (λ h. h.definition.id) hs

Unseen-add :
    (ids : List String) (k : String) (hs : List CorrelationRuleHandler)
    → Unseen ids hs
    → mem k (handler_ids hs) ≡ false
    → Unseen (add k ids) hs
unfolding mem
Unseen-add ids k [] u m = tt
Unseen-add ids k (h ∷ hs) u m = (
  ground (
    arith,
    mem-add h.definition.id k ids,
    u.0,
    eq_iff h.definition.id k,
    eq_iff k h.definition.id,
  ),
  Unseen-add ids k hs u.1 (ground arith),
)

pub record Matched (index : EvidenceIndex) (hs : List CorrelationRuleHandler)
    (seen : List (List String)) (fs : List CorrelatedRiskFinding) : Type 0 where
  pub sound : All (FoundBy index hs) fs
  pub distinct : DistinctTexts (fingerprints fs)
  pub fresh : All (λ f. mem_texts f.evidence_ids seen ≡ false) fs
  pub complete : All (Covered index (fingerprints fs ++ seen)) hs
  pub fewer : length fs ≤ length hs

not_reported :
    (x : List String) (seen : List (List String)) (fs : List CorrelatedRiskFinding)
    → All (λ f. mem_texts f.evidence_ids (x ∷ seen) ≡ false) fs
    → mem_texts x (fingerprints fs) ≡ false
not_reported x seen [] h = refl
not_reported x seen (f ∷ fs) h =
    ground (arith, not_reported x seen fs h.1, same_texts_sym x f.evidence_ids, h.0)

Matched-skip :
    (index : EvidenceIndex) (h : CorrelationRuleHandler) (hs : List CorrelationRuleHandler)
    (seen : List (List String)) (fs : List CorrelatedRiskFinding)
    → Matched index hs seen fs
    → Covered index (fingerprints fs ++ seen) h
    → Matched index (h ∷ hs) seen fs
Matched-skip index h hs seen fs m c = record {
  sound = All-map (FoundBy index hs) (FoundBy index (h ∷ hs)) (λ f found. inr found) fs m.sound;
  distinct = m.distinct;
  fresh = m.fresh;
  complete = (c, m.complete);
  fewer = omega (arith, m.fewer);
}

Matched-report :
    (index : EvidenceIndex) (h : CorrelationRuleHandler) (hs : List CorrelationRuleHandler)
    (seen : List (List String)) (f : CorrelatedRiskFinding) (fs : List CorrelatedRiskFinding)
    → h.evaluate index ≡ some f
    → mem_texts f.evidence_ids seen ≡ false
    → Matched index hs (f.evidence_ids ∷ seen) fs
    → Matched index (h ∷ hs) seen (f ∷ fs)
Matched-report index h hs seen f fs e new m =
    let moved : (x : List String)
        → mem_texts x (fingerprints fs ++ f.evidence_ids ∷ seen)
          ≡ mem_texts x (f.evidence_ids ∷ (fingerprints fs ++ seen)) =
      λ x. ground (
        arith,
        mem_texts-append x (fingerprints fs) (f.evidence_ids ∷ seen),
        mem_texts-append x (fingerprints fs) seen,
      ) in
    record {
      sound = (
        inl e,
        All-map (FoundBy index hs) (FoundBy index (h ∷ hs)) (λ g found. inr found) fs m.sound,
      );
      distinct = (not_reported f.evidence_ids seen fs m.fresh, m.distinct);
      fresh = (
        new,
        All-map (λ g. mem_texts g.evidence_ids (f.evidence_ids ∷ seen) ≡ false) _
            (λ g out. ground arith) fs m.fresh,
      );
      complete = (
        λ g at_g.
            let same : f ≡ g = some_inj f g (sym e ∙ at_g) in
            subst
              (λ x. mem_texts x.evidence_ids (f.evidence_ids ∷ (fingerprints fs ++ seen)) ≡ true)
              same (ground (arith, same_texts_refl f.evidence_ids)),
        All-map (Covered index (fingerprints fs ++ f.evidence_ids ∷ seen)) _
            (λ k covered g at_g. sym (moved g.evidence_ids) ∙ covered g at_g) hs m.complete,
      );
      fewer = omega (arith, m.fewer);
    }
  where
    some_inj : (a b : CorrelatedRiskFinding) → some a ≡ some b → a ≡ b
    some_inj a b same = cc

match_handlers-Matched :
    (index : EvidenceIndex) (hs : List CorrelationRuleHandler) (ids : List String)
    (seen : List (List String))
    → Unseen ids hs
    → Distinct (handler_ids hs)
    → Matched index hs seen (match_handlers index hs ids seen)
unfolding match_handlers
match_handlers-Matched index [] ids seen u d = record {
  sound = tt;
  distinct = tt;
  fresh = tt;
  complete = tt;
  fewer = omega arith;
}
match_handlers-Matched index (h ∷ hs) ids seen u d =
    let rest = match_handlers-Matched index hs ids seen u.1 d.1 in
    let fs = match_handlers index hs ids seen in
    elim (Option-cases (h.evaluate index)) [
      | inl none_ ↦
          rw (u.0, none_, match_handlers) (Matched-skip index h hs seen fs rest (λ f e. cc))
      | inr (f, e) ↦ elim (Bool-cases (mem_texts f.evidence_ids seen)) [
        | inl old ↦
            rw (u.0, e, old, match_handlers)
              (Matched-skip index h hs seen fs rest (λ g at_g.
                let same : some f ≡ some g = sym e ∙ at_g in
                ground (arith, mem_texts-append g.evidence_ids (fingerprints fs) seen)))
        | inr new ↦
            rw (u.0, e, new, match_handlers)
              (Matched-report index h hs seen f _ e new (
                match_handlers-Matched index hs (add h.definition.id ids) (f.evidence_ids ∷ seen)
                  (Unseen-add ids h.definition.id hs u.1 d.0) d.1))
      ]
    ]

-- Each handler of the registry is stored under its id.
abbrev IsKeyed : Registry → Type 0
IsKeyed d = (handler_ids (values d) ≡ keys d) × Distinct (keys d)

IsKeyed-put :
    (d : Registry) (h : CorrelationRuleHandler)
    → handler_ids (values d) ≡ keys d
    → handler_ids (values (put d h.definition.id h)) ≡ keys (put d h.definition.id h)
unfolding put
IsKeyed-put [] h same = refl
IsKeyed-put ((k, g) ∷ d) h same = ground (arith, IsKeyed-put d h, eq_iff k h.definition.id)

register_all-IsKeyed :
    (hs : List CorrelationRuleHandler) (d r : Registry)
    → IsKeyed d
    → register_all hs d ≡ ok r
    → IsKeyed r
unfolding register_all register
register_all-IsKeyed [] d r k e = subst IsKeyed (ok_inj d r e) k
  where
    ok_inj : (a b : Registry) → register_all [] a ≡ ok b → a ≡ b
    ok_inj a b same = cc
register_all-IsKeyed (h ∷ hs) d r k e = elim (Bool-cases (mem h.definition.id (keys d))) [
  | inl known ↦ absurd (ground arith)
  | inr new ↦
      register_all-IsKeyed hs (put d h.definition.id h) r
        (IsKeyed-put d h k.0, Distinct-put d h.definition.id h k.1) (ground arith)
]

-- With any registry that rules were registered in, a finding of the correlation is what a rule
-- returns for the evidence, no two findings are over the same list of evidence, and a rule that
-- finds something is left out only if a finding over the same evidence is there.
pub correlate-Matched :
    (rules : List CorrelationRuleHandler) (r : Registry) (evidence : List RiskEvidence)
    → register_all rules [] ≡ ok r
    → Matched (evidence_index evidence) (all_handlers r) [] (correlate r evidence).findings
unfolding correlate match all_handlers mem
correlate-Matched rules r evidence registered =
    let (same, distinct) = register_all-IsKeyed rules [] r (refl, tt) registered in
    match_handlers-Matched (evidence_index evidence) (sort_by handler_le (values r)) [] []
      (All-intro (λ h. mem h.definition.id [] ≡ false) (λ h. refl) (sort_by handler_le (values r)))
      (Distinct-sort_by_key (λ h. h.definition.id) handler_le (values r)
        (subst Distinct (sym same) distinct))
