-- ===== src/Risk/Evidence/Merged.antt =====
-- The items that merging keeps.
use chain_sentinel.Base.{
  String, ◌≡◌, refl, sym, ◌∙◌, subst, inl, inr, true, false, ◌||◌, Option, none, some, List, [],
  ◌∷◌, ◌++◌, map, append-nil, append_assoc, arith, ◌==◌, eq_iff, if◌then◌else◌, Bool-cases, mem,
  add, mem-add, Distinct, append_assoc, append-nil,
}
use chain_sentinel.Evidence.Models.{RiskEvidence}
use chain_sentinel.Risk.Evidence.{merge_group, merge_groups, merge_evidence}

abbrev pub evidence_ids : List RiskEvidence → List String
evidence_ids es = map (λ e. e.id) es

-- The first item with an id.
abbrev pub first_with : String → List RiskEvidence → Option RiskEvidence
first_with k [] = none
first_with k (e ∷ es) = if e.id == k then some e else first_with k es

abbrev pub concat : List (List RiskEvidence) → List RiskEvidence
concat [] = []
concat (es ∷ groups) = es ++ concat groups

first_with-append :
    (k : String) (xs ys : List RiskEvidence)
    → first_with k (xs ++ ys)
      ≡ (if mem k (evidence_ids xs) then first_with k xs else first_with k ys)
unfolding mem
first_with-append k [] ys = refl
first_with-append k (x ∷ xs) ys =
    ground (arith, first_with-append k xs ys, eq_iff x.id k, eq_iff k x.id)

ids-append :
    (xs ys : List RiskEvidence) (k : String)
    → mem k (evidence_ids (xs ++ ys)) ≡ (mem k (evidence_ids xs) || mem k (evidence_ids ys))
unfolding mem
ids-append [] ys k = refl
ids-append (x ∷ xs) ys k = ground (arith, ids-append xs ys k)

ids-snoc-Distinct :
    (xs : List RiskEvidence) (x : RiskEvidence)
    → Distinct (evidence_ids xs)
    → mem x.id (evidence_ids xs) ≡ false
    → Distinct (evidence_ids (xs ++ x ∷ []))
unfolding mem
ids-snoc-Distinct [] x d m = (refl, tt)
ids-snoc-Distinct (y ∷ xs) x d m = (
  ground (arith, ids-append xs (x ∷ []) y.id, eq_iff x.id y.id, eq_iff y.id x.id),
  ids-snoc-Distinct xs x d.1 (ground arith),
)

-- What is merged of the items `read` so far.
pub record IsMerged (read merged : List RiskEvidence) (seen : List String) : Type 0 where
  pub known : (k : String) → mem k seen ≡ mem k (evidence_ids merged)
  pub exact : (k : String) → mem k (evidence_ids merged) ≡ mem k (evidence_ids read)
  pub first : (k : String) → first_with k merged ≡ first_with k read
  pub distinct : Distinct (evidence_ids merged)

IsMerged-skip :
    (read merged : List RiskEvidence) (seen : List String) (e : RiskEvidence)
    → IsMerged read merged seen
    → mem e.id seen ≡ true
    → IsMerged (read ++ e ∷ []) merged seen
unfolding mem
IsMerged-skip read merged seen e i old =
    let there = sym (i.exact e.id) ∙ sym (i.known e.id) ∙ old in
    record {
      known = i.known;
      exact = λ k. ground (arith, i.exact k, ids-append read (e ∷ []) k, eq_iff k e.id, there);
      first = λ k. ground (
        arith,
        i.first k,
        first_with-append k read (e ∷ []),
        eq_iff e.id k,
        there,
        none_of k read,
      );
      distinct = i.distinct;
    }
  where
    none_of :
        (k : String) (xs : List RiskEvidence)
        → mem k (evidence_ids xs) ≡ false
        → first_with k xs ≡ none
    none_of k [] m = refl
    none_of k (x ∷ xs) m = ground (arith, none_of k xs, eq_iff x.id k, eq_iff k x.id)

IsMerged-take :
    (read merged : List RiskEvidence) (seen : List String) (e : RiskEvidence)
    → IsMerged read merged seen
    → mem e.id seen ≡ false
    → IsMerged (read ++ e ∷ []) (merged ++ e ∷ []) (add e.id seen)
unfolding mem
IsMerged-take read merged seen e i new = record {
  known = λ k. ground (arith, i.known k, ids-append merged (e ∷ []) k, mem-add k e.id seen);
  exact = λ k. ground (arith, i.exact k, ids-append merged (e ∷ []) k, ids-append read (e ∷ []) k);
  first = λ k. ground (
    arith,
    i.first k,
    i.exact k,
    first_with-append k read (e ∷ []),
    first_with-append k merged (e ∷ []),
  );
  distinct = ids-snoc-Distinct merged e i.distinct (sym (i.known e.id) ∙ new);
}

merge_group-IsMerged :
    (group read merged : List RiskEvidence) (seen : List String)
    → IsMerged read merged seen
    → IsMerged (read ++ group) (merge_group group seen merged).1 (merge_group group seen merged).0
unfolding merge_group
merge_group-IsMerged [] read merged seen i =
    subst (λ r. IsMerged r merged seen) (sym (append-nil read)) i
merge_group-IsMerged (e ∷ group) read merged seen i =
    let shift = append_assoc read (e ∷ []) group in
    elim (Bool-cases (mem e.id seen)) [
      | inl old ↦
          rw (old, merge_group)
            (subst
              (λ r. IsMerged r (merge_group group seen merged).1 (merge_group group seen merged).0)
              shift
              (merge_group-IsMerged group (read ++ e ∷ []) merged seen
                (IsMerged-skip read merged seen e i old)))
      | inr new ↦
          let rest = merge_group group (add e.id seen) (merged ++ e ∷ []) in
          rw (new, merge_group)
            (subst (λ r. IsMerged r rest.1 rest.0) shift
              (merge_group-IsMerged group (read ++ e ∷ []) (merged ++ e ∷ []) (add e.id seen)
                (IsMerged-take read merged seen e i new)))
    ]

merge_groups-IsMerged :
    (groups : List (List RiskEvidence)) (read merged : List RiskEvidence) (seen : List String)
    → IsMerged read merged seen
    → (last : List String) × IsMerged (read ++ concat groups) (merge_groups groups seen merged) last
unfolding merge_groups
merge_groups-IsMerged [] read merged seen i =
    (seen, subst (λ r. IsMerged r merged seen) (sym (append-nil read)) i)
merge_groups-IsMerged (group ∷ groups) read merged seen i =
    let (last, j) =
      merge_groups-IsMerged groups (read ++ group) _ _
        (merge_group-IsMerged group read merged seen i) in
    (
      last,
      subst (λ r. IsMerged r (merge_groups (group ∷ groups) seen merged) last)
          (append_assoc read group (concat groups)) j,
    )

-- Merging groups of evidence keeps exactly their ids, each once, and of each id the item that comes
-- first in the groups.
pub merge_evidence-first :
    (groups : List (List RiskEvidence))
    → Distinct (evidence_ids (merge_evidence groups))
      × ((k : String)
          → mem k (evidence_ids (merge_evidence groups)) ≡ mem k (evidence_ids (concat groups)))
      × ((k : String) → first_with k (merge_evidence groups) ≡ first_with k (concat groups))
unfolding merge_evidence mem
merge_evidence-first groups =
    let (last, i) =
      merge_groups-IsMerged groups [] [] []
        (record { known = λ k. refl; exact = λ k. refl; first = λ k. refl; distinct = tt }) in
    (i.distinct, i.exact, i.first)
