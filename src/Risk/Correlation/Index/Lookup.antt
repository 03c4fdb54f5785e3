-- ===== src/Risk/Correlation/Index/Lookup.antt =====
-- Lookups in the index beside scans of the evidence.
use chain_sentinel.Base.{
  String, ◌≡◌, refl, sym, ap, inl, inr, Bool, false, ◌||◌, none, some, List, [], ◌∷◌, ◌++◌,
  append-nil, append_assoc, arith, ◌==◌, eq_iff, if◌then◌else◌, Bool-cases, Option-cases, filter,
  any, mem, Dict, get, put, keys, get-put, mem-keys-put, append_assoc, append-nil, filter,
}
use chain_sentinel.Evidence.Models.{RiskEvidence}
use chain_sentinel.Risk.Correlation.Index.{
  signal_of, items_at, index_signal, index_by_signal, evidence_index, has_signal, items_with_signal,
}

-- Whether the signal of an item is `s`.
abbrev pub is_signal : String → RiskEvidence → Bool
is_signal s e = elim (signal_of e) [ none ↦ false | some t ↦ t == s ]

not_signal : (s : String) (e : RiskEvidence) → signal_of e ≡ none → is_signal s e ≡ false
not_signal s e h = rw (h, is_signal) refl

at_signal :
    (s : String) (e : RiskEvidence) (t : String) → signal_of e ≡ some t → is_signal s e ≡ (t == s)
at_signal s e t h = rw (h, is_signal) refl

items_at-put :
    (d : Dict (List RiskEvidence)) (k s : String) (items : List RiskEvidence)
    → items_at (put d k items) s ≡ (if k == s then items else items_at d s)
items_at-put d k s items = ground (arith, get-put d k s items)

items_at-index_signal :
    (e : RiskEvidence) (d : Dict (List RiskEvidence)) (s : String)
    → items_at (index_signal e d) s
      ≡ (if is_signal s e then items_at d s ++ e ∷ [] else items_at d s)
unfolding index_signal
items_at-index_signal e d s = elim (Option-cases (signal_of e)) [
  | inl none_ ↦ rw (none_, index_signal, not_signal s e none_) refl
  | inr (t, at_t) ↦ elim (Bool-cases (t == s)) [
    | inl same ↦
        let now : t ≡ s = ground (arith, eq_iff t s) in
        rw (at_t, index_signal, items_at-put, at_signal s e t at_t, same)
          (ap (λ x. items_at d x ++ e ∷ []) now)
    | inr other ↦ rw (at_t, index_signal, items_at-put, at_signal s e t at_t, other) refl
  ]
]

keys-index_signal :
    (e : RiskEvidence) (d : Dict (List RiskEvidence)) (s : String)
    → mem s (keys (index_signal e d)) ≡ (is_signal s e || mem s (keys d))
unfolding index_signal
keys-index_signal e d s = elim (Option-cases (signal_of e)) [
  | inl none_ ↦ rw (none_, index_signal, not_signal s e none_) refl
  | inr (t, at_t) ↦
      rw (at_t, index_signal, at_signal s e t at_t)
        (ground (arith, mem-keys-put d t s (items_at d t ++ e ∷ []), eq_iff t s, eq_iff s t))
]

items_at-index :
    (es : List RiskEvidence) (d : Dict (List RiskEvidence)) (s : String)
    → items_at (index_by_signal es d) s ≡ items_at d s ++ filter (is_signal s) es
unfolding index_by_signal
items_at-index [] d s = sym (append-nil (items_at d s))
items_at-index (e ∷ es) d s = elim (Bool-cases (is_signal s e)) [
  | inl same ↦
      rw (items_at-index es (index_signal e d) s, items_at-index_signal, same)
        (append_assoc (items_at d s) (e ∷ []) (filter (is_signal s) es))
  | inr other ↦ rw (items_at-index es (index_signal e d) s, items_at-index_signal, other) refl
]

keys-index :
    (es : List RiskEvidence) (d : Dict (List RiskEvidence)) (s : String)
    → mem s (keys (index_by_signal es d)) ≡ (mem s (keys d) || any (is_signal s) es)
unfolding index_by_signal
keys-index [] d s = ground arith
keys-index (e ∷ es) d s =
    ground (arith, keys-index es (index_signal e d) s, keys-index_signal e d s)

-- Looking a signal up in the index gives the items of the evidence with that signal, in their order,
-- and the index has a signal exactly if an item has it.
pub evidence_index-scan :
    (evidence : List RiskEvidence) (s : String)
    → (items_with_signal (evidence_index evidence) s ≡ filter (is_signal s) evidence)
      × (has_signal (evidence_index evidence) s ≡ any (is_signal s) evidence)
unfolding items_with_signal has_signal evidence_index get mem
evidence_index-scan evidence s = (items_at-index evidence [] s, keys-index evidence [] s)
