-- ===== src/Change/Diff/Exact.antt =====
-- Which differences the diff of two snapshots finds.
use chain_sentinel.Base.{
  String, ◌≡◌, refl, sym, ap, ◌∙◌, subst, ◌↔◌, inl, inr, Bool, true, false, ◌||◌, Option, none,
  some, List, [], ◌∷◌, ◌++◌, arith, ◌==◌, eq_iff, Bool-cases, Option-cases, All, All-intro, sorted,
  mem, add, mem-add, mem-sorted, Dict, get, keys, get-mem, mem-get, All-intro,
}
use chain_sentinel.History.Models.{ContractSnapshot, ProtocolSnapshot}
use chain_sentinel.Change.Models.{ChangeType}
use chain_sentinel.Change.Snapshot.{contract_index}
use chain_sentinel.Change.Diff.{
  RawChange, same_option, field_of, governance_value, changed_value, contract_fields, diff_fields,
  diff_contract, diff_protocol_field, union, diff_contracts, all_addresses, all_changes,
}

-- What the diff compares of two contracts, either of which may be missing.
pub record SameContract (before after : Option ContractSnapshot) : Type 0 where
  pub implementation :
      field_of (λ c. c.proxy_implementation) before ≡ field_of (λ c. c.proxy_implementation) after
  pub owner : field_of (λ c. c.owner) before ≡ field_of (λ c. c.owner) after
  pub proxy_admin : field_of (λ c. c.proxy_admin) before ≡ field_of (λ c. c.proxy_admin) after
  pub bytecode : field_of (λ c. c.bytecode_hash) before ≡ field_of (λ c. c.bytecode_hash) after
  pub treasury : field_of (λ c. c.treasury) before ≡ field_of (λ c. c.treasury) after
  pub governance : governance_value before ≡ governance_value after

pub record SameState (baseline current : ProtocolSnapshot) : Type 0 where
  pub contracts :
      (a : String)
      → SameContract
          (get (contract_index baseline.contracts) a)
          (get (contract_index current.contracts) a)
  pub dependency : baseline.dependency_fingerprint ≡ current.dependency_fingerprint
  pub liquidity : baseline.liquidity_fingerprint ≡ current.liquidity_fingerprint
  pub runtime : baseline.runtime_fingerprint ≡ current.runtime_fingerprint

same_option_lem : (s t : Option String) → (same_option s t ≡ true) ↔ (s ≡ t)
same_option_lem none none = (λ h. refl, λ h. refl)
same_option_lem none (some t) = (λ h. cc, λ h. cc)
same_option_lem (some s) none = (λ h. cc, λ h. cc)
same_option_lem (some s) (some t) =
    (λ h. ap some (ground (arith, eq_iff s t)), λ h. ground (arith, eq_iff s t))

append-nil_lem : (xs ys : List RawChange) → (xs ++ ys ≡ []) ↔ ((xs ≡ []) × (ys ≡ []))
append-nil_lem [] ys = (λ h. (refl, h), λ h. h.1)
append-nil_lem (x ∷ xs) ys = (λ h. cc, λ h. cc)

changed_value-nil :
    (change_type : ChangeType) (before after : Option String) (affected : List String)
    → (changed_value change_type before after affected ≡ []) ↔ (before ≡ after)
unfolding changed_value
changed_value-nil change_type before after affected =
    let same = same_option_lem before after in
    elim (Bool-cases (same_option before after)) [
      | inl e ↦ rw (e, changed_value) (λ h. same.0 e, λ h. refl)
      | inr e ↦ rw (e, changed_value) (λ h. cc, λ h. absurd (ground (arith, same.1 h)))
    ]

diff_protocol_field-nil :
    (change_type : ChangeType) (before after : String) (addresses : List String)
    → (diff_protocol_field change_type before after addresses ≡ []) ↔ (before ≡ after)
unfolding diff_protocol_field
diff_protocol_field-nil change_type before after addresses = elim (Bool-cases (before == after)) [
  | inl e ↦ rw (e, diff_protocol_field) (λ h. ground (arith, eq_iff before after), λ h. refl)
  | inr e ↦ rw (e, diff_protocol_field) (λ h. cc, λ h. absurd (ground (arith, eq_iff before after)))
]

diff_fields-nil :
    (fields : List ((ContractSnapshot → Option String) × ChangeType))
    (before after : Option ContractSnapshot) (a : String)
    → (diff_fields fields before after a ≡ [])
      ↔ All (λ f. field_of f.0 before ≡ field_of f.0 after) fields
unfolding diff_fields
diff_fields-nil [] before after a = (λ h. tt, λ h. refl)
diff_fields-nil ((name, change_type) ∷ fields) before after a =
    let here =
      changed_value-nil change_type (field_of name before) (field_of name after) (a ∷ []) in
    let rest = diff_fields-nil fields before after a in
    let both =
      append-nil_lem
        (changed_value change_type (field_of name before) (field_of name after) (a ∷ []))
        (diff_fields fields before after a) in
    (λ h. (here.0 (both.0 h).0, rest.0 (both.0 h).1), λ h. both.1 (here.1 h.0, rest.1 h.1))

diff_contract-nil :
    (before after : Option ContractSnapshot) (a : String)
    → (diff_contract before after a ≡ []) ↔ SameContract before after
unfolding diff_contract
diff_contract-nil before after a =
    let fields = diff_fields-nil contract_fields before after a in
    let governance =
      changed_value-nil ChangeType.governance_changed (governance_value before)
        (governance_value after) (a ∷ []) in
    let both = append-nil_lem (diff_fields contract_fields before after a) (
      changed_value ChangeType.governance_changed (governance_value before) (governance_value after)
        (a ∷ [])) in
    (
      λ h.
          let all_same = fields.0 (both.0 h).0 in
          record {
            implementation = all_same.0;
            owner = all_same.1.0;
            proxy_admin = all_same.1.1.0;
            bytecode = all_same.1.1.1.0;
            treasury = all_same.1.1.1.1.0;
            governance = governance.0 (both.0 h).1;
          },
      λ s. both.1 (
        fields.1 (s.implementation, (s.owner, (s.proxy_admin, (s.bytecode, (s.treasury, tt))))),
        governance.1 s.governance,
      ),
    )

diff_contracts-nil :
    (before after : Dict ContractSnapshot) (addresses : List String)
    → (diff_contracts before after addresses ≡ [])
      ↔ All (λ a. SameContract (get before a) (get after a)) addresses
unfolding diff_contracts
diff_contracts-nil before after [] = (λ h. tt, λ h. refl)
diff_contracts-nil before after (a ∷ addresses) =
    let here = diff_contract-nil (get before a) (get after a) a in
    let rest = diff_contracts-nil before after addresses in
    let both =
      append-nil_lem (diff_contract (get before a) (get after a) a)
        (diff_contracts before after addresses) in
    (λ h. (here.0 (both.0 h).0, rest.0 (both.0 h).1), λ h. both.1 (here.1 h.0, rest.1 h.1))

mem-union : (xs s : List String) (a : String) → mem a (union xs s) ≡ (mem a xs || mem a s)
unfolding union mem
mem-union [] s a = refl
mem-union (x ∷ xs) s a = ground (arith, mem-union xs (add x s) a, mem-add a x s)

All-mem : (P : String → Type 0) (xs : List String) → All P xs → (a : String) → mem a xs ≡ true → P a
unfolding mem
All-mem P [] h a m = cc
All-mem P (x ∷ xs) h a m = elim (Bool-cases (a == x)) [
  | inl e ↦ let now : x ≡ a = ground (arith, eq_iff a x) in subst P now h.0
  | inr e ↦ All-mem P xs h.1 a (ground arith)
]

absent : (d : Dict ContractSnapshot) (a : String) → mem a (keys d) ≡ false → get d a ≡ none
absent d a out = elim (Option-cases (get d a)) [
  | inl e ↦ e
  | inr (c, e) ↦ absurd (ground (arith, mem-get d a c e))
]

SameContract-none : SameContract none none
unfolding governance_value
SameContract-none = record {
  implementation = refl;
  owner = refl;
  proxy_admin = refl;
  bytecode = refl;
  treasury = refl;
  governance = refl;
}

-- An address in neither snapshot has nothing to compare.
everywhere :
    (baseline current : ProtocolSnapshot)
    → All
        (λ a.
          SameContract
            (get (contract_index baseline.contracts) a)
            (get (contract_index current.contracts) a))
        (all_addresses baseline current)
    → (a : String)
    → SameContract
        (get (contract_index baseline.contracts) a)
        (get (contract_index current.contracts) a)
unfolding all_addresses mem
everywhere baseline current h a =
    let old = contract_index baseline.contracts in
    let new = contract_index current.contracts in
    let listed = union (keys new) (union (keys old) []) in
    let known : mem a (sorted listed) ≡ (mem a (keys new) || mem a (keys old)) = ground (
      arith,
      mem-sorted a listed,
      mem-union (keys new) (union (keys old) []) a,
      mem-union (keys old) [] a,
    ) in
    elim (Bool-cases (mem a (sorted listed))) [
      | inl e ↦ All-mem _ (sorted listed) h a e
      | inr e ↦ rw (absent old a (ground arith), absent new a (ground arith)) SameContract-none
    ]

pub all_changes-SameState :
    (baseline current : ProtocolSnapshot)
    → (all_changes baseline current ≡ []) ↔ SameState baseline current
unfolding all_changes
all_changes-SameState baseline current =
    let addresses = all_addresses baseline current in
    let old = contract_index baseline.contracts in
    let new = contract_index current.contracts in
    let field : ChangeType → (ProtocolSnapshot → String) → List RawChange =
      λ t name. diff_protocol_field t (name baseline) (name current) addresses in
    let cs = diff_contracts old new addresses in
    let ds = field ChangeType.dependency_changed (λ s. s.dependency_fingerprint) in
    let ls = field ChangeType.liquidity_changed (λ s. s.liquidity_fingerprint) in
    let rs = field ChangeType.runtime_fingerprint_changed (λ s. s.runtime_fingerprint) in
    let contracts = diff_contracts-nil old new addresses in
    let one : (t : ChangeType) (name : ProtocolSnapshot → String)
        → (field t name ≡ []) ↔ (name baseline ≡ name current) =
      λ t name. diff_protocol_field-nil t (name baseline) (name current) addresses in
    let dependency = one ChangeType.dependency_changed (λ s. s.dependency_fingerprint) in
    let liquidity = one ChangeType.liquidity_changed (λ s. s.liquidity_fingerprint) in
    let runtime = one ChangeType.runtime_fingerprint_changed (λ s. s.runtime_fingerprint) in
    let first = append-nil_lem cs (ds ++ (ls ++ rs)) in
    let second = append-nil_lem ds (ls ++ rs) in
    let third = append-nil_lem ls rs in
    (
      λ h.
          let fields = second.0 (first.0 h).1 in
          let last = third.0 fields.1 in
          record {
            contracts = everywhere baseline current (contracts.0 (first.0 h).0);
            dependency = dependency.0 fields.0;
            liquidity = liquidity.0 last.0;
            runtime = runtime.0 last.1;
          },
      λ s. first.1 (
        contracts.1 (All-intro _ s.contracts addresses),
        second.1
            (dependency.1 s.dependency, third.1 (liquidity.1 s.liquidity, runtime.1 s.runtime)),
      ),
    )

abbrev is_some : Option ContractSnapshot → Bool
is_some none = false
is_some (some c) = true

-- Snapshots in the same state have the same contracts: one that is added or removed is a change,
-- whatever is known of it.
pub SameState-addresses :
    (baseline current : ProtocolSnapshot)
    → SameState baseline current
    → (a : String)
    → mem a (keys (contract_index baseline.contracts))
      ≡ mem a (keys (contract_index current.contracts))
unfolding governance_value
SameState-addresses baseline current s a =
    let old = contract_index baseline.contracts in
    let new = contract_index current.contracts in
    present_lem (get old a) (get new a) (s.contracts a).governance (mem a (keys old))
      (mem a (keys new)) (listed old) (listed new)
  where
    listed : (d : Dict ContractSnapshot) → mem a (keys d) ≡ is_some (get d a)
    listed d = elim (Option-cases (get d a)) [
      | inl e ↦ rw e (elim (Bool-cases (mem a (keys d))) [
        | inl m ↦ let (c, f) = get-mem d a m in cc
        | inr m ↦ m
      ])
      | inr (c, e) ↦ rw e (mem-get d a c e)
    ]

    present_lem :
        (before after : Option ContractSnapshot)
        → governance_value before ≡ governance_value after
        → (m n : Bool) → m ≡ is_some before
        → n ≡ is_some after
        → m ≡ n
    present_lem none none g m n p q = p ∙ sym q
    present_lem none (some c) g m n p q = cc
    present_lem (some b) none g m n p q = cc
    present_lem (some b) (some c) g m n p q = p ∙ sym q
