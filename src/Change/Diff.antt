-- ===== src/Change/Diff.antt =====
-- continuous/change_detection/diff_engine.py and change_classifier.py.
pub mod Exact
use chain_sentinel.Base.{
  String, Bool, true, false, Option, none, some, List, [], ◌∷◌, ◌++◌, ◌==◌, if◌then◌else◌, sort_by,
  sorted, add, Dict, get, keys, Result, ok, ◌>>=◌, ◌>>◌, ◌⧺◌, join, texts_le, join,
}
use chain_sentinel.Evidence.Models.{ConfidenceLevel}
use chain_sentinel.History.Models.{ContractSnapshot, ProtocolSnapshot}
use chain_sentinel.Watch.Subscription.{Texts}
use chain_sentinel.Change.Models.{ChangeType, ChangeSeverity, Error, change_type_value}
use chain_sentinel.Change.Snapshot.{contract_index, ensure_protocol_compatibility}

pub record RawChange : Type 0 where
  pub change_type : ChangeType
  pub before : Option String
  pub after : Option String
  pub affected_contracts : List String

abbrev pub same_option : Option String → Option String → Bool
same_option none none = true
same_option (some s) (some t) = s == t
same_option _ _ = false

-- `value or ""`
abbrev pub or_empty : Option String → String
or_empty none = ""
or_empty (some s) = s

-- `getattr(contract, name, None) if contract else None`
abbrev pub field_of : (ContractSnapshot → Option String) → Option ContractSnapshot → Option String
field_of name none = none
field_of name (some c) = name c

unfoldable pub governance_value : Option ContractSnapshot → Option String
governance_value none = none
governance_value (some c) =
    some ("governor=" ⧺ (or_empty c.governor ⧺ (";timelock=" ⧺ or_empty c.timelock)))

-- One comparison: the change, if the values differ.
unfoldable pub changed_value :
    ChangeType → Option String → Option String → List String → List RawChange
changed_value change_type before after affected =
    if same_option before after
    then []
    else record {
      change_type = change_type;
      before = before;
      after = after;
      affected_contracts = affected;
    }
      ∷ []

-- CONTRACT_FIELDS
abbrev pub contract_fields : List ((ContractSnapshot → Option String) × ChangeType)
contract_fields =
    (λ c. c.proxy_implementation, ChangeType.implementation_changed)
    ∷ (λ c. c.owner, ChangeType.owner_changed)
    ∷ (λ c. c.proxy_admin, ChangeType.proxy_admin_changed)
    ∷ (λ c. c.bytecode_hash, ChangeType.bytecode_changed)
    ∷ (λ c. c.treasury, ChangeType.treasury_changed)
    ∷ []

unfoldable pub diff_fields :
    List ((ContractSnapshot → Option String) × ChangeType)
    → Option ContractSnapshot
    → Option ContractSnapshot
    → String
    → List RawChange
unfolding changed_value
diff_fields [] before after address = []
diff_fields ((name, change_type) ∷ fields) before after address =
    changed_value change_type (field_of name before) (field_of name after) (address ∷ [])
    ++ diff_fields fields before after address

unfoldable pub diff_contract :
    Option ContractSnapshot → Option ContractSnapshot → String → List RawChange
unfolding diff_fields governance_value
diff_contract before after address =
    diff_fields contract_fields before after address
    ++ changed_value ChangeType.governance_changed (governance_value before)
        (governance_value after) (address ∷ [])

-- `value or None`
abbrev pub or_none : String → Option String
or_none s = if s == "" then none else some s

unfoldable pub diff_protocol_field : ChangeType → String → String → List String → List RawChange
diff_protocol_field change_type before after addresses =
    if before == after
    then []
    else record {
      change_type = change_type;
      before = or_none before;
      after = or_none after;
      affected_contracts = addresses;
    }
      ∷ []

-- The keys of both dictionaries, each once.
unfoldable pub union : List String → List String → List String
union [] s = s
union (x ∷ xs) s = union xs (add x s)

unfoldable pub diff_contracts :
    Dict ContractSnapshot → Dict ContractSnapshot → List String → List RawChange
unfolding diff_contract
diff_contracts before after [] = []
diff_contracts before after (a ∷ addresses) =
    diff_contract (get before a) (get after a) a ++ diff_contracts before after addresses

abbrev pub change_key : RawChange → List String
change_key c =
    change_type_value c.change_type
    ∷ join "," c.affected_contracts
    ∷ or_empty c.before
    ∷ or_empty c.after
    ∷ []

-- The addresses of both snapshots, and the differences before they are sorted.
unfoldable pub all_addresses : ProtocolSnapshot → ProtocolSnapshot → List String
unfolding union contract_index
all_addresses baseline current = sorted (
    union (keys (contract_index current.contracts))
      (union (keys (contract_index baseline.contracts)) []))

unfoldable pub all_changes : ProtocolSnapshot → ProtocolSnapshot → List RawChange
unfolding all_addresses diff_contracts diff_protocol_field contract_index
all_changes baseline current =
    let addresses = all_addresses baseline current in
    diff_contracts (contract_index baseline.contracts) (contract_index current.contracts) addresses
    ++ (diff_protocol_field ChangeType.dependency_changed baseline.dependency_fingerprint
          current.dependency_fingerprint addresses
        ++ (diff_protocol_field ChangeType.liquidity_changed baseline.liquidity_fingerprint
              current.liquidity_fingerprint addresses
            ++ diff_protocol_field ChangeType.runtime_fingerprint_changed
                baseline.runtime_fingerprint current.runtime_fingerprint addresses))

unfoldable pub diff : ProtocolSnapshot → ProtocolSnapshot → Result Error (List RawChange)
unfolding all_changes ensure_protocol_compatibility
diff baseline current = do
  _ ← ensure_protocol_compatibility baseline current
  ok (sort_by (λ a b. texts_le (change_key a) (change_key b)) (all_changes baseline current))

unfoldable pub change_event_id :
    Texts → String → ChangeType → Option String → Option String → List String → String
change_event_id texts watch_id change_type before after affected_contracts =
    watch_id
    ⧺ (":"
        ⧺ (change_type_value change_type
            ⧺ (":"
                ⧺ texts.digest (
                    join "|" (
                      watch_id
                      ∷ change_type_value change_type
                      ∷ or_empty before
                      ∷ or_empty after
                      ∷ join "," affected_contracts
                      ∷ [])))))

-- DEFAULT_SEVERITY and DEFAULT_CONFIDENCE, which have every key
unfoldable pub default_severity : ChangeType → ChangeSeverity
default_severity ChangeType.implementation_changed = ChangeSeverity.critical
default_severity ChangeType.owner_changed = ChangeSeverity.high
default_severity ChangeType.proxy_admin_changed = ChangeSeverity.critical
default_severity ChangeType.governance_changed = ChangeSeverity.high
default_severity ChangeType.liquidity_changed = ChangeSeverity.medium
default_severity ChangeType.treasury_changed = ChangeSeverity.high
default_severity ChangeType.bytecode_changed = ChangeSeverity.high
default_severity ChangeType.dependency_changed = ChangeSeverity.medium
default_severity ChangeType.runtime_fingerprint_changed = ChangeSeverity.medium

unfoldable pub default_confidence : ChangeSeverity → ConfidenceLevel
default_confidence ChangeSeverity.medium = ConfidenceLevel.medium
default_confidence _ = ConfidenceLevel.high

unfoldable pub classify : RawChange → ChangeSeverity × ConfidenceLevel
unfolding default_severity default_confidence
classify change =
    let severity = default_severity change.change_type in (severity, default_confidence severity)
