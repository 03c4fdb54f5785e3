-- ===== src/Change/Snapshot.antt =====
-- continuous/change_detection/snapshot.py.
use chain_sentinel.Base.{
  ℕ, suc, String, not, Option, none, some, List, [], ◌∷◌, map, ◌==◌, eqb, if◌then◌else◌, lower,
  sorted, Dict, put, Result, ok, err, ◌⧺◌, starts_with, starts_with,
}
use chain_sentinel.History.Models.{ContractSnapshot, ProtocolSnapshot}
use chain_sentinel.Watch.Subscription.{Texts}
use chain_sentinel.Change.Models.{Error, value_error}

-- `s.removeprefix("0x")`
abbrev pub drop_two : String → String
drop_two (String.◌∷◌ c (String.◌∷◌ d s)) = s
drop_two s = s

abbrev pub text_length : String → ℕ
text_length String.[] = 0
text_length (String.◌∷◌ c s) = suc (text_length s)

unfoldable pub remove_0x : String → String
unfolding starts_with
remove_0x s = if starts_with "0x" s then drop_two s else s

unfoldable pub normalize_text : String → String
unfolding lower remove_0x
normalize_text value =
    let normalized = remove_0x (lower value) in
    if not (eqb (text_length normalized) 40) then lower value else "0x" ⧺ normalized

unfoldable pub normalize_address : Option String → Option String
unfolding normalize_text
normalize_address none = none
normalize_address (some value) = some (normalize_text value)

-- `{item.address.lower(): item for item in contracts}`
unfoldable pub index_contracts :
    List ContractSnapshot → Dict ContractSnapshot → Dict ContractSnapshot
unfolding lower
index_contracts [] d = d
index_contracts (c ∷ cs) d = index_contracts cs (put d (lower c.address) c)

unfoldable pub contract_index : List ContractSnapshot → Dict ContractSnapshot
unfolding index_contracts
contract_index contracts = index_contracts contracts []

unfoldable pub contract_addresses : List ContractSnapshot → List String
unfolding lower
contract_addresses contracts = sorted (map (λ c. lower c.address) contracts)

-- The first check that fails raises.
unfoldable pub ensure_protocol_compatibility :
    ProtocolSnapshot → ProtocolSnapshot → Result Error (Unit {0})
unfolding lower
ensure_protocol_compatibility baseline current =
    if not (baseline.watch_id == current.watch_id)
    then err (value_error "baseline and current snapshots must share the same watch_id")
    else if not (eqb baseline.chain_id current.chain_id)
    then err (value_error "baseline and current snapshots must share the same chain_id")
    else if not (lower baseline.root_address == lower current.root_address)
    then err (value_error "baseline and current snapshots must share the same root_address")
    else ok tt

unfoldable pub snapshot_id : Texts → String → ℕ → String
snapshot_id texts watch_id captured_at =
    watch_id ⧺ (":snapshot:" ⧺ texts.digest (watch_id ⧺ ("|" ⧺ texts.isoformat captured_at)))
