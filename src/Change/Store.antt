-- ===== src/Change/Store.antt =====
-- continuous/change_detection/snapshot_store.py and snapshot_builder.py: the in-memory store, and
-- snapshots as payloads and back. The text of a moment and its parsing are parameters.
pub mod RoundTrip
pub mod Refines
use chain_sentinel.Base.{
  ℕ, String, Bool, true, false, not, Option, none, some, List, [], ◌∷◌, map, ◌==◌, eqb,
  if◌then◌else◌, text_le, sort_by, Dict, get, put, remove, Result, ok, err, ◌>>=◌, ◌>>◌, map_result,
  decimal, map_result,
}
use chain_sentinel.History.Models.{ContractSnapshot, ProtocolSnapshot}
use chain_sentinel.Watch.Subscription.{Texts, watch_id}
use chain_sentinel.Change.Models.{Error, value_error, key_error, type_error, unsupported}
use chain_sentinel.Change.Snapshot.{normalize_text, normalize_address, snapshot_id}

pub record SnapshotStore : Type 0 where
  pub baselines : Dict ProtocolSnapshot
  pub current : Dict ProtocolSnapshot

abbrev pub no_snapshots : SnapshotStore
no_snapshots = record { baselines = []; current = [] }

unfoldable pub save_baseline : SnapshotStore → ProtocolSnapshot → SnapshotStore
save_baseline store s = record store { baselines = put store.baselines s.watch_id s }

unfoldable pub save_current : SnapshotStore → ProtocolSnapshot → SnapshotStore
save_current store s = record store { current = put store.current s.watch_id s }

unfoldable pub get_baseline : SnapshotStore → String → Option ProtocolSnapshot
get_baseline store watch = get store.baselines watch

unfoldable pub get_current : SnapshotStore → String → Option ProtocolSnapshot
get_current store watch = get store.current watch

unfoldable pub delete_watch : SnapshotStore → String → SnapshotStore
delete_watch store watch = record {
  baselines = remove store.baselines watch;
  current = remove store.current watch;
}

-- The values that the payload of a contract holds, and those of a snapshot.
pub data ContractValue : Type 0 where
  text : String → ContractValue
  null : ContractValue
  mapping : Dict String → ContractValue

pub data PayloadValue : Type 0 where
  text : String → PayloadValue
  number : ℕ → PayloadValue
  null : PayloadValue
  mapping : Dict String → PayloadValue
  contracts : List (Dict ContractValue) → PayloadValue

abbrev pub text_or_null : Option String → ContractValue
text_or_null none = ContractValue.null
text_or_null (some s) = ContractValue.text s

unfoldable pub serialize_contract : ContractSnapshot → Dict ContractValue
serialize_contract c =
    ("address", ContractValue.text c.address)
    ∷ ("proxy_implementation", text_or_null c.proxy_implementation)
    ∷ ("owner", text_or_null c.owner)
    ∷ ("proxy_admin", text_or_null c.proxy_admin)
    ∷ ("timelock", text_or_null c.timelock)
    ∷ ("governor", text_or_null c.governor)
    ∷ ("treasury", text_or_null c.treasury)
    ∷ ("bytecode_hash", text_or_null c.bytecode_hash)
    ∷ ("abi_hash", text_or_null c.abi_hash)
    ∷ ("metadata", ContractValue.mapping c.metadata)
    ∷ []

unfoldable pub serialize_snapshot : Texts → ProtocolSnapshot → Dict PayloadValue
unfolding serialize_contract
serialize_snapshot texts s =
    ("snapshot_id", PayloadValue.text s.snapshot_id)
    ∷ ("watch_id", PayloadValue.text s.watch_id)
    ∷ ("chain_id", PayloadValue.number s.chain_id)
    ∷ ("root_address", PayloadValue.text s.root_address)
    ∷ ("captured_at", PayloadValue.text (texts.isoformat s.captured_at))
    ∷ ("contracts", PayloadValue.contracts (map serialize_contract s.contracts))
    ∷ ("dependency_fingerprint", PayloadValue.text s.dependency_fingerprint)
    ∷ ("liquidity_fingerprint", PayloadValue.text s.liquidity_fingerprint)
    ∷ ("runtime_fingerprint", PayloadValue.text s.runtime_fingerprint)
    ∷ ("metadata", PayloadValue.mapping s.metadata)
    ∷ []

-- `payload.get(key)` of a contract, which is a text or None
abbrev pub contract_text : Dict ContractValue → String → Result Error (Option String)
contract_text payload key = elim (get payload key) [
  | none ↦ ok none
  | some ContractValue.null ↦ ok none
  | some (ContractValue.text s) ↦ ok (some s)
  | some (ContractValue.mapping m) ↦ err (unsupported key)
]

-- `str(payload[key])`
abbrev pub contract_required : Dict ContractValue → String → Result Error String
contract_required payload key = elim (get payload key) [
  | none ↦ err (key_error key)
  | some ContractValue.null ↦ ok "None"
  | some (ContractValue.text s) ↦ ok s
  | some (ContractValue.mapping m) ↦ err (unsupported key)
]

-- `dict(payload.get("metadata") or {})`
abbrev pub contract_metadata : Dict ContractValue → Result Error (Dict String)
contract_metadata payload = elim (get payload "metadata") [
  | none ↦ ok []
  | some ContractValue.null ↦ ok []
  | some (ContractValue.text s) ↦ if s == "" then ok [] else err (value_error "metadata")
  | some (ContractValue.mapping m) ↦ ok m
]

-- `SnapshotBuilder._build_contract`
unfoldable pub build_contract : Dict ContractValue → Result Error ContractSnapshot
unfolding normalize_text normalize_address
build_contract payload = do
  address ← contract_required payload "address"
  proxy_implementation ← contract_text payload "proxy_implementation"
  owner ← contract_text payload "owner"
  proxy_admin ← contract_text payload "proxy_admin"
  timelock ← contract_text payload "timelock"
  governor ← contract_text payload "governor"
  treasury ← contract_text payload "treasury"
  bytecode_hash ← contract_text payload "bytecode_hash"
  abi_hash ← contract_text payload "abi_hash"
  metadata ← contract_metadata payload
  ok (record {
    address = normalize_text address;
    proxy_implementation = normalize_address proxy_implementation;
    owner = normalize_address owner;
    proxy_admin = normalize_address proxy_admin;
    timelock = normalize_address timelock;
    governor = normalize_address governor;
    treasury = normalize_address treasury;
    bytecode_hash = bytecode_hash;
    abi_hash = abi_hash;
    metadata = metadata;
  })

-- `datetime.fromisoformat`, `int` of a text, and the present moment.
pub record Codec : Type 0 where
  pub texts : Texts
  pub fromisoformat : String → Option ℕ
  pub parse_int : String → Option ℕ
  pub now : ℕ

abbrev pub or_raise {ℓ} : {A : Type ℓ} → Option A → String → Result Error A
or_raise none key = err (value_error key)
or_raise (some a) key = ok a

-- `str(payload.get(key, ""))`, `str(payload[key])`
abbrev pub text_of : PayloadValue → String → Result Error String
text_of (PayloadValue.text s) key = ok s
text_of (PayloadValue.number n) key = ok (decimal n)
text_of PayloadValue.null key = ok "None"
text_of _ key = err (unsupported key)

abbrev pub payload_text : Dict PayloadValue → String → Result Error String
payload_text payload key = elim (get payload key) [ none ↦ ok "" | some v ↦ text_of v key ]

abbrev pub required : Dict PayloadValue → String → Result Error PayloadValue
required payload key = elim (get payload key) [ none ↦ err (key_error key) | some v ↦ ok v ]

-- `int(payload["chain_id"])`
abbrev pub int_of : Codec → PayloadValue → Result Error ℕ
int_of codec (PayloadValue.number n) = ok n
int_of codec (PayloadValue.text s) = or_raise (codec.parse_int s) "chain_id"
int_of codec _ = err (type_error "chain_id")

abbrev pub is_truthy : PayloadValue → Bool
is_truthy (PayloadValue.text s) = not (s == "")
is_truthy (PayloadValue.number n) = not (eqb n 0)
is_truthy PayloadValue.null = false
is_truthy (PayloadValue.mapping []) = false
is_truthy (PayloadValue.mapping (e ∷ m)) = true
is_truthy (PayloadValue.contracts []) = false
is_truthy (PayloadValue.contracts (c ∷ cs)) = true

-- `str(payload.get(key) or default)`
abbrev pub text_or : Dict PayloadValue → String → String → Result Error String
text_or payload key default_ = elim (get payload key) [
  | none ↦ ok default_
  | some v ↦ if is_truthy v then text_of v key else ok default_
]

-- `_parse_datetime(payload.get("captured_at"))`
abbrev pub captured_at_of : Codec → Dict PayloadValue → Result Error ℕ
captured_at_of codec payload = elim (get payload "captured_at") [
  | none ↦ ok codec.now
  | some PayloadValue.null ↦ ok codec.now
  | some v ↦ do s ← text_of v "captured_at"; or_raise (codec.fromisoformat s) "captured_at"
]

-- `payload.get("contracts", ())`, whose items are read as dictionaries
abbrev pub contracts_of : Dict PayloadValue → Result Error (List (Dict ContractValue))
contracts_of payload = elim (get payload "contracts") [
  | none ↦ ok []
  | some (PayloadValue.contracts cs) ↦ ok cs
  | some (PayloadValue.text s) ↦ if s == "" then ok [] else err (type_error "contracts")
  | some (PayloadValue.mapping []) ↦ ok []
  | some v ↦ err (type_error "contracts")
]

abbrev pub metadata_of : Dict PayloadValue → Result Error (Dict String)
metadata_of payload = elim (get payload "metadata") [
  | none ↦ ok []
  | some (PayloadValue.mapping m) ↦ ok m
  | some (PayloadValue.text s) ↦ if s == "" then ok [] else err (value_error "metadata")
  | some (PayloadValue.number n) ↦ if eqb n 0 then ok [] else err (type_error "metadata")
  | some PayloadValue.null ↦ ok []
  | some (PayloadValue.contracts []) ↦ ok []
  | some (PayloadValue.contracts (c ∷ cs)) ↦ err (unsupported "metadata")
]

abbrev pub address_le : ContractSnapshot → ContractSnapshot → Bool
address_le a b = text_le a.address b.address

-- `SnapshotBuilder.build` without a moment of its own, which is `deserialize_snapshot`. The values
-- that it computes, in the order of the code.
unfoldable pub deserialize_snapshot : Codec → Dict PayloadValue → Result Error ProtocolSnapshot
unfolding normalize_text watch_id snapshot_id build_contract
deserialize_snapshot codec payload = do
  chain ← required payload "chain_id"
  chain_id ← int_of codec chain
  root ← required payload "root_address"
  root_text ← text_of root "root_address"
  let root_address = normalize_text root_text
  watch ← text_or payload "watch_id" (watch_id chain_id root_address)
  moment ← captured_at_of codec payload
  items ← contracts_of payload
  built ← map_result build_contract items
  snapshot ← text_or payload "snapshot_id" (snapshot_id codec.texts watch moment)
  dependency_fingerprint ← payload_text payload "dependency_fingerprint"
  liquidity_fingerprint ← payload_text payload "liquidity_fingerprint"
  runtime_fingerprint ← payload_text payload "runtime_fingerprint"
  metadata ← metadata_of payload
  ok (record {
    snapshot_id = snapshot;
    watch_id = watch;
    chain_id = chain_id;
    root_address = root_address;
    captured_at = moment;
    contracts = sort_by address_le built;
    dependency_fingerprint = dependency_fingerprint;
    liquidity_fingerprint = liquidity_fingerprint;
    runtime_fingerprint = runtime_fingerprint;
    metadata = metadata;
  })
