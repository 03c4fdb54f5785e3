-- ===== src/Change/Tests.antt =====
-- A proxy whose implementation changes, and a contract that is added.
use chain_sentinel.Base.{
  ℕ, zero, suc, String, ◌≡◌, refl, ap, Option, none, some, List, [], ◌∷◌, map, sort_by, add, get,
  put, remove, ok,
}
use Prim.Native.String.{char_at}
use chain_sentinel.History.Models.{ContractSnapshot, ProtocolSnapshot}
use chain_sentinel.Watch.Subscription.{Texts}
use chain_sentinel.Change.Models.{change_type_value}
use chain_sentinel.Change.Snapshot.{normalize_address, normalize_text, text_length}
use chain_sentinel.Change.Diff.{all_changes}
use chain_sentinel.Change.Store.{
  Codec, serialize_snapshot, deserialize_snapshot, get_baseline, no_snapshots,
}
use chain_sentinel.Change.Store.Refines.{Operation, steps, effects, nothing, Holds, store-Holds}
use chain_sentinel.Change.Store.RoundTrip.{IsNormal, deserialize-serialize}

abbrev contract : String → Option String → ContractSnapshot
contract address implementation = record {
  address = address;
  proxy_implementation = implementation;
  owner = some "0xo";
  proxy_admin = none;
  timelock = none;
  governor = none;
  treasury = none;
  bytecode_hash = some "h";
  abi_hash = none;
  metadata = [];
}

abbrev snapshot : String → ℕ → List ContractSnapshot → ProtocolSnapshot
snapshot id moment contracts = record {
  snapshot_id = id;
  watch_id = "1:0xa";
  chain_id = 1;
  root_address = "0xa";
  captured_at = moment;
  contracts = contracts;
  dependency_fingerprint = "d";
  liquidity_fingerprint = "";
  runtime_fingerprint = "r";
  metadata = [];
}

abbrev baseline : ProtocolSnapshot
baseline = snapshot "s1" 3 (contract "0xa" (some "0xi") ∷ [])

abbrev current : ProtocolSnapshot
current = snapshot "s2" 5 (contract "0xa" (some "0xj") ∷ contract "0xb" none ∷ [])

-- A moment as that many letters.
abbrev moment_text : ℕ → String
moment_text zero = ""
moment_text (suc n) = String.◌∷◌ (char_at "t" 0) (moment_text n)

abbrev texts : Texts
texts = record { digest = λ s. s; isoformat = moment_text }

abbrev codec : Codec
codec = record {
  texts = texts;
  fromisoformat = λ s. some (text_length s);
  parse_int = λ s. none;
  now = 9;
}

changes_run :
    map (λ c. change_type_value c.change_type) (all_changes baseline current)
    ≡ "implementation_changed" ∷ "owner_changed" ∷ "bytecode_changed" ∷ "governance_changed" ∷ []
unfolding all_changes sort_by put add get
changes_run = refl

normalize_runs :
    normalize_text "ABcdef0123456789abcdef0123456789abcdef01"
    ≡ "0xabcdef0123456789abcdef0123456789abcdef01"
unfolding normalize_text
normalize_runs = refl

abbrev next : Option ℕ → Option ℕ
next none = none
next (some n) = some (suc n)

moment_back : (t : ℕ) → some (text_length (moment_text t)) ≡ some t
moment_back zero = refl
moment_back (suc t) = ap next (moment_back t)

current-IsNormal : IsNormal current
unfolding normalize_text normalize_address
current-IsNormal = record {
  root = refl;
  watch = refl;
  snapshot = refl;
  contracts = (
    record {
      address = refl;
      proxy_implementation = refl;
      owner = refl;
      proxy_admin = refl;
      timelock = refl;
      governor = refl;
      treasury = refl;
    },
    (
      record {
        address = refl;
        proxy_implementation = refl;
        owner = refl;
        proxy_admin = refl;
        timelock = refl;
        governor = refl;
        treasury = refl;
      },
      tt,
    ),
  );
  sorted_ = (refl, tt);
}

deserialize-serialize_example :
    deserialize_snapshot codec (serialize_snapshot texts current) ≡ ok current
deserialize-serialize_example = deserialize-serialize codec moment_back current current-IsNormal

abbrev calls : List Operation
calls =
    Operation.baseline baseline
    ∷ Operation.current current
    ∷ Operation.delete "1:0xa"
    ∷ Operation.baseline current
    ∷ []

calls_run : get_baseline (steps no_snapshots calls) "1:0xa" ≡ some current
unfolding get_baseline get steps put remove
calls_run = refl

store-Holds_example : Holds (steps no_snapshots calls) (effects nothing calls)
store-Holds_example = store-Holds calls
