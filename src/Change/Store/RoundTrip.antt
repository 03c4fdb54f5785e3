-- ===== src/Change/Store/RoundTrip.antt =====
-- A snapshot as a payload and back.
use chain_sentinel.Base.{
  ℕ, String, ◌≡◌, refl, true, false, Option, none, some, List, [], ◌∷◌, map, ◌==◌, All,
  insert_sorted, sort_by, Dict, get, ok, map_result, insert_sorted, map_result,
}
use chain_sentinel.History.Models.{ContractSnapshot, ProtocolSnapshot}
use chain_sentinel.Change.Snapshot.{normalize_text, normalize_address}
use chain_sentinel.Change.Store.{
  ContractValue, contract_text, serialize_contract, serialize_snapshot, text_or_null,
  build_contract, Codec, address_le, deserialize_snapshot,
}

-- What the builder makes of every contract: each address is normalized.
pub record IsNormalContract (c : ContractSnapshot) : Type 0 where
  pub address : normalize_text c.address ≡ c.address
  pub proxy_implementation : normalize_address c.proxy_implementation ≡ c.proxy_implementation
  pub owner : normalize_address c.owner ≡ c.owner
  pub proxy_admin : normalize_address c.proxy_admin ≡ c.proxy_admin
  pub timelock : normalize_address c.timelock ≡ c.timelock
  pub governor : normalize_address c.governor ≡ c.governor
  pub treasury : normalize_address c.treasury ≡ c.treasury

-- The contracts by address.
abbrev pub IsSorted : List ContractSnapshot → Type 0
IsSorted [] = Unit
IsSorted (a ∷ []) = Unit
IsSorted (a ∷ b ∷ cs) = (address_le a b ≡ true) × IsSorted (b ∷ cs)

pub record IsNormal (s : ProtocolSnapshot) : Type 0 where
  pub root : normalize_text s.root_address ≡ s.root_address
  pub watch : (s.watch_id == "") ≡ false
  pub snapshot : (s.snapshot_id == "") ≡ false
  pub contracts : All IsNormalContract s.contracts
  pub sorted_ : IsSorted s.contracts

sort_by-IsSorted : (cs : List ContractSnapshot) → IsSorted cs → sort_by address_le cs ≡ cs
unfolding sort_by insert_sorted
sort_by-IsSorted [] h = refl
sort_by-IsSorted (a ∷ []) h = refl
sort_by-IsSorted (a ∷ b ∷ cs) h = rw (sort_by-IsSorted (b ∷ cs) h.1, h.0) refl

-- Reading back the value of an optional text.
read_back :
    (payload : Dict ContractValue) (key : String) (o : Option String)
    → get payload key ≡ some (text_or_null o)
    → contract_text payload key ≡ ok o
read_back payload key none h = rw (h, contract_text) refl
read_back payload key (some s) h = rw (h, contract_text) refl

serialize_contract-back :
    (c : ContractSnapshot) → IsNormalContract c → build_contract (serialize_contract c) ≡ ok c
unfolding build_contract serialize_contract get
serialize_contract-back c n =
    let payload = serialize_contract c in
    rw
      (
        read_back payload "proxy_implementation" c.proxy_implementation refl,
        read_back payload "owner" c.owner refl,
        read_back payload "proxy_admin" c.proxy_admin refl,
        read_back payload "timelock" c.timelock refl,
        read_back payload "governor" c.governor refl,
        read_back payload "treasury" c.treasury refl,
        read_back payload "bytecode_hash" c.bytecode_hash refl,
        read_back payload "abi_hash" c.abi_hash refl,
        n.address,
        n.proxy_implementation,
        n.owner,
        n.proxy_admin,
        n.timelock,
        n.governor,
        n.treasury,
      )
      refl

contracts-back :
    (cs : List ContractSnapshot)
    → All IsNormalContract cs
    → map_result build_contract (map serialize_contract cs) ≡ ok cs
unfolding map_result
contracts-back [] h = refl
contracts-back (c ∷ cs) h = rw (serialize_contract-back c h.0, contracts-back cs h.1) refl

-- Where the text of a moment is read back as the moment, a snapshot with ids, with normalized
-- addresses and its contracts in the order of their addresses, is read back from its payload as it
-- was.
pub deserialize-serialize :
    (codec : Codec)
    → ((t : ℕ) → codec.fromisoformat (codec.texts.isoformat t) ≡ some t)
    → (s : ProtocolSnapshot) → IsNormal s
    → deserialize_snapshot codec (serialize_snapshot codec.texts s) ≡ ok s
unfolding deserialize_snapshot serialize_snapshot get
deserialize-serialize codec inverse s n =
    rw
      (
        n.watch,
        inverse s.captured_at,
        contracts-back s.contracts n.contracts,
        n.snapshot,
        n.root,
        sort_by-IsSorted s.contracts n.sorted_,
      )
      refl
