-- ===== src/Watch/Subscription.antt =====
-- continuous/protocol_subscription.py. The digest of a text and the text of a moment are
-- parameters: the code calls hashlib and datetime for them.
use chain_sentinel.Base.{
  ℕ, String, Option, none, some, [], ◌∷◌, ◌==◌, if◌then◌else◌, lower, Dict, put, ◌⧺◌, decimal,
}
use chain_sentinel.Watch.Models.{
  WatchStatus, WatchConfiguration, WatchedProtocol, WatchSubscription,
}

-- `hashlib.sha256(text.encode("utf-8")).hexdigest()[:16]` and `moment.isoformat()`
pub record Texts : Type 0 where
  pub digest : String → String
  pub isoformat : ℕ → String

unfoldable pub watch_id : ℕ → String → String
unfolding lower
watch_id chain_id root_address = decimal chain_id ⧺ ":" ⧺ lower root_address

unfoldable pub build_watched_protocol : ℕ → String → String → ℕ → Dict String → WatchedProtocol
unfolding watch_id
build_watched_protocol chain_id root_address protocol_name registered_at metadata = record {
  watch_id = watch_id chain_id root_address;
  chain_id = chain_id;
  root_address = lower root_address;
  protocol_name = protocol_name;
  registered_at = registered_at;
  metadata = metadata;
}

-- With both timestamps given, as its one caller does.
unfoldable pub build_subscription :
    WatchedProtocol
    → WatchConfiguration
    → WatchStatus
    → Option (Dict String)
    → (created_at updated_at : ℕ) → WatchSubscription
build_subscription protocol configuration status baseline_scan created_at updated_at = record {
  subscription_id = protocol.watch_id;
  protocol = protocol;
  configuration = configuration;
  status = status;
  baseline_scan = baseline_scan;
  last_execution_at = none;
  next_execution_at = none;
  created_at = created_at;
  updated_at = updated_at;
}

-- `a or b` of texts: an empty text is falsy.
abbrev pub text_or : String → String → String
text_or a b = if a == "" then b else a

-- `{**a, **b}`
unfoldable pub merge_dict : Dict String → Dict String → Dict String
merge_dict a [] = a
merge_dict a ((k, v) ∷ b) = merge_dict (put a k v) b

unfoldable pub merge_configuration : WatchConfiguration → WatchConfiguration → WatchConfiguration
unfolding merge_dict
merge_configuration current updated = record {
  schedule_type = updated.schedule_type;
  cron_expression = elim updated.cron_expression [
    | none ↦ current.cron_expression
    | some c ↦ some c
  ];
  timezone = text_or updated.timezone current.timezone;
  metadata = merge_dict current.metadata updated.metadata;
}

unfoldable pub event_id : Texts → String → String → ℕ → String
event_id texts watch_id_value event_type timestamp =
    watch_id_value
    ⧺ ":"
    ⧺ event_type
    ⧺ ":"
    ⧺ texts.digest (watch_id_value ⧺ "|" ⧺ event_type ⧺ "|" ⧺ texts.isoformat timestamp)
