-- ===== src/Watch/Models.antt =====
-- continuous/models.py. A moment is a number of seconds; the values of a dictionary that the code
-- only carries around are texts.
use chain_sentinel.Base.{ℕ, String, Bool, true, false, Option, none, [], Dict}

pub data WatchScheduleType : Type 0 where
  manual hourly daily weekly cron : WatchScheduleType

pub data WatchStatus : Type 0 where
  enabled disabled paused : WatchStatus

pub data WatchEventType : Type 0 where
  registered unregistered config_updated enabled disabled paused : WatchEventType
  resumed deleted scheduled executed : WatchEventType

pub record WatchConfiguration : Type 0 where
  pub schedule_type : WatchScheduleType
  pub cron_expression : Option String
  pub timezone : String
  pub metadata : Dict String

pub record WatchedProtocol : Type 0 where
  pub watch_id : String
  pub chain_id : ℕ
  pub root_address : String
  pub protocol_name : String
  pub registered_at : ℕ
  pub metadata : Dict String

pub record WatchSubscription : Type 0 where
  pub subscription_id : String
  pub protocol : WatchedProtocol
  pub configuration : WatchConfiguration
  pub status : WatchStatus
  pub baseline_scan : Option (Dict String)
  pub last_execution_at : Option ℕ
  pub next_execution_at : Option ℕ
  pub created_at : ℕ
  pub updated_at : ℕ

-- A value of an event's metadata.
pub data Payload : Type 0 where
  text : String → Payload
  mapping : Dict String → Payload

pub record WatchEvent : Type 0 where
  pub event_id : String
  pub event_type : WatchEventType
  pub watch_id : String
  pub timestamp : ℕ
  pub metadata : Dict Payload

-- `WatchConfiguration()`
abbrev pub default_configuration : WatchConfiguration
default_configuration = record {
  schedule_type = manual;
  cron_expression = none;
  timezone = "UTC";
  metadata = [];
}

-- `status == WatchStatus.ENABLED`, `status == WatchStatus.PAUSED`
abbrev pub is_enabled : WatchStatus → Bool
is_enabled WatchStatus.enabled = true
is_enabled _ = false

abbrev pub is_paused : WatchStatus → Bool
is_paused WatchStatus.paused = true
is_paused _ = false

abbrev pub is_manual : WatchScheduleType → Bool
is_manual manual = true
is_manual _ = false

abbrev pub is_cron : WatchScheduleType → Bool
is_cron cron = true
is_cron _ = false

-- `event_type.value` and `schedule_type.value`
abbrev pub event_type_value : WatchEventType → String
event_type_value registered = "registered"
event_type_value unregistered = "unregistered"
event_type_value config_updated = "config_updated"
event_type_value WatchEventType.enabled = "enabled"
event_type_value WatchEventType.disabled = "disabled"
event_type_value WatchEventType.paused = "paused"
event_type_value resumed = "resumed"
event_type_value deleted = "deleted"
event_type_value scheduled = "scheduled"
event_type_value executed = "executed"

abbrev pub schedule_type_value : WatchScheduleType → String
schedule_type_value manual = "manual"
schedule_type_value hourly = "hourly"
schedule_type_value daily = "daily"
schedule_type_value weekly = "weekly"
schedule_type_value cron = "cron"
