-- ===== src/Reanalysis/Plan.antt =====
-- continuous/reanalysis/impact_analyzer.py, module_selector.py, execution_plan.py and planner.py.
pub mod Selected
use chain_sentinel.Base.{
  String, List, [], ◌∷◌, map, if◌then◌else◌, filter, text_le, sort_by, sorted, mem, add, ◌⧺◌, join,
  filter, join,
}
use chain_sentinel.Watch.Subscription.{Texts}
use chain_sentinel.Change.Models.{ChangeType, ChangeEvent, ChangeDetectionResult, change_type_value}
use chain_sentinel.Reanalysis.Models.{
  ReanalysisModule, capability, protocol, threat, governance, liquidity, relationship, module_value,
  ExecutionPlan,
}

-- CHANGE_TYPE_MODULES, which has every type of change
unfoldable pub modules_for_change : ChangeType → List ReanalysisModule
modules_for_change ChangeType.implementation_changed = capability ∷ protocol ∷ threat ∷ []
modules_for_change ChangeType.owner_changed = governance ∷ threat ∷ []
modules_for_change ChangeType.proxy_admin_changed = governance ∷ threat ∷ []
modules_for_change ChangeType.governance_changed = governance ∷ threat ∷ []
modules_for_change ChangeType.liquidity_changed = liquidity ∷ []
modules_for_change ChangeType.treasury_changed = governance ∷ threat ∷ []
modules_for_change ChangeType.bytecode_changed = capability ∷ protocol ∷ threat ∷ []
modules_for_change ChangeType.dependency_changed = protocol ∷ relationship ∷ []
modules_for_change ChangeType.runtime_fingerprint_changed = protocol ∷ threat ∷ []

-- MODULE_ORDER
abbrev pub module_order : List ReanalysisModule
module_order = capability ∷ governance ∷ liquidity ∷ protocol ∷ relationship ∷ threat ∷ []

-- A set of enumeration members is the set of their texts.
abbrev pub module_values : List ReanalysisModule → List String
module_values ms = map (λ m. module_value m) ms

unfoldable pub add_all : List String → List String → List String
add_all [] s = s
add_all (x ∷ xs) s = add_all xs (add x s)

-- `selected.update(...)` for each event
unfoldable pub selected : List ChangeEvent → List String → List String
unfolding add_all modules_for_change
selected [] s = s
selected (e ∷ events) s =
    selected events (add_all (module_values (modules_for_change e.change_type)) s)

unfoldable pub select : List ChangeEvent → List ReanalysisModule
unfolding selected
select events = filter (λ m. mem (module_value m) (selected events [])) module_order

-- `set` of change types, by their texts: the first of each.
unfoldable pub distinct_types : List ChangeEvent → List String → List ChangeType
distinct_types [] seen = []
distinct_types (e ∷ events) seen =
    let value = change_type_value e.change_type in
    if mem value seen
    then distinct_types events seen
    else e.change_type ∷ distinct_types events (add value seen)

unfoldable pub triggered_change_types : List ChangeEvent → List ChangeType
unfolding distinct_types
triggered_change_types events =
    sort_by (λ a b. text_le (change_type_value a) (change_type_value b)) (distinct_types events [])

unfoldable pub all_affected : List ChangeEvent → List String → List String
unfolding add_all
all_affected [] s = s
all_affected (e ∷ events) s = all_affected events (add_all e.affected_contracts s)

unfoldable pub affected_contracts : List ChangeEvent → List String
unfolding all_affected
affected_contracts events = sorted (all_affected events [])

unfoldable pub plan_id : Texts → String → List ReanalysisModule → List ChangeType → String
plan_id texts watch_id modules triggered_by =
    watch_id
    ⧺ (":plan:"
        ⧺ texts.digest (
            join "|" (
              watch_id
              ∷ join "," (module_values modules)
              ∷ join "," (map (λ t. change_type_value t) triggered_by)
              ∷ [])))

unfoldable pub build_execution_plan :
    Texts → ChangeDetectionResult → List ReanalysisModule → ExecutionPlan
unfolding triggered_change_types affected_contracts plan_id
build_execution_plan texts change_result modules =
    let triggered_by = triggered_change_types change_result.changes in
    record {
      plan_id = plan_id texts change_result.watch_id modules triggered_by;
      watch_id = change_result.watch_id;
      modules = modules;
      triggered_by = triggered_by;
      affected_contracts = affected_contracts change_result.changes;
      metadata =
          ("baseline_snapshot_id", change_result.baseline_snapshot_id)
          ∷ ("current_snapshot_id", change_result.current_snapshot_id)
          ∷ [];
    }

unfoldable pub plan : Texts → ChangeDetectionResult → ExecutionPlan
unfolding select build_execution_plan
plan texts change_result =
    if change_result.unchanged
    then build_execution_plan texts change_result []
    else build_execution_plan texts change_result (select change_result.changes)
