-- ===== src/Reanalysis/Plan/Selected.antt =====
-- The modules that a plan selects.
use chain_sentinel.Base.{
  String, ◌≡◌, refl, ◌∙◌, Bool, true, ◌||◌, List, [], ◌∷◌, arith, any, mem, add, mem-add, Distinct,
  mem-filter_key, Distinct-filter_key,
}
use chain_sentinel.Change.Models.{ChangeEvent}
use chain_sentinel.Reanalysis.Models.{
  ReanalysisModule, capability, protocol, threat, governance, liquidity, relationship, module_value,
}
use chain_sentinel.Reanalysis.Plan.{
  modules_for_change, module_order, module_values, add_all, selected, select,
}

-- Whether an event asks for the module.
abbrev pub asks : ReanalysisModule → ChangeEvent → Bool
asks m e = mem (module_value m) (module_values (modules_for_change e.change_type))

mem-add_all : (xs s : List String) (k : String) → mem k (add_all xs s) ≡ (mem k xs || mem k s)
unfolding add_all mem
mem-add_all [] s k = refl
mem-add_all (x ∷ xs) s k = ground (arith, mem-add_all xs (add x s) k, mem-add k x s)

mem-selected :
    (m : ReanalysisModule) (events : List ChangeEvent) (s : List String)
    → mem (module_value m) (selected events s) ≡ (any (asks m) events || mem (module_value m) s)
unfolding selected
mem-selected m [] s = refl
mem-selected m (e ∷ events) s =
    let new = module_values (modules_for_change e.change_type) in
    ground (arith, mem-selected m events (add_all new s), mem-add_all new s (module_value m))

mem-module_order : (m : ReanalysisModule) → mem (module_value m) (module_values module_order) ≡ true
unfolding mem
mem-module_order capability = refl
mem-module_order protocol = refl
mem-module_order threat = refl
mem-module_order governance = refl
mem-module_order liquidity = refl
mem-module_order relationship = refl

-- The selected modules are exactly those that an event asks for, each once.
pub select-asks :
    (events : List ChangeEvent)
    → Distinct (module_values (select events))
      × ((m : ReanalysisModule)
          → mem (module_value m) (module_values (select events)) ≡ any (asks m) events)
unfolding select mem
select-asks events =
    let q : String → Bool = λ k. mem k (selected events []) in
    (
      Distinct-filter_key (λ m. module_value m) q module_order
          (refl, (refl, (refl, (refl, (refl, (refl, tt)))))),
      λ m.
          mem-filter_key (λ n. module_value n) q (module_value m) module_order
          ∙ ground (arith, mem-module_order m, mem-selected m events []),
    )
