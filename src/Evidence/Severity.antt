-- ===== src/Evidence/Severity.antt =====
-- continuous/risk_delta/severity_mapper.py: the order of severities, the domain and the signal of
-- an evidence item, and its part of the score.
use chain_sentinel.Base.{
  ℕ, zero, suc, String, Option, none, some, ◌==◌, if◌then◌else◌, get, ◌⧺◌, decimal,
  after_last_colon, ℤ, pos, negsuc, eq_int,
}
use chain_sentinel.Evidence.Models.{
  EvidenceSource, governance, liquidity, wallet, protocol, relationship, threat_surface, proxy,
  capability, honeypot, simulation, classification, system, EvidenceSeverity, info, low, medium,
  high, critical, Value, text, flag, amount, RiskEvidence,
}

-- `SEVERITY_RANK`, and the index in `SEVERITY_ORDER`
abbrev pub severity_rank : EvidenceSeverity → ℕ
severity_rank info = 0
severity_rank low = 1
severity_rank medium = 2
severity_rank high = 3
severity_rank critical = 4

-- `SEVERITY_ORDER[rank]`
abbrev pub severity_at : ℕ → EvidenceSeverity
severity_at zero = info
severity_at (suc zero) = low
severity_at (suc (suc zero)) = medium
severity_at (suc (suc (suc zero))) = high
severity_at (suc (suc (suc (suc n)))) = critical

abbrev pub intelligence_domain : EvidenceSource → String
intelligence_domain governance = "governance"
intelligence_domain liquidity = "liquidity"
intelligence_domain wallet = "wallet"
intelligence_domain protocol = "protocol"
intelligence_domain relationship = "relationship"
intelligence_domain threat_surface = "threat"
intelligence_domain proxy = "protocol"
intelligence_domain capability = "capability"
intelligence_domain honeypot = "honeypot"
intelligence_domain simulation = "simulation"
intelligence_domain classification = "classification"
intelligence_domain system = "system"

-- `str(z)` of an integer
abbrev pub int_text : ℤ → String
int_text (pos n) = decimal n
int_text (negsuc n) = "-" ⧺ decimal (suc n)

-- `str(value)` of a truthy value of the metadata.
abbrev pub truthy_text : Value → Option String
truthy_text (text s) = if s == "" then none else some s
truthy_text (flag b) = if b then some "True" else none
truthy_text (amount z) = if eq_int z (pos 0) then none else some (int_text z)

unfoldable pub evidence_signal : RiskEvidence → String
evidence_signal evidence =
    let last_part = after_last_colon evidence.id in
    elim (get evidence.metadata "signal") [
      | none ↦ last_part
      | some v ↦ elim (truthy_text v) [ none ↦ last_part | some s ↦ s ]
    ]
