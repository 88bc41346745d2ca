-- ===== src/Examples/Policies.antt =====
-- Effort and blockers.
use janus_core.Base.{
  ℕ, String, ◌≡◌, refl, ◌⊎◌, inl, inr, Bool, true, false, ◌||◌, ◌≤◌, none, some, [], ◌∷◌, length,
  is_space, trim,
}
use janus_core.Effort.{EffortInput, normal}
use janus_core.Effort.Decide.{is_critical, decide_effort}
use janus_core.Effort.Floor.{fits, decide_effort-fits}
use janus_core.Blockers.{
  OperationalAlternative, OperationalBlockerResolution, BlockerInput, BlockerError, low, provider,
  build_operational_blocker_resolution, park_and_continue,
}
use janus_core.Blockers.Disposition.{
  is_block, nothing_now, build_operational_blocker_resolution-block,
}

-- A text that is in its normal form, with so few separators.
abbrev as_written : String → String
as_written s = s

abbrev no_steps : String → ℕ
no_steps s = 0

abbrev payment : EffortInput
payment = record {
  text_ = "transferir hoy";
  requested = some "eco";
  cost_sensitive = true;
  sensitive_command = false;
}

payment_raised : (decide_effort as_written no_steps payment).level ≡ normal
unfolding decide_effort is_space
payment_raised = refl

decide_effort-fits_example :
    let d = decide_effort as_written no_steps payment in
    (fits d.requested d.risk d.level ≡ true) × (d.requires_confirmation ≡ is_critical d.risk)
decide_effort-fits_example = decide_effort-fits as_written no_steps payment

abbrev alternative : String → Bool → OperationalAlternative
alternative id now = record {
  id = id;
  title = "T";
  description = "D";
  preserves_goal = true;
  available_now = now;
  risk = low;
  evidence = none;
  next_action = "N";
}

abbrev outage : BlockerInput
outage = record {
  problem = "down";
  risk = "late";
  cause = "outage";
  kind = some provider;
  alternatives = alternative "a" false ∷ alternative " b" true ∷ alternative "a " true ∷ [];
  mandatory_stop = false;
  parked_issue = some "P-1";
}

abbrev resolution : BlockerError ⊎ OperationalBlockerResolution → OperationalBlockerResolution
resolution (inr r) = r
resolution (inl e) = record {
  problem = "";
  risk = "";
  cause = "";
  kind = provider;
  alternatives = [];
  recommendation = "";
  next_action = "";
  disposition = park_and_continue;
  parked_issue = none;
}

abbrev resolved : OperationalBlockerResolution
resolved = resolution (build_operational_blocker_resolution outage)

build_operational_blocker_resolution-block_example :
    (is_block resolved.disposition ≡ (outage.mandatory_stop || nothing_now resolved.alternatives))
    × (2 ≤ length resolved.alternatives)
    × (length resolved.alternatives ≤ 4)
unfolding build_operational_blocker_resolution janus_core.Base.Once.once trim
build_operational_blocker_resolution-block_example =
    build_operational_blocker_resolution-block outage resolved refl
