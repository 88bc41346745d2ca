-- ===== src/Capabilities.antt =====
-- packages/core/src/capability-registry.ts: which actions of which tools can run. `snapshot` and
-- `availableCatalog`, which sort, are left out.
pub mod Closed
use janus_core.Base.{
  String, Bool, true, false, not, Option, none, some, List, [], ◌∷◌, ◌++◌, map, starts_with,
  if◌then◌else◌, ◌==◌, string_eq, number_eq, is_empty, keep, has, is_nil, is_blank, trim, get, set,
}
use Prim.Native.String
use Prim.Native.Char.{nul}
use mathlib.Core.Option.{Option-elim}

pub data CapabilityState : Type 0 where
  available needs_auth disabled unavailable : CapabilityState

pub record CapabilityRegistration : Type 0 where
  pub tool : String
  pub actions : List String
  pub state : CapabilityState
  pub reason : Option String

pub record CapabilitySnapshot : Type 0 where
  pub tool : String
  pub action : String
  pub state : CapabilityState
  pub reason : Option String

pub record CapabilityCheckResult : Type 0 where
  pub ok : Bool
  pub state : CapabilityState
  pub reason : Option String

-- `entries`
abbrev pub Entries : Type 0
Entries = List (String × CapabilitySnapshot)

pub data CapabilityError : Type 0 where
  tool_required : CapabilityError
  no_actions action_required : String → CapabilityError

abbrev pub key : String → String → String
key tool action = String.◌++◌ (trim tool) (String.◌∷◌ nul (trim action))

-- `...(reason ? { reason } : …)`
abbrev pub truthy : Option String → Option String
truthy none = none
truthy (some s) = if is_nil s then none else some s

abbrev pub entry : CapabilityRegistration → String → CapabilitySnapshot
entry registration action = record {
  tool = trim registration.tool;
  action = trim action;
  state = registration.state;
  reason = truthy registration.reason;
}

-- The loop of `register`. A blank action throws, and leaves the entries set so far.
unfoldable pub register_actions :
    CapabilityRegistration → List String → Entries → Option CapabilityError × Entries
register_actions registration [] entries = (none, entries)
register_actions registration (action ∷ actions) entries =
    let rest =
      register_actions registration actions
        (set (key registration.tool action) (entry registration action) entries) in
    if is_blank action then (some (action_required (trim registration.tool)), entries) else rest

unfoldable pub register : CapabilityRegistration → Entries → Option CapabilityError × Entries
unfolding register_actions
register registration entries =
    if is_blank registration.tool
    then (some tool_required, entries)
    else if is_empty registration.actions
    then (some (no_actions (trim registration.tool)), entries)
    else register_actions registration registration.actions entries

-- The keys that `setState` writes: those of the actions, or all that start with the tool.
unfoldable pub targets : String → Option (List String) → Entries → List String
targets tool actions entries =
    let every =
      keep (λ k. starts_with k (String.◌++◌ tool (String.◌∷◌ nul ""))) (map (λ e. e.0) entries) in
    Option-elim actions every (λ as'. if is_empty as' then every else map (key tool) as')

abbrev pub rewritten :
    CapabilityState → Option String → String → Entries → Option CapabilitySnapshot → Entries
rewritten state reason target entries none = entries
rewritten state reason target entries (some current) =
    set target (record current { state = state; reason = truthy reason }) entries

-- The loop of `setState`.
unfoldable pub set_states : CapabilityState → Option String → List String → Entries → Entries
set_states state reason [] entries = entries
set_states state reason (target ∷ rest) entries =
    set_states state reason rest (rewritten state reason target entries (get target entries))

unfoldable pub set_state :
    String → CapabilityState → Option String → Option (List String) → Entries → Entries
unfolding targets set_states
set_state tool state reason actions entries =
    set_states state reason (targets tool actions entries) entries

abbrev pub is_available : CapabilityState → Bool
is_available available = true
is_available _ = false

abbrev pub state_word : CapabilityState → String
state_word available = "available"
state_word needs_auth = "needs_auth"
state_word disabled = "disabled"
state_word unavailable = "unavailable"

abbrev pub checked : String → String → Option CapabilitySnapshot → CapabilityCheckResult
checked tool action none = record {
  ok = false;
  state = unavailable;
  reason =
      some (String.◌++◌ "Capability not registered: " (String.◌++◌ tool (String.◌++◌ "." action)));
}
checked tool action (some c) =
    if is_available c.state
    then record { ok = true; state = available; reason = none }
    else record {
      ok = false;
      state = c.state;
      reason = some (
          Option-elim c.reason
            (String.◌++◌ "Capability " (
              String.◌++◌ tool
                (String.◌++◌ "." (String.◌++◌ action (String.◌++◌ " is " (state_word c.state))))))
            (λ s. s));
    }

unfoldable pub check : String → String → Entries → CapabilityCheckResult
check tool action entries = checked tool action (get (key tool action) entries)

-- `allAllowedTools`, a set
unfoldable pub all_allowed_tools : Entries → List String
all_allowed_tools [] = []
all_allowed_tools ((k, e) ∷ rest) =
    let tools = all_allowed_tools rest in if has e.tool tools then tools else e.tool ∷ tools

-- The entry of a tool in `allAllowedActions`.
unfoldable pub all_allowed_actions : Entries → String → List String
all_allowed_actions entries tool = map (λ e. e.1.action) (keep (λ e. e.1.tool == tool) entries)
