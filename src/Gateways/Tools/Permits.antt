-- ===== src/Gateways/Tools/Permits.antt =====
-- packages/gateways/src/tool-gateway.ts: when DefaultToolGateway lets a request reach its adapter.
use janus_core.Base.{
  String, ◌≡◌, refl, ap, ◌∙◌, ◌⊎◌, inl, inr, Bool, true, false, not, ◌&&◌, Option, none, some,
  if◌then◌else◌, Bool-cases, Option-cases, number_eq, string_eq, has, get,
}
use janus_core.Gateways.{ToolRequest, ToolProgress}
use janus_core.Gateways.Tools.{
  ToolAdapter, Adapters, is_privileged_tool_action, valid_authority_permit, lacks_key,
  failed_result, adapter_refusal, refusal, unregistered_message, not_exposed_message,
  no_key_message, no_permit_message, invoke, execute,
}
use janus_core.Run.Types.{Failure, Runner, done, Exec}

-- The adapter is registered and has the action; a privileged action has a key and a valid permit.
pub Exposed : Adapters → ToolRequest → ToolAdapter → Type 0
Exposed adapters request adapter =
    (get request.tool adapters ≡ some adapter)
    × (has request.action adapter.capabilities ≡ true)
    × (is_privileged_tool_action request.action ≡ true
        → (lacks_key request ≡ false) × (valid_authority_permit request.authorization ≡ true))

Refused : Adapters → ToolRequest → Type 0
Refused adapters request = (adapter : ToolAdapter) → ¬ Exposed adapters request adapter

abbrev verdict : Bool → Bool → Bool → String → String → Option String → Option String
verdict p l v m n rest = if p && l then some m else if p && not v then some n else rest

verdict_cases :
    (p l v : Bool) (m n : String) (rest : Option String)
    → ((message : String) × (verdict p l v m n rest ≡ some message)
        × ¬ (p ≡ true → (l ≡ false) × (v ≡ true)))
      ⊎ ((verdict p l v m n rest ≡ rest) × (p ≡ true → (l ≡ false) × (v ≡ true)))
verdict_cases false l v m n rest = inr (refl, λ h. cc)
verdict_cases true true v m n rest = inl (m, refl, λ h. cc ((h refl).0))
verdict_cases true false false m n rest = inl (n, refl, λ h. cc ((h refl).1))
verdict_cases true false true m n rest = inr (refl, λ h. (refl, refl))

adapter_refusal_cases :
    (adapters : Adapters) (request : ToolRequest)
    → ((message : String) × (adapter_refusal request (get request.tool adapters) ≡ some message)
        × ((adapter : ToolAdapter)
            → ¬ (
                (get request.tool adapters ≡ some adapter)
                × (has request.action adapter.capabilities ≡ true))))
      ⊎ ((adapter : ToolAdapter) × (adapter_refusal request (get request.tool adapters) ≡ none)
          × (get request.tool adapters ≡ some adapter)
          × (has request.action adapter.capabilities ≡ true))
adapter_refusal_cases adapters request = elim (Option-cases (get request.tool adapters)) [
  | inl absent ↦
      inl
        (unregistered_message request, ap (adapter_refusal request) absent, λ a h. cc (absent, h.0))
  | inr (a, found) ↦ elim (Bool-cases (has request.action a.capabilities)) [
    | inl yes_ ↦ inr (a, rw found (rw yes_ refl), found, yes_)
    | inr no_ ↦
        inl (not_exposed_message request, rw found (rw no_ refl), λ b h. cc (found, no_, h.0, h.1))
  ]
]

refusal_cases :
    (adapters : Adapters) (request : ToolRequest)
    → ((message : String) × (refusal adapters request ≡ some message) × Refused adapters request)
      ⊎ ((adapter : ToolAdapter) × (refusal adapters request ≡ none)
          × Exposed adapters request adapter)
unfolding refusal Refused Exposed
refusal_cases adapters request =
    elim (verdict_cases (is_privileged_tool_action request.action) (lacks_key request)
      (valid_authority_permit request.authorization) (no_key_message request)
      (no_permit_message request) (adapter_refusal request (get request.tool adapters))) [
        | inl (m, e, bad) ↦ inl (m, e, λ a h. bad h.2)
        | inr (e, good) ↦ elim (adapter_refusal_cases adapters request) [
          | inl (m, f, bad) ↦ inl (m, e ∙ f, λ a h. bad a (h.0, h.1))
          | inr (a, f, found, offered) ↦ inr (a, e ∙ f, (found, offered, good))
        ]
      ]

module _ (describe : Failure → String) (on_progress : ToolProgress → Exec (Unit {0})) where
  -- A call either is refused on the spot, with an error result and nothing else done, and then no
  -- adapter is exposed to it; or it invokes an adapter that is registered and has the action, and that
  -- a privileged action only reaches with a key and a valid permit.
  pub execute-Exposed :
      (adapters : Adapters) (request : ToolRequest) (r : Runner)
      → ((message : String) × (execute describe on_progress adapters request r
            ≡ done (failed_result message) r)
          × ((adapter : ToolAdapter) → ¬ Exposed adapters request adapter))
        ⊎ ((adapter : ToolAdapter) × (execute describe on_progress adapters request r
              ≡ invoke describe on_progress request adapter r)
            × Exposed adapters request adapter)
  unfolding execute Refused Exposed mathlib.Core.Option.Option-elim
  execute-Exposed adapters request r = elim (refusal_cases adapters request) [
    | inl (m, e, bad) ↦ inl (m, rw e refl, bad)
    | inr (a, e, good) ↦ inr (a, rw (e, good.0) refl, good)
  ]
