-- ===== src/Examples/Queues.antt =====
-- The approval queue, the capability registry and the citation ledger.
use janus_core.Base.{
  String, ◌≡◌, refl, inl, inr, Bool, true, false, Option, none, some, [], ◌∷◌, map, number_eq,
  string_eq, ◌==◌, keep, All, is_blank, trim,
}
use janus_core.Approvals.{
  ApprovalRequestInput, ApprovalRecord, ApprovalQueue, empty_queue, request, request_record,
  settled_record, settle, refuse, find, decide, cancel_run, approved,
}
use janus_core.Approvals.Sound.{start, next, requests, decides, IsSound, Reachable-IsSound}
use janus_core.Approvals.Once.{IsSettled, decide-once, cancel_run-clears}
use janus_core.Base.Number.{less, whole}
use janus_core.Citations.{CitationLedger, web, validate_citation_ledger, citation_coverage}
use janus_core.Citations.Coverage.{IsSupported, validate_citation_ledger-IsSupported}
use janus_core.Capabilities.{Entries, disabled, available, register, check, set_state}
use janus_core.Capabilities.Closed.{set_state-closes}

abbrev input : ApprovalRequestInput
input = record {
  run_id = "r1";
  action_id = "a1";
  label = "Publish";
  tool = none;
  operation = none;
  risk = none;
  reversible = none;
  target = none;
  reason = none;
  estimated_cost = none;
}

abbrev waiting : ApprovalQueue
waiting = request "p1" "t0" "t9" input empty_queue

abbrev settled : ApprovalRecord
settled = settled_record (request_record "p1" "t0" "t9" input) approved "t1" "founder" none

abbrev after : ApprovalQueue
after = settle 200 (request_record "p1" "t0" "t9" input) approved "t1" "founder" none waiting

accepted : decide 200 "p1" true "founder" none "t1" waiting ≡ inr (settled, after)
unfolding decide request mathlib.Core.Option.Option-elim
accepted = refl

Reachable-IsSound_example : IsSound 200 after
Reachable-IsSound_example = Reachable-IsSound 200 (
    next (next start (requests "p1" "t0" "t9" input empty_queue tt refl))
      (decides "p1" true "founder" none "t1" waiting settled after accepted))

decide-once_example :
    IsSettled "p1" true settled waiting after
    × ((again : Bool) (by : String) (remark : Option String) (now : String)
        → decide 200 "p1" again by remark now after ≡ inl (refuse (find "p1" after.history)))
decide-once_example = decide-once 200 "p1" true "founder" none "t1" waiting settled after accepted

cancel_run-clears_example :
    All
      (λ r. (r.input.run_id == "r1") ≡ false)
      (cancel_run 200 "r1" "founder" "t2" waiting).0.waiters
    × (keep (λ o. o.approved) (cancel_run 200 "r1" "founder" "t2" waiting).0.outcomes
        ≡ keep (λ o. o.approved) waiting.outcomes)
cancel_run-clears_example = cancel_run-clears 200 "r1" "founder" "t2" waiting

abbrev entries : Entries
entries =
    (register
      (record { tool = "github"; actions = "file.publish" ∷ []; state = available; reason = none })
      []).1

publish_available : (check "github" "file.publish" entries).ok ≡ true
unfolding check register is_blank trim
publish_available = refl

set_state-closes_example :
    (check "github" " file.publish"
      (set_state "github" disabled none (some (" file.publish" ∷ [])) entries)).ok
    ≡ false
set_state-closes_example =
    set_state-closes "github" disabled none (" file.publish" ∷ []) " file.publish" entries refl refl

abbrev ledger : CitationLedger
ledger = record {
  sources =
      record {
        id = "s1";
        title = none;
        uri = none;
        source_type = web;
        retrieved_at = none;
        checksum = none;
      }
      ∷ [];
  claims =
      record {
        claim = "it rains";
        citations = record { source_id = "s1"; locator = none; quote_hash = none } ∷ [];
      }
      ∷ [];
}

validate_citation_ledger-IsSupported_example :
    All (IsSupported (map (λ s. s.id) ledger.sources)) ledger.claims
    × (less (citation_coverage ledger) (whole 1) ≡ false)
unfolding validate_citation_ledger is_blank
validate_citation_ledger-IsSupported_example = validate_citation_ledger-IsSupported ledger refl
