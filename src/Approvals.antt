-- ===== src/Approvals.antt =====
-- packages/core/src/approval-queue.ts: sensitive actions that wait for one human decision. Time and
-- fresh ids are arguments: `now` the reading of the clock, `id` the fresh one, `expiry` the text of
-- the instant at which the request expires. The timer of a request is the operation `expire`.
pub mod Once
pub mod Sound
use janus_core.Base.{
  ℕ, ◌+◌, ◌-◌, String, ◌⊎◌, inl, inr, Bool, true, false, not, Option, none, some, List, [], ◌∷◌,
  ◌++◌, nat_eq, if◌then◌else◌, ◌==◌, string_eq, number_eq, length, drop, keep, is_nil, slice_to,
}
use Prim.Native.String
use mathlib.Core.Option.{Option-elim}

pub data ApprovalStatus : Type 0 where
  pending approved rejected expired cancelled : ApprovalStatus

pub record ApprovalRequestInput : Type 0 where
  pub run_id : String
  pub action_id : String
  pub label : String
  pub tool : Option String
  pub operation : Option String
  pub risk : Option String
  pub reversible : Option Bool
  pub target : Option String
  pub reason : Option String
  pub estimated_cost : Option String

pub record ApprovalRecord : Type 0 where
  pub input : ApprovalRequestInput
  pub id : String
  pub status : ApprovalStatus
  pub created_at : String
  pub expires_at : String
  pub decided_at : Option String
  pub decided_by : Option String
  pub decision_note : Option String

-- What the promise of a request resolves to.
pub record ApprovalOutcome : Type 0 where
  pub approved : Bool
  pub status : ApprovalStatus
  pub reason : Option String
  pub settled : ApprovalRecord

-- `waiters` in the order of insertion, `history` with the oldest record first; `outcomes` are the
-- promises resolved so far and `transitions` the records handed to `onTransition`, the newest first.
pub record ApprovalQueue : Type 0 where
  pub waiters : List ApprovalRecord
  pub history : List ApprovalRecord
  pub outcomes : List ApprovalOutcome
  pub transitions : List ApprovalRecord

abbrev pub empty_queue : ApprovalQueue
empty_queue = record { waiters = []; history = []; outcomes = []; transitions = [] }

abbrev pub is_approved : ApprovalStatus → Bool
is_approved approved = true
is_approved _ = false

abbrev pub status_word : ApprovalStatus → String
status_word pending = "pending"
status_word approved = "approved"
status_word rejected = "rejected"
status_word expired = "expired"
status_word cancelled = "cancelled"

abbrev pub request_record : String → String → String → ApprovalRequestInput → ApprovalRecord
request_record id now expiry input = record {
  input = record input { label = slice_to 300 input.label };
  id = id;
  status = pending;
  created_at = now;
  expires_at = expiry;
  decided_at = none;
  decided_by = none;
  decision_note = none;
}

unfoldable pub request :
    String → String → String → ApprovalRequestInput → ApprovalQueue → ApprovalQueue
request id now expiry input q =
    let r = request_record id now expiry input in
    record q { waiters = q.waiters ++ r ∷ []; transitions = r ∷ q.transitions }

abbrev pub find : String → List ApprovalRecord → Option ApprovalRecord
find id [] = none
find id (r ∷ rs) = if r.id == id then some r else find id rs

-- `this.waiters.delete(id)`
abbrev pub remove : String → List ApprovalRecord → List ApprovalRecord
remove id rs = keep (λ r. not (r.id == id)) rs

-- `...(note ? { decisionNote: note } : {})`
abbrev pub truthy : Option String → Option String
truthy none = none
truthy (some s) = if is_nil s then none else some s

abbrev pub settled_record :
    ApprovalRecord → ApprovalStatus → String → String → Option String → ApprovalRecord
settled_record r status now by remark = record r {
  status = status;
  decided_at = some now;
  decided_by = some by;
  decision_note = Option-elim (truthy remark) r.decision_note (λ s. some s);
}

-- `note ?? …`
abbrev pub outcome_of : ApprovalStatus → Option String → ApprovalRecord → ApprovalOutcome
outcome_of status remark r = record {
  approved = is_approved status;
  status = status;
  reason =
      if is_approved status
      then none
      else some (Option-elim remark (String.◌++◌ "Aprobación " (status_word status)) (λ s. s));
  settled = r;
}

-- `history` without what is above the limit.
abbrev pub trimmed : ℕ → List ApprovalRecord → List ApprovalRecord
trimmed limit rs = drop (length rs - limit) rs

-- `finish` of a record that waits.
unfoldable pub settle :
    ℕ
    → ApprovalRecord
    → ApprovalStatus
    → String
    → String
    → Option String
    → ApprovalQueue
    → ApprovalQueue
settle limit w status now by remark q =
    let r = settled_record w status now by remark in
    record {
      waiters = remove w.id q.waiters;
      history = trimmed limit (q.history ++ r ∷ []);
      outcomes = outcome_of status remark r ∷ q.outcomes;
      transitions = r ∷ q.transitions;
    }

pub data DecisionError : Type 0 where
  not_found : DecisionError
  already_decided : ApprovalStatus → DecisionError

abbrev pub refuse : Option ApprovalRecord → DecisionError
refuse none = not_found
refuse (some r) = already_decided r.status

abbrev pub verdict : Bool → ApprovalStatus
verdict true = approved
verdict false = rejected

-- `decide`: the error that it throws, or the settled record with the queue.
unfoldable pub decide :
    ℕ
    → String
    → Bool
    → String
    → Option String
    → String
    → ApprovalQueue
    → DecisionError ⊎ (ApprovalRecord × ApprovalQueue)
unfolding settle
decide limit id yes_ by remark now q = elim (find id q.waiters) [
  | none ↦ inl (refuse (find id q.history))
  | some w ↦
      let cut = Option-elim remark none (λ s. some (slice_to 500 s)) in
      inr (settled_record w (verdict yes_) now by cut, settle limit w (verdict yes_) now by cut q)
]

-- The timer of a request. It is cleared when the request is settled, so it finds its waiter.
unfoldable pub expire : ℕ → String → String → ApprovalQueue → ApprovalQueue
unfolding settle
expire limit id now q = elim (find id q.waiters) [
  | none ↦ q
  | some w ↦
      settle limit w expired now "janus-core" (some "Sin respuesta a tiempo: no se ejecuta.") q
]

-- The loop of `cancelRun` over a copy of the waiters.
unfoldable pub cancel_all :
    ℕ → String → String → String → List ApprovalRecord → ApprovalQueue × ℕ → ApprovalQueue × ℕ
unfolding settle
cancel_all limit run_id by now [] (q, count) = (q, count)
cancel_all limit run_id by now (w ∷ ws) (q, count) = cancel_all limit run_id by now ws (
    if w.input.run_id == run_id
    then (settle limit w cancelled now by (some "La ejecución fue cancelada.") q, count + 1)
    else (q, count))

unfoldable pub cancel_run : ℕ → String → String → String → ApprovalQueue → ApprovalQueue × ℕ
unfolding cancel_all
cancel_run limit run_id by now q = cancel_all limit run_id by now q.waiters (q, 0)

abbrev reversed : List ApprovalRecord → List ApprovalRecord → List ApprovalRecord
reversed [] acc = acc
reversed (r ∷ rs) acc = reversed rs (r ∷ acc)

-- `recent`; `slice(-0)` is the whole list.
unfoldable pub recent : ℕ → ApprovalQueue → List ApprovalRecord
recent limit q = reversed (if nat_eq limit 0 then q.history else trimmed limit q.history) []
