-- ===== src/Approvals/Sound.antt =====
-- The queue of packages/core/src/approval-queue.ts after any sequence of its operations.
use janus_core.Base.{
  ℕ, ◌+◌, ◌-◌, ◌≤◌, String, ◌≡◌, refl, ◌∙◌, ◌≢◌, ◌↔◌, inl, inr, Bool, true, false, Option, none,
  some, List, [], ◌∷◌, ◌++◌, map, arith, Bool-cases, Option-cases, ◌==◌, string_eq, number_eq,
  ==_comm, length, keep, All, All-append, All-keep, All-drop, length-drop, has, slice_to,
}
use janus_core.Approvals.{
  ApprovalStatus, pending, approved, expired, cancelled, ApprovalRequestInput, ApprovalRecord,
  ApprovalOutcome, ApprovalQueue, empty_queue, request, find, remove, settled_record, trimmed,
  settle, decide, expire, cancel_all, cancel_run, request_record, verdict, is_approved,
}
use mathlib.Core.Option.{Option-elim}

abbrev pub outcome_ids : List ApprovalOutcome → List String
outcome_ids os = map (λ o. o.settled.id) os

-- Records with different ids.
abbrev pub Apart : List ApprovalRecord → Type 0
Apart [] = Unit
Apart (r ∷ rs) = All (λ s. (s.id == r.id) ≡ false) rs × Apart rs

abbrev pub Distinct : List String → Type 0
Distinct [] = Unit
Distinct (x ∷ xs) = (has x xs ≡ false) × Distinct xs

abbrev pub IsNew : ApprovalQueue → ApprovalRecord → Type 0
IsNew q r = has r.id (outcome_ids q.outcomes) ≡ false

pub record IsSound (limit : ℕ) (q : ApprovalQueue) : Type 0 where
  pub waiting : All (λ r. r.status ≡ pending) q.waiters
  pub apart : Apart q.waiters
  pub open_ : All (IsNew q) q.waiters
  pub once : Distinct (outcome_ids q.outcomes)
  pub approvals : All (λ o. (o.approved ≡ true) ↔ (o.status ≡ approved)) q.outcomes
  pub decided : All (λ r. r.status ≢ pending) q.history
  pub bounded : length q.history ≤ limit

-- One call of an operation. Ids are random, so a new one stands nowhere yet.
pub data Step (limit : ℕ) : ApprovalQueue → ApprovalQueue → Type 0 where
  requests :
      (id now expiry : String) (input : ApprovalRequestInput) (q : ApprovalQueue)
      → All (λ r. (r.id == id) ≡ false) q.waiters
      → has id (outcome_ids q.outcomes) ≡ false
      → Step limit q (request id now expiry input q)
  decides :
      (id : String) (yes_ : Bool) (by : String) (remark : Option String) (now : String)
      (q : ApprovalQueue) (r : ApprovalRecord) (q' : ApprovalQueue)
      → decide limit id yes_ by remark now q ≡ inr (r, q')
      → Step limit q q'
  expires : (id now : String) (q : ApprovalQueue) → Step limit q (expire limit id now q)
  cancels :
      (run_id by now : String) (q : ApprovalQueue)
      → Step limit q (cancel_run limit run_id by now q).0

pub data Reachable (limit : ℕ) : ApprovalQueue → Type 0 where
  start : Reachable limit empty_queue
  next : {q q' : ApprovalQueue} → Reachable limit q → Step limit q q' → Reachable limit q'

trimmed-bound : (limit : ℕ) (rs : List ApprovalRecord) → length (trimmed limit rs) ≤ limit
trimmed-bound limit rs = omega (arith, length-drop (length rs - limit) rs)

Apart-keep : (p : ApprovalRecord → Bool) (rs : List ApprovalRecord) → Apart rs → Apart (keep p rs)
Apart-keep p [] h = tt
Apart-keep p (r ∷ rs) (h, hs) = elim (Bool-cases (p r)) [
  | inl yes_ ↦ rw yes_ (All-keep (λ s. (s.id == r.id) ≡ false) p rs h, Apart-keep p rs hs)
  | inr no_ ↦ rw no_ (Apart-keep p rs hs)
]

Apart-last :
    (r : ApprovalRecord) (rs : List ApprovalRecord)
    → Apart rs
    → All (λ s. (s.id == r.id) ≡ false) rs
    → Apart (rs ++ r ∷ [])
Apart-last r [] h k = (tt, tt)
Apart-last r (s ∷ ss) (h, hs) (k, ks) = (
  All-append (λ t. (t.id == s.id) ≡ false) ss (r ∷ []) h (==_comm r.id s.id ∙ k, tt),
  Apart-last r ss hs ks,
)

approved_iff : (s : ApprovalStatus) → (is_approved s ≡ true) ↔ (s ≡ approved)
approved_iff s = (λ h. ground arith, λ h. ground arith)

verdict-over : (b : Bool) → verdict b ≢ pending
verdict-over true e = cc
verdict-over false e = cc

-- A waiter that stays after the removal of another is new to the outcomes still.
stays_new :
    (id : String) (ids : List String) (rs : List ApprovalRecord)
    → All (λ r. has r.id ids ≡ false) rs
    → All (λ r. has r.id (id ∷ ids) ≡ false) (remove id rs)
stays_new id ids [] h = tt
stays_new id ids (r ∷ rs) (h, hs) = elim (Bool-cases (r.id == id)) [
  | inl yes_ ↦ rw yes_ (stays_new id ids rs hs)
  | inr no_ ↦ rw no_ (rw (no_, h), stays_new id ids rs hs)
]

others_new :
    (w : ApprovalRecord) (q : ApprovalQueue) (ws : List ApprovalRecord)
    → All (λ s. (s.id == w.id) ≡ false) ws
    → All (IsNew q) ws
    → All (λ r. has r.id (w.id ∷ outcome_ids q.outcomes) ≡ false) ws
others_new w q [] h k = tt
others_new w q (r ∷ rs) (h, hs) (k, ks) = (rw (h, k), others_new w q rs hs ks)

module _ (limit : ℕ) where
  request-IsSound :
      (id now expiry : String) (input : ApprovalRequestInput) (q : ApprovalQueue)
      → All (λ r. (r.id == id) ≡ false) q.waiters
      → has id (outcome_ids q.outcomes) ≡ false
      → IsSound limit q
      → IsSound limit (request id now expiry input q)
  unfolding request
  request-IsSound id now expiry input q fresh new s =
      let r = request_record id now expiry input in
      record {
        waiting = All-append (λ w. w.status ≡ pending) q.waiters (r ∷ []) s.waiting (refl, tt);
        apart = Apart-last r q.waiters s.apart fresh;
        open_ = All-append (IsNew q) q.waiters (r ∷ []) s.open_ (new, tt);
        once = s.once;
        approvals = s.approvals;
        decided = s.decided;
        bounded = s.bounded;
      }

  settle-IsSound :
      (w : ApprovalRecord) (status : ApprovalStatus) (now by : String) (remark : Option String)
      (q : ApprovalQueue)
      → status ≢ pending
      → IsNew q w
      → IsSound limit q
      → IsSound limit (settle limit w status now by remark q)
  unfolding settle
  settle-IsSound w status now by remark q over new s =
      let r = settled_record w status now by remark in
      record {
        waiting = All-keep (λ w. w.status ≡ pending) _ q.waiters s.waiting;
        apart = Apart-keep _ q.waiters s.apart;
        open_ = stays_new w.id (outcome_ids q.outcomes) q.waiters s.open_;
        once = (new, s.once);
        approvals = (approved_iff status, s.approvals);
        decided =
            All-drop (λ r. r.status ≢ pending) _ (q.history ++ r ∷ [])
              (All-append (λ r. r.status ≢ pending) q.history (r ∷ []) s.decided (over, tt));
        bounded = trimmed-bound limit (q.history ++ r ∷ []);
      }

  found-IsNew :
      (id : String) (q : ApprovalQueue) (rs : List ApprovalRecord) (w : ApprovalRecord)
      → All (IsNew q) rs
      → find id rs ≡ some w
      → IsNew q w
  found-IsNew id q [] w h e = absurd (cc)
  found-IsNew id q (r ∷ rs) w (h, hs) e = elim (Bool-cases (r.id == id)) [
    | inl yes_ ↦ let same : some r ≡ some w = rw yes_ at e in let eq : r ≡ w = cc in rw (← eq) h
    | inr no_ ↦ found-IsNew id q rs w hs (rw no_ at e)
  ]

  decide-IsSound :
      (id : String) (yes_ : Bool) (by : String) (remark : Option String) (now : String)
      (q : ApprovalQueue) (r : ApprovalRecord) (q' : ApprovalQueue)
      → decide limit id yes_ by remark now q ≡ inr (r, q')
      → IsSound limit q
      → IsSound limit q'
  unfolding decide
  decide-IsSound id yes_ by remark now q r q' e s = elim (Option-cases (find id q.waiters)) [
    | inl none_ ↦ absurd (cc (rw (none_, decide) at e))
    | inr (w, found) ↦
        let cut = Option-elim remark none (λ s. some (slice_to 500 s)) in
        let same = rw (found, decide) at e in
        let eq : settle limit w (verdict yes_) now by cut q ≡ q' = cc in
        rw (← eq) (
          settle-IsSound w (verdict yes_) now by cut q (verdict-over yes_)
            (found-IsNew id q q.waiters w s.open_ found) s)
  ]

  expire-IsSound :
      (id now : String) (q : ApprovalQueue)
      → IsSound limit q
      → IsSound limit (expire limit id now q)
  unfolding expire
  expire-IsSound id now q s = elim (Option-cases (find id q.waiters)) [
    | inl none_ ↦ rw (none_, expire) s
    | inr (w, found) ↦
        rw (found, expire)
          (settle-IsSound w expired now "janus-core" _ q (λ e. cc)
            (found-IsNew id q q.waiters w s.open_ found) s)
  ]

  cancel_all-IsSound :
      (run_id by now : String) (ws : List ApprovalRecord) (q : ApprovalQueue) (n : ℕ)
      → Apart ws
      → All (IsNew q) ws
      → IsSound limit q
      → IsSound limit (cancel_all limit run_id by now ws (q, n)).0
  unfolding cancel_all
  cancel_all-IsSound run_id by now [] q n a h s = s
  cancel_all-IsSound run_id by now (w ∷ ws) q n (a, as') (h, hs) s =
      elim (Bool-cases (w.input.run_id == run_id)) [
        | inl yes_ ↦
            rw (yes_, cancel_all)
              (cancel_all-IsSound run_id by now ws _ (n + 1) as' (others_new w q ws a hs) (
                settle-IsSound w cancelled now by (some "La ejecución fue cancelada.") q (λ e. cc) h
                  s))
        | inr no_ ↦ rw (no_, cancel_all) (cancel_all-IsSound run_id by now ws q n as' hs s)
      ]

  cancel_run-IsSound :
      (run_id by now : String) (q : ApprovalQueue)
      → IsSound limit q
      → IsSound limit (cancel_run limit run_id by now q).0
  unfolding cancel_run
  cancel_run-IsSound run_id by now q s =
      cancel_all-IsSound run_id by now q.waiters q 0 s.apart s.open_ s

  Step-IsSound : {q q' : ApprovalQueue} → Step limit q q' → IsSound limit q → IsSound limit q'
  Step-IsSound (requests id now expiry input q fresh new) s =
      request-IsSound id now expiry input q fresh new s
  Step-IsSound (decides id yes_ by remark now q r q' e) s =
      decide-IsSound id yes_ by remark now q r q' e s
  Step-IsSound (expires id now q) s = expire-IsSound id now q s
  Step-IsSound (cancels run_id by now q) s = cancel_run-IsSound run_id by now q s

  -- In every queue that calls of `request`, `decide` and `cancelRun` and the timers can reach, each
  -- request was settled at most once; one that still waits is pending and was never settled; an
  -- outcome is approving exactly when its status is `approved`; the history holds settled records
  -- only, at most as many as its limit.
  pub Reachable-IsSound : {q : ApprovalQueue} → Reachable limit q → IsSound limit q
  Reachable-IsSound start = record {
    waiting = tt;
    apart = tt;
    open_ = tt;
    once = tt;
    approvals = tt;
    decided = tt;
    bounded = omega arith;
  }
  Reachable-IsSound (next r s) = Step-IsSound s (Reachable-IsSound r)
