-- ===== src/Approvals/Once.antt =====
-- A decision and a cancelled run, in the queue of packages/core/src/approval-queue.ts.
use janus_core.Base.{
  ℕ, ◌+◌, String, ◌≡◌, refl, sym, ap, ◌∙◌, inl, inr, Bool, true, false, ◌&&◌, Option, none, some,
  List, [], ◌∷◌, arith, Bool-cases, Option-cases, ◌==◌, string_eq, number_eq, ==_refl, eq_of_==,
  ==_comm, any, keep, All, All-map, slice_to,
}
use mathlib.Core.Option.{Option-elim}
use janus_core.Approvals.{
  ApprovalRecord, ApprovalOutcome, ApprovalQueue, find, remove, settled_record, outcome_of, settle,
  refuse, decide, cancel_all, cancel_run, verdict, is_approved,
}

find-id :
    (id : String) (rs : List ApprovalRecord) (w : ApprovalRecord) → find id rs ≡ some w → w.id ≡ id
find-id id [] w e = absurd (cc)
find-id id (r ∷ rs) w e = elim (Bool-cases (r.id == id)) [
  | inl yes_ ↦
      let same : some r ≡ some w = rw yes_ at e in
      let eq : r ≡ w = cc in ap (λ v. v.id) (sym eq) ∙ eq_of_== r.id id yes_
  | inr no_ ↦ find-id id rs w (rw no_ at e)
]

find-remove : (id : String) (rs : List ApprovalRecord) → find id (remove id rs) ≡ none
find-remove id [] = refl
find-remove id (r ∷ rs) = elim (Bool-cases (r.id == id)) [
  | inl yes_ ↦ rw yes_ (find-remove id rs)
  | inr no_ ↦ rw (no_, no_) (find-remove id rs)
]

verdict-approved : (b : Bool) → is_approved (verdict b) ≡ b
verdict-approved true = refl
verdict-approved false = refl

-- What a decision that is accepted leaves: the record has the status decided, the promise resolves
-- to that decision, and the request waits no longer.
pub record IsSettled (id : String) (yes_ : Bool) (r : ApprovalRecord) (q q' : ApprovalQueue)
    : Type 0 where
  pub named : r.id ≡ id
  pub judged : r.status ≡ verdict yes_
  pub resolved :
      (o : ApprovalOutcome) × (q'.outcomes ≡ o ∷ q.outcomes) × (o.approved ≡ yes_) × (o.settled ≡ r)
  pub gone : find id q'.waiters ≡ none

module _ (limit : ℕ) (id : String) where
  decide_gone :
      (yes_ : Bool) (by : String) (remark : Option String) (now : String) (q : ApprovalQueue)
      → find id q.waiters ≡ none
      → decide limit id yes_ by remark now q ≡ inl (refuse (find id q.history))
  unfolding decide
  decide_gone yes_ by remark now q h = rw (h, decide)

  -- A decision that is accepted settles the request it names, as approved exactly when it says so;
  -- and every later decision on that request, on the queue it leaves, is an error.
  pub decide-once :
      (yes_ : Bool) (by : String) (remark : Option String) (now : String) (q : ApprovalQueue)
      (r : ApprovalRecord) (q' : ApprovalQueue)
      → decide limit id yes_ by remark now q ≡ inr (r, q')
      → IsSettled id yes_ r q q'
        × ((again : Bool) (by' : String) (remark' : Option String) (now' : String)
            → decide limit id again by' remark' now' q' ≡ inl (refuse (find id q'.history)))
  unfolding decide settle
  decide-once yes_ by remark now q r q' e = elim (Option-cases (find id q.waiters)) [
    | inl none_ ↦ absurd (cc (rw (none_, decide) at e))
    | inr (w, found) ↦
        let cut = Option-elim remark none (λ s. some (slice_to 500 s)) in
        let same = rw (found, decide) at e in
        let eq_q : settle limit w (verdict yes_) now by cut q ≡ q' = cc in
        let eq_r : settled_record w (verdict yes_) now by cut ≡ r = cc in
        let name = find-id id q.waiters w found in
        let left : find id (settle limit w (verdict yes_) now by cut q).waiters ≡ none =
          rw name (find-remove id q.waiters) in
        rw (← eq_q, ← eq_r)
          (
            record {
              named = name;
              judged = refl;
              resolved = (
                outcome_of (verdict yes_) cut (settled_record w (verdict yes_) now by cut),
                refl,
                verdict-approved yes_,
                refl,
              );
              gone = left;
            },
            λ again by' remark' now'.
                decide_gone again by' remark' now' (settle limit w (verdict yes_) now by cut q)
                  left,
          )
  ]

module _ (limit : ℕ) (run_id by now : String) where
  abbrev of_run : ApprovalRecord → Bool
  of_run r = r.input.run_id == run_id

  -- A waiter of the run that the loop has still to meet.
  abbrev IsDue : List ApprovalRecord → ApprovalRecord → Type 0
  IsDue ws r = of_run r ≡ true → any (λ w. (w.id == r.id) && of_run w) ws ≡ true

  IsDue-after :
      (w : ApprovalRecord) (ws rs : List ApprovalRecord)
      → All (IsDue (w ∷ ws)) rs
      → All (IsDue ws) (remove w.id rs)
  IsDue-after w ws [] h = tt
  IsDue-after w ws (r ∷ rs) (h, hs) = elim (Bool-cases (r.id == w.id)) [
    | inl yes_ ↦ rw yes_ (IsDue-after w ws rs hs)
    | inr no_ ↦ rw no_ (λ k. rw (==_comm w.id r.id, no_) at (h k), IsDue-after w ws rs hs)
  ]

  IsDue-other :
      (w : ApprovalRecord) (ws rs : List ApprovalRecord)
      → of_run w ≡ false
      → All (IsDue (w ∷ ws)) rs
      → All (IsDue ws) rs
  IsDue-other w ws [] e h = tt
  IsDue-other w ws (r ∷ rs) e (h, hs) = (λ k. ground (arith, h k), IsDue-other w ws rs e hs)

  not_due : (rs : List ApprovalRecord) → All (IsDue []) rs → All (λ r. of_run r ≡ false) rs
  not_due [] h = tt
  not_due (r ∷ rs) (h, hs) = (ground (arith, h), not_due rs hs)

  IsDue-all : (rs : List ApprovalRecord) → All (IsDue rs) rs
  IsDue-all [] = tt
  IsDue-all (r ∷ rs) = (
    λ k. rw (==_refl r.id, k) refl,
    All-map (IsDue rs) (IsDue (r ∷ rs)) (λ s h k. ground (arith, h k)) rs (IsDue-all rs),
  )

  cancel_all-clears :
      (ws : List ApprovalRecord) (q : ApprovalQueue) (n : ℕ)
      → All (IsDue ws) q.waiters
      → All (λ r. of_run r ≡ false) (cancel_all limit run_id by now ws (q, n)).0.waiters
  unfolding cancel_all settle
  cancel_all-clears [] q n h = not_due q.waiters h
  cancel_all-clears (w ∷ ws) q n h = elim (Bool-cases (w.input.run_id == run_id)) [
    | inl yes_ ↦
        rw (yes_, cancel_all) (cancel_all-clears ws _ (n + 1) (IsDue-after w ws q.waiters h))
    | inr no_ ↦ rw (no_, cancel_all) (cancel_all-clears ws q n (IsDue-other w ws q.waiters no_ h))
  ]

  cancel_all-approves :
      (ws : List ApprovalRecord) (q : ApprovalQueue) (n : ℕ)
      → keep (λ o. o.approved) (cancel_all limit run_id by now ws (q, n)).0.outcomes
        ≡ keep (λ o. o.approved) q.outcomes
  unfolding cancel_all settle
  cancel_all-approves [] q n = refl
  cancel_all-approves (w ∷ ws) q n = elim (Bool-cases (w.input.run_id == run_id)) [
    | inl yes_ ↦ rw (yes_, cancel_all) (cancel_all-approves ws _ (n + 1))
    | inr no_ ↦ rw (no_, cancel_all) (cancel_all-approves ws q n)
  ]

  -- After a run is cancelled none of its requests waits, and no request has been approved by it: the
  -- approving outcomes are those from before.
  pub cancel_run-clears :
      (q : ApprovalQueue)
      → All (λ r. (r.input.run_id == run_id) ≡ false) (cancel_run limit run_id by now q).0.waiters
        × (keep (λ o. o.approved) (cancel_run limit run_id by now q).0.outcomes
            ≡ keep (λ o. o.approved) q.outcomes)
  unfolding cancel_run
  cancel_run-clears q =
      (cancel_all-clears q.waiters q 0 (IsDue-all q.waiters), cancel_all-approves q.waiters q 0)
