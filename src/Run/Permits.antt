-- ===== src/Run/Permits.antt =====
-- What has been checked when `assertCanExecute` returns a permit.
use mathlib.Core.Option.{Option-elim}
use janus_core.Base.{
  String, ◌≡◌, refl, sym, ap, Bool, true, false, not, ◌&&◌, Option, none, some, List, [], ◌∷◌,
  arith, if◌then◌else◌, string_eq, number_eq, has,
}
use janus_core.Authority.{AuthorityDecision}
use janus_core.Run.Types.{
  running, waiting_approval, authority_evaluated, approval_required, core, system, ObservableAction,
  Control, Options, Runner, run_cancelled_error, Approval, decided, handler_threw,
  ActionExecutionPermit, RunSnapshot, snapshot, Result, done, thrown, waiting, Exec, chain, pure,
}
use janus_core.Run.Emit.{apply_all, interrupted, turn, emit}
use janus_core.Run.Authorize.{
  wait_while_paused, checkpoint, block_run, deny, demand_confirmation, authorize, seek_approval,
  answer, consult, request_approval, is_stopped, permit_of, confirmed_actions, clearance,
  assert_can_execute, operation_of, is_privileged_action, decision_for,
}

pub >>=-eq-done :
    {A B : Type 0} (m : Result A) (k : A → Exec B) {b : B} {r' : Runner}
    → chain m k ≡ done b r'
    → (a : A) × (r : Runner) × (m ≡ done a r) × (k a r ≡ done b r')
>>=-eq-done (done a r) k h = (a, r, refl, h)
>>=-eq-done (thrown f r) k h = absurd (cc)
>>=-eq-done (waiting r) k h = absurd (cc)

module _ (o : Options) where
  -- The decision of the authority on a privileged action lets it pass, confirmed where it asks.
  pub record IsCleared (a : ObservableAction) (permit : ActionExecutionPermit) : Type 0 where
    pub allowed : (decision_for o (operation_of a)).allowed ≡ true
    pub confirmed :
        (decision_for o (operation_of a)).requires_confirmation ≡ true
        → has (operation_of a) (confirmed_actions o) ≡ true
    pub permit_hash :
        permit.authority_decision_hash ≡ some (decision_for o (operation_of a)).audit_hash

  -- The handler was asked about this action and said yes.
  abbrev pub IsApprovedBy : ObservableAction → Type 0
  IsApprovedBy a =
      (handler : ObservableAction → RunSnapshot → Approval) × (seen : RunSnapshot) × (why : Option
        String)
      × (o.approval_handler ≡ some handler)
      × (handler a seen ≡ decided true why)

  module _ {p : ActionExecutionPermit} {r' : Runner} where
    deny-ne-done :
        (a : ObservableAction) (d : AuthorityDecision) (r : Runner) → ¬ (deny o a d r ≡ done p r')
    unfolding deny
    deny-ne-done a d r h =
        let (_, r1, _, k) =
          >>=-eq-done (block_run o "Autoridad insuficiente para acción privilegiada" _ r) _ h in
        cc k

    demand-ne-done :
        (a : ObservableAction) (d : AuthorityDecision) (r : Runner)
        → ¬ (demand_confirmation o a d r ≡ done p r')
    unfolding demand_confirmation
    demand-ne-done a d r h =
        let (_, r1, _, k) =
          >>=-eq-done (emit o approval_required _ _ core (record r { status = waiting_approval })) _
            h in
        let (_, r2, _, k') =
          >>=-eq-done (block_run o "La acción requiere confirmación explícita de autoridad" _ r1) _
            k in
        cc k'

    -- The end of `authorize`, by the two tests.
    choice_done :
        (allowed unconfirmed : Bool) (a : ObservableAction) (d : AuthorityDecision) (r : Runner)
        → (if not allowed
              then deny o a d
              else if unconfirmed
              then demand_confirmation o a d
              else pure (permit_of o d))
            r
          ≡ done p r'
        → (allowed ≡ true) × (unconfirmed ≡ false) × (p ≡ permit_of o d)
    choice_done false unconfirmed a d r h = absurd (deny-ne-done a d r h)
    choice_done true true a d r h = absurd (demand-ne-done a d r h)
    choice_done true false a d r h = let same : permit_of o d ≡ p = cc in (refl, refl, sym same)

  authorize-IsCleared :
      (a : ObservableAction) (r : Runner) (p : ActionExecutionPermit) (r' : Runner)
      → authorize o a (decision_for o (operation_of a)) r ≡ done p r'
      → IsCleared a p
  unfolding authorize
  authorize-IsCleared a r p r' h =
      let d = decision_for o (operation_of a) in
      let (_, r1, _, k) = >>=-eq-done (emit o authority_evaluated _ _ system r) _ h in
      let (allowed, confirmed, same) =
        choice_done d.allowed
          (d.requires_confirmation && not (has (operation_of a) (confirmed_actions o))) a d r1 k in
      record {
        allowed = allowed;
        confirmed = λ needs. ground arith;
        permit_hash = ap (λ (x : ActionExecutionPermit). x.authority_decision_hash) same;
      }

  clearance-IsCleared :
      (a : ObservableAction) (r : Runner) (p : ActionExecutionPermit) (r' : Runner)
      → clearance o a r ≡ done p r'
      → is_privileged_action a o.authority_policy ≡ true
      → IsCleared a p
  unfolding clearance
  clearance-IsCleared a r p r' h privileged =
      authorize-IsCleared a r p r' (rw (privileged, if◌then◌else◌) at h)

  consult-IsApprovedBy :
      (a : ObservableAction) (handler : Option (ObservableAction → RunSnapshot → Approval))
      (r : Runner) (u : Unit) (r' : Runner)
      → o.approval_handler ≡ handler
      → consult o a handler r ≡ done u r'
      → IsApprovedBy a
  consult-IsApprovedBy a none r u r' e h =
      let (_, r1, _, k) =
        >>=-eq-done (block_run o "No hay manejador de aprobación disponible" _ r) _ h in
      absurd (cc k)
  consult-IsApprovedBy a (some handler) r u r' e h = said (handler a (snapshot o r)) refl h
    where
      said :
          (x : Approval)
          → handler a (snapshot o r) ≡ x
          → answer o a x (interrupted o r) ≡ done u r'
          → IsApprovedBy a
      said (decided true why) q k = (handler, snapshot o r, why, e, q)
      said (decided false why) q k =
          let (_, r1, _, k') =
            >>=-eq-done
              (block_run o (Option-elim why "Acción no aprobada" (λ s. s)) _ (interrupted o r)) _
              k in
          absurd (cc k')
      said (handler_threw m) q k = absurd (cc k)

  sought-IsApprovedBy :
      (needs : Bool) (a : ObservableAction) (p : ActionExecutionPermit) (r : Runner) (u : Unit)
      (r' : Runner)
      → (if needs then request_approval o a p else pure tt) r ≡ done u r'
      → needs ≡ true
      → IsApprovedBy a
  sought-IsApprovedBy false a p r u r' h e = absurd (cc)
  sought-IsApprovedBy true a p r u r' h e =
      let (_, r1, _, k) =
        >>=-eq-done (emit o approval_required _ _ core (record r { status = waiting_approval })) _
          h in
      consult-IsApprovedBy a o.approval_handler r1 u r' refl k

  seek-IsApprovedBy :
      (a : ObservableAction) (p : ActionExecutionPermit) (r : Runner) (u : Unit) (r' : Runner)
      → seek_approval o a p r ≡ done u r'
      → a.requires_approval ≡ true
      → IsApprovedBy a
  unfolding seek_approval
  seek-IsApprovedBy a p r u r' h needs = sought-IsApprovedBy a.requires_approval a p r u r' h needs

  -- Neither paused nor stopped.
  pub record IsLive (r : Runner) : Type 0 where
    pub unpaused : r.is_paused ≡ false
    pub unstopped : is_stopped r ≡ false

  abbrev Returns : (Runner → Type 0) → Result (Unit {0}) → Type 0
  Returns P (done u r) = P r
  Returns P (thrown f r) = Unit
  Returns P (waiting r) = Unit

  wait-IsLive :
      (slots : List (List Control)) (r : Runner)
      → is_stopped r ≡ false
      → Returns IsLive (wait_while_paused slots o r)
  unfolding wait_while_paused
  wait-IsLive [] r s = go r.is_paused refl
    where
      go :
          (b : Bool)
          → r.is_paused ≡ b
          → Returns IsLive (elim b [ true ↦ waiting r | false ↦ done tt r ])
      go true e = tt
      go false e = record { unpaused = e; unstopped = s }
  wait-IsLive (calls ∷ later) r s =
      let next = apply_all o calls (record r { schedule = later }) in
      paused_ next r.is_paused refl (λ k. wait-IsLive later next k)
    where
      stopped_ :
          (next : Runner) (b : Bool)
          → is_stopped next ≡ b
          → (is_stopped next ≡ false → Returns IsLive (wait_while_paused later o next))
          → Returns IsLive (elim b [
            | true ↦ thrown run_cancelled_error next
            | false ↦ wait_while_paused later o next
          ])
      stopped_ next true e k = tt
      stopped_ next false e k = k e

      paused_ :
          (next : Runner) (b : Bool)
          → r.is_paused ≡ b
          → (is_stopped next ≡ false → Returns IsLive (wait_while_paused later o next))
          → Returns IsLive (elim b [
            | false ↦ done tt r
            | true ↦ elim (is_stopped next) [
              | true ↦ thrown run_cancelled_error next
              | false ↦ wait_while_paused later o next
            ]
          ])
      paused_ next true e k = stopped_ next (is_stopped next) refl k
      paused_ next false e k = record { unpaused = e; unstopped = s }

  -- What outside calls of one turn have made of a live runner.
  abbrev pub WasLive : Runner → Type 0
  WasLive r = (s : Runner) × (IsLive s) × (r ≡ interrupted o s)

  turn-WasLive : (m : Result (Unit {0})) → Returns IsLive m → Returns WasLive (turn o m)
  turn-WasLive (done u r) h = (r, h, refl)
  turn-WasLive (thrown f r) h = tt
  turn-WasLive (waiting r) h = tt

  checkpoint-WasLive : (r : Runner) → Returns WasLive (checkpoint o r)
  unfolding checkpoint
  checkpoint-WasLive r = turn-WasLive _ (go (is_stopped r) refl)
    where
      go :
          (b : Bool)
          → is_stopped r ≡ b
          → Returns IsLive
              (if b then thrown run_cancelled_error r else wait_while_paused r.schedule o r)
      go true e = tt
      go false e = wait-IsLive r.schedule r e

  -- What a permit stands for. The last part is of the last test before it is returned.
  pub record IsGranted (a : ObservableAction) (permit : ActionExecutionPermit) (r : Runner)
      : Type 0 where
    pub cleared : is_privileged_action a o.authority_policy ≡ true → IsCleared a permit
    pub approved : a.requires_approval ≡ true → IsApprovedBy a
    pub live : WasLive r

  -- A permit is returned only for an action that the authority allows, if it is privileged, with
  -- the confirmation that the decision asks for and the decision's digest in the permit; that the
  -- approval handler approved, if it requires approval; and where the run was neither paused nor
  -- cancelled at the last test, after which only the outside calls of one turn came.
  pub assert_can_execute-IsGranted :
      (a : ObservableAction) (r : Runner) (permit : ActionExecutionPermit) (r' : Runner)
      → assert_can_execute o a r ≡ done permit r'
      → IsGranted a permit r'
  unfolding assert_can_execute
  assert_can_execute-IsGranted a r permit r' h =
      let (_, r1, _, k1) = >>=-eq-done (checkpoint o r) _ h in
      let (p, r2, cleared, k2) = >>=-eq-done (clearance o a r1) _ k1 in
      let (u, r3, sought, k3) = >>=-eq-done (seek_approval o a p r2) _ k2 in
      let now : Runner = record r3 { status = running } in
      let (v, r4, checked, k4) = >>=-eq-done (checkpoint o now) _ k3 in
      let same_p : p ≡ permit = cc in
      let same_r : r4 ≡ r' = cc in
      rw (← same_p, ← same_r)
        (record {
          cleared = λ e. clearance-IsCleared a r1 p r2 cleared e;
          approved = λ e. seek-IsApprovedBy a p r2 u r3 sought e;
          live = rw checked at (checkpoint-WasLive now);
        })
