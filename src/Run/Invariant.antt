-- ===== src/Run/Invariant.antt =====
-- What every method of the runner keeps: a predicate on the last number, the log and the abort flag
-- that an event of the run and an abort keep.
use janus_core.Base.{
  ℕ, ◌+◌, String, ◌≡◌, refl, Bool, true, false, not, ◌||◌, Option, none, some, List, [], ◌∷◌,
  if◌then◌else◌,
}
use janus_core.Run.Types.{
  heard, running, blocked, paused, cancelled, EventType, run_heard, run_paused, run_resumed,
  run_cancelled, artifact_updated, run_blocked, EventSource, core, text, Payload, JanusEvent,
  Control, hear, pause, cancel, resume, block, Options, Runner, Result, done, thrown, waiting, Exec,
  chain, ◌>>=◌, is_cancelled, is_terminal,
}
use janus_core.Delivery.{DeliveryGate, DeliveryGateResult, DeliveryArtifact, evaluate}
use janus_core.Delivery
use janus_core.Run.Emit.{
  push, apply, apply_all, interrupted, sent, emit_plain, content_of, next_event,
}

-- How a method ends, whatever way it ends, in a state of the predicate.
abbrev pub After : (Runner → Type 0) → {A : Type 0} → Result A → Type 0
After P (done a r) = P r
After P (thrown f r) = P r
After P (waiting r) = P r

abbrev pub Keeps : (Runner → Type 0) → {A : Type 0} → Exec A → Type 0
Keeps P m = (r : Runner) → P r → After P (m r)

module _ (P : Runner → Type 0) where
  pub chain-After :
      {A B : Type 0} (m : Result A) (k : A → Exec B)
      → After P m
      → ((a : A) → Keeps P (k a))
      → After P (chain m k)
  chain-After (done a r) k h f = f a r h
  chain-After (thrown e r) k h f = h
  chain-After (waiting r) k h f = h

  pub >>=-Keeps :
      {A B : Type 0} (m : Exec A) (k : A → Exec B)
      → Keeps P m
      → ((a : A) → Keeps P (k a))
      → Keeps P (m >>= k)
  >>=-Keeps m k h f r p = chain-After (m r) k (h r p) f

-- What the gate has approved is what the event delivers.
pub record IsApproved (gate : DeliveryGate) (e : JanusEvent) : Type 0 where
  pub artifact : DeliveryArtifact
  pub result : DeliveryGateResult
  pub evaluated : evaluate gate artifact ≡ Delivery.done result
  pub passed : result.passed ≡ true
  pub content : artifact.content ≡ content_of e.summary e.payload

module _ (o : Options) where
  -- An event of this run, which delivers an artifact only with the gate's approval.
  pub record IsAllowed (e : JanusEvent) : Type 0 where
    pub own : e.run_id ≡ o.run_id
    pub approved :
        e.type ≡ artifact_updated
        → (gate : DeliveryGate) → o.delivery_gate ≡ some gate
        → IsApproved gate e

  pub record IsKept (P : ℕ → List JanusEvent → Bool → Type 0) : Type 0 where
    pub aborts : (n : ℕ) (log : List JanusEvent) (b : Bool) → P n log b → P n log true
    pub admits :
        (n : ℕ) (log : List JanusEvent) (b : Bool) (e : JanusEvent)
        → e.seq ≡ n + 1
        → IsAllowed e
        → P n log b
        → P (n + 1) (e ∷ log) b

  module _ (P : ℕ → List JanusEvent → Bool → Type 0) (kept : IsKept P) where
    abbrev pub Holds : Runner → Type 0
    Holds r = P r.seq r.log r.aborted

    push-Holds :
        (type : EventType) (summary : String) (payload : Payload) (source : EventSource)
        (r : Runner)
        → IsAllowed (next_event o type summary payload source r)
        → Holds r
        → Holds (push o type summary payload source r)
    unfolding push
    push-Holds type summary payload source r a h =
        kept.admits r.seq r.log r.aborted (next_event o type summary payload source r) refl a h

    other-IsAllowed :
        (type : EventType) (summary : String) (payload : Payload) (source : EventSource)
        (r : Runner)
        → ¬ (type ≡ artifact_updated)
        → IsAllowed (next_event o type summary payload source r)
    other-IsAllowed type summary payload source r n = record {
      own = refl;
      approved = λ e. absurd (n e);
    }

    plain-Holds :
        (type : EventType) (summary : String) (payload : Payload) (source : EventSource)
        (r : Runner)
        → ¬ (type ≡ artifact_updated)
        → Holds r
        → Holds (push o type summary payload source r)
    plain-Holds type summary payload source r n =
        push-Holds type summary payload source r (other-IsAllowed type summary payload source r n)

    if-Holds : (b : Bool) (r r' : Runner) → Holds r → Holds r' → Holds (if b then r else r')
    if-Holds true r r' h h' = h
    if-Holds false r r' h h' = h'

    apply-Holds : (c : Control) (r : Runner) → Holds r → Holds (apply o c r)
    unfolding apply
    apply-Holds (hear mode) r h =
        plain-Holds run_heard "Solicitud recibida" (("inputMode", text mode) ∷ []) core
          (record r { status = heard }) (λ e. cc) h
    apply-Holds (pause why) r h =
        let r' = record r { is_paused = true; status = paused } in
        if-Holds (is_terminal r.status) r (push o run_paused why [] core r') h
          (plain-Holds run_paused why [] core r' (λ e. cc) h)
    apply-Holds resume r h =
        let r' = record r { is_paused = false; status = running } in
        if-Holds (not r.is_paused || is_cancelled r.status) r
          (push o run_resumed "Ejecución reanudada" [] core r') h
          (plain-Holds run_resumed "Ejecución reanudada" [] core r' (λ e. cc) h)
    apply-Holds (cancel why) r h =
        let r' = record r { is_paused = false; status = cancelled; aborted = true } in
        if-Holds (is_terminal r.status) r (push o run_cancelled why [] core r') h
          (plain-Holds run_cancelled why [] core r' (λ e. cc) (kept.aborts r.seq r.log r.aborted h))
    apply-Holds (block why details) r h =
        plain-Holds run_blocked why details core (record r { status = blocked }) (λ e. cc) h

    pub apply_all-Holds : (cs : List Control) (r : Runner) → Holds r → Holds (apply_all o cs r)
    unfolding apply_all
    apply_all-Holds [] r h = h
    apply_all-Holds (c ∷ cs) r h = apply_all-Holds cs (apply o c r) (apply-Holds c r h)

    pub interrupted-Holds : (r : Runner) → Holds r → Holds (interrupted o r)
    unfolding interrupted
    interrupted-Holds r h = go r.schedule h
      where
        go :
            (slots : List (List Control))
            → Holds r
            → Holds (elim slots [
              | [] ↦ r
              | calls ∷ later ↦ apply_all o calls (record r { schedule = later })
            ])
        go [] k = k
        go (calls ∷ later) k = apply_all-Holds calls (record r { schedule = later }) k

    sent-Keeps : (m : Option String) → Keeps Holds (sent o m)
    sent-Keeps none r h = h
    sent-Keeps (some message) r h = h

    pub pushed-Keeps :
        (type : EventType) (summary : String) (payload : Payload) (source : EventSource)
        (r : Runner)
        → IsAllowed (next_event o type summary payload source r)
        → Holds r
        → After Holds (emit_plain o type summary payload source r)
    unfolding emit_plain
    pushed-Keeps type summary payload source r a h =
        sent-Keeps (o.sink (next_event o type summary payload source r)) _ (
          interrupted-Holds (push o type summary payload source r)
            (push-Holds type summary payload source r a h))

    pub emit_plain-Keeps :
        (type : EventType) (summary : String) (payload : Payload) (source : EventSource)
        → ¬ (type ≡ artifact_updated)
        → Keeps Holds (emit_plain o type summary payload source)
    emit_plain-Keeps type summary payload source n r h =
        pushed-Keeps type summary payload source r (other-IsAllowed type summary payload source r n)
          h
