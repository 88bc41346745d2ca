-- ===== src/Run/Gated.antt =====
-- `emit` with the gate, against a predicate on the log.
use janus_core.Base.{
  ℕ, String, ◌≡◌, refl, sym, ap, ◌∙◌, inl, inr, Bool, true, Option, none, some, List, [], ◌∷◌,
  Bool-cases, ◌==◌, string_eq, number_eq, eq_of_==,
}
use janus_core.Run.Types.{
  EventType, quality_started, quality_passed, quality_failed, artifact_updated, EventSource, system,
  Value, findings, reviews, text, texts, Payload, JanusEvent, Options, Runner, Result, done, thrown,
  waiting, Exec, chain, ◌>>=◌, pure,
}
use janus_core.Delivery.{Outcome, DeliveryGate, DeliveryGateResult, DeliveryArtifact, evaluate}
use janus_core.Delivery
use janus_core.Run.Emit.{
  interrupted, emit_plain, deliver, submit, gated, emit_artifact, reviewed_dimensions, emit, get,
  put, nonblank, content_of, artifact_of, last_checked, mark, next_event,
}
use janus_core.Run.Invariant.{
  After, Keeps, IsAllowed, IsKept, Holds, interrupted-Holds, pushed-Keeps, emit_plain-Keeps,
}

get-put_other :
    (payload : Payload) (v : Value)
    → get "preview" (put "qualityGate" v payload) ≡ get "preview" payload
get-put_other [] v = refl
get-put_other ((k, w) ∷ rest) v = elim (Bool-cases (k == "qualityGate")) [
  | inl same ↦ rw (same, eq_of_== k "qualityGate" same)
  | inr other ↦ rw (other, get-put_other rest v)
]

-- As `After`, with a property of the value where there is one.
abbrev pub Yields : {A : Type 0} → (A → Type 0) → (Runner → Type 0) → Result A → Type 0
Yields Q P (done a r) = Q a × P r
Yields Q P (thrown f r) = P r
Yields Q P (waiting r) = P r

module _ (P : Runner → Type 0) where
  pub chain-Yields :
      {A B : Type 0} (Q : A → Type 0) (m : Result A) (k : A → Exec B)
      → Yields Q P m
      → ((a : A) (r : Runner) → Q a → P r → After P (k a r))
      → After P (chain m k)
  chain-Yields Q (done a r) k (q, h) f = f a r q h
  chain-Yields Q (thrown e r) k h f = h
  chain-Yields Q (waiting r) k h f = h

  then-Yields :
      {A B : Type 0} (Q : B → Type 0) (m : Result A) (k : A → Exec B)
      → After P m
      → ((a : A) (r : Runner) → P r → Yields Q P (k a r))
      → Yields Q P (chain m k)
  then-Yields Q (done a r) k h f = f a r h
  then-Yields Q (thrown e r) k h f = h
  then-Yields Q (waiting r) k h f = h

module _ (o : Options) (P : ℕ → List JanusEvent → Bool → Type 0) (kept : IsKept o P) where
  abbrev State : Runner → Type 0
  State = Holds o P kept

  -- A payload that may go out as an artifact.
  abbrev Deliverable : String → Payload → Type 0
  Deliverable summary payload =
      (source : EventSource) (r : Runner)
      → IsAllowed o (next_event o artifact_updated summary payload source r)

  mark-Yields :
      (id summary : String) (payload : Payload) (at : Option String) (r : Runner)
      → ((v : Value) → Deliverable summary (put "qualityGate" v payload))
      → State r
      → Yields
          (Deliverable summary)
          State
          ((mark o id at >>= λ v. pure (put "qualityGate" v payload)) r)
  mark-Yields id summary payload none r d h = (d _, h)
  mark-Yields id summary payload (some at) r d h = (d _, h)

  deliver-Yields :
      (gate : DeliveryGate) (artifact : DeliveryArtifact) (summary : String) (payload : Payload)
      (res : Outcome DeliveryGateResult) (r : Runner)
      → o.delivery_gate ≡ some gate
      → evaluate gate artifact ≡ res
      → artifact.content ≡ content_of summary payload
      → State r
      → Yields (Deliverable summary) State (deliver o artifact payload res r)
  unfolding deliver
  deliver-Yields gate artifact summary payload (Delivery.failed e) r g ev c h = h
  deliver-Yields gate artifact summary payload (Delivery.done result) r g ev c h =
      elim (Bool-cases result.passed) [
        | inr bad ↦ rw bad (
            then-Yields State (Deliverable summary)
              (emit_plain o quality_failed "La entrega fue detenida por Quality Gate"
                (("artifactId", text artifact.id)
                  ∷ ("findings", findings result.blocking_findings)
                  ∷ [])
                system r)
              _ (emit_plain-Keeps o P kept quality_failed _ _ system (λ e. cc) r h) (λ _ r' h'. h'))
        | inl good ↦ rw good (
            then-Yields State (Deliverable summary)
              (emit_plain o quality_passed "Quality Gate superado"
                (("artifactId", text artifact.id) ∷ ("reviews", reviews result.reviews) ∷ []) system
                r)
              _ (emit_plain-Keeps o P kept quality_passed _ _ system (λ e. cc) r h)
              (λ _ r' h'.
                mark-Yields artifact.id summary payload (last_checked result.reviews) r'
                  (approved good) h'))
      ]
    where
      approved :
          result.passed ≡ true → (v : Value) → Deliverable summary (put "qualityGate" v payload)
      approved good v source r' = record {
        own = refl;
        approved = λ _ gate' g'.
            let same : gate ≡ gate' = cc (sym g ∙ g') in
            rw (← same) (record {
              artifact = artifact;
              result = result;
              evaluated = ev;
              passed = good;
              content = c ∙ sym (ap (λ x. nonblank x summary) (get-put_other payload v));
            });
      }

  submit-Yields :
      (gate : DeliveryGate) (summary : String) (payload : Payload) (r : Runner)
      → o.delivery_gate ≡ some gate
      → State r
      → Yields (Deliverable summary) State (gated o gate summary payload r)
  unfolding submit
  submit-Yields gate summary payload r g h =
      let artifact = artifact_of o summary payload r in
      then-Yields State (Deliverable summary)
        (emit_plain o quality_started "Revisando calidad antes de entregar"
          (("artifactId", text artifact.id) ∷ ("dimensions", texts reviewed_dimensions) ∷ []) system
          r)
        _ (emit_plain-Keeps o P kept quality_started _ _ system (λ e. cc) r h)
        (λ _ r' h'.
          deliver-Yields gate artifact summary payload (evaluate gate artifact) (interrupted o r') g
            refl refl (interrupted-Holds o P kept r' h'))

  emit_artifact-Keeps :
      (g : Option DeliveryGate) (summary : String) (payload : Payload) (source : EventSource)
      → o.delivery_gate ≡ g
      → Keeps State (emit_artifact o g summary payload source)
  emit_artifact-Keeps none summary payload source e r h =
      pushed-Keeps o P kept artifact_updated summary payload source r
        (record { own = refl; approved = λ _ gate g. absurd (cc (sym e ∙ g)) }) h
  emit_artifact-Keeps (some gate) summary payload source e r h =
      chain-Yields State (Deliverable summary) (gated o gate summary payload r) _
        (submit-Yields gate summary payload r e h)
        (λ p r' q h'. pushed-Keeps o P kept artifact_updated summary p source r' (q source r') h')

  pub emit-Keeps :
      (type : EventType) (summary : String) (payload : Payload) (source : EventSource)
      → Keeps State (emit o type summary payload source)
  unfolding emit
  emit-Keeps artifact_updated summary payload source r h =
      emit_artifact-Keeps o.delivery_gate summary payload source refl r h
  emit-Keeps type summary payload source r h =
      emit_plain-Keeps o P kept type summary payload source (λ e. cc) r h
