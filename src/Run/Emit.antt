-- ===== src/Run/Emit.antt =====
-- `emit` with the delivery gate, and the methods that are called from outside.
use Prim.Native.String
use janus_core.Base.{
  ◌+◌, String, true, false, not, ◌||◌, Option, none, some, List, [], ◌∷◌, map, if◌then◌else◌, ◌==◌,
  string_eq, number_eq, is_blank, decimal,
}
use mathlib.Core.Option.{Option-elim}
use janus_core.Delivery.{
  DeliveryGate, DeliveryGateResult, QualityReview, QualityFinding, ArtifactKind, DeliveryArtifact,
  Outcome, evaluate,
}
use janus_core.Delivery
use janus_core.Run.Types.{
  heard, running, blocked, paused, cancelled, EventType, run_heard, artifact_updated,
  quality_started, quality_passed, quality_failed, run_blocked, run_paused, run_resumed,
  run_cancelled, EventSource, core, system, Value, text, texts, findings, reviews, quality_gate,
  Payload, JanusEvent, Control, hear, pause, cancel, resume, block, Options, Runner, gate_rejected,
  gate_threw, sink_threw, Result, done, thrown, waiting, Exec, ◌>>=◌, ◌>>◌, pure, throw,
  is_cancelled, is_terminal,
}

module _ (o : Options) where
  -- `this.now()`
  abbrev pub read_clock : Runner → Runner
  read_clock r = record r { ticks = r.ticks + 1 }

  abbrev pub next_event : EventType → String → Payload → EventSource → Runner → JanusEvent
  next_event type summary payload source r = record {
    id = o.event_id r.seq;
    run_id = o.run_id;
    seq = r.seq + 1;
    type = type;
    at = o.now r.ticks;
    source = source;
    summary = summary;
    payload = payload;
  }

  -- The end of `emit` up to its await: the event is numbered, stamped and handed to the sink.
  unfoldable pub push : EventType → String → Payload → EventSource → Runner → Runner
  push type summary payload source r = record r {
    seq = r.seq + 1;
    updated_at = o.now r.ticks;
    ticks = r.ticks + 1;
    log = next_event type summary payload source r ∷ r.log;
  }

  -- The public methods up to their await, which is their last act.
  unfoldable pub apply : Control → Runner → Runner
  unfolding push
  apply (hear mode) r =
      push run_heard "Solicitud recibida" (("inputMode", text mode) ∷ []) core
        (record r { status = heard })
  apply (pause why) r =
      if is_terminal r.status
      then r
      else push run_paused why [] core (record r { is_paused = true; status = paused })
  apply resume r =
      if not r.is_paused || is_cancelled r.status
      then r
      else push run_resumed "Ejecución reanudada" [] core
          (record r { is_paused = false; status = running })
  apply (cancel why) r =
      if is_terminal r.status
      then r
      else push run_cancelled why [] core
          (record r { is_paused = false; status = cancelled; aborted = true })
  apply (block why details) r = push run_blocked why details core (record r { status = blocked })

  unfoldable pub apply_all : List Control → Runner → Runner
  apply_all [] r = r
  apply_all (c ∷ cs) r = apply_all cs (apply c r)

  -- An await: the outside calls of the next slot of the schedule are made.
  unfoldable pub interrupted : Runner → Runner
  unfolding apply_all
  interrupted r = elim r.schedule [
    | [] ↦ r
    | calls ∷ later ↦ apply_all calls (record r { schedule = later })
  ]

  abbrev pub await : Exec (Unit {0})
  await r = done tt (interrupted r)

  -- The turn between the end of an async method, by return or throw, and the caller that awaits it.
  abbrev pub turn : {A : Type 0} → Result A → Result A
  turn (done a r) = done a (interrupted r)
  turn (thrown f r) = thrown f (interrupted r)
  turn (waiting r) = waiting r

  abbrev pub sent : Option String → Exec (Unit {0})
  sent none r = done tt r
  sent (some message) r = thrown (sink_threw message) r

  -- `emit` of an event that passes no gate.
  unfoldable pub emit_plain : EventType → String → Payload → EventSource → Exec (Unit {0})
  unfolding push interrupted
  emit_plain type summary payload source r =
      sent (o.sink (next_event type summary payload source r))
        (interrupted (push type summary payload source r))

abbrev pub get : String → Payload → Option Value
get key [] = none
get key ((k, v) ∷ rest) = if k == key then some v else get key rest

-- `{ ...payload, [key]: v }`
abbrev pub put : String → Value → Payload → Payload
put key v [] = (key, v) ∷ []
put key v ((k, w) ∷ rest) =
    let later = put key v rest in if k == key then (k, v) ∷ rest else (k, w) ∷ later

abbrev pub nonblank : Option Value → String → String
nonblank (some (text s)) other_ = if is_blank s then other_ else s
nonblank _ other_ = other_

-- The text that is reviewed, and delivered.
abbrev pub content_of : String → Payload → String
content_of summary payload = nonblank (get "preview" payload) summary

abbrev pub artifact_kind : Option Value → ArtifactKind
artifact_kind (some (text s)) =
    if s == "text"
    then ArtifactKind.text
    else if s == "document"
    then ArtifactKind.document
    else if s == "code"
    then ArtifactKind.code
    else if s == "ui"
    then ArtifactKind.ui
    else if s == "plan"
    then ArtifactKind.plan
    else ArtifactKind.other
artifact_kind _ = ArtifactKind.other

abbrev pub last_checked : List QualityReview → Option String
last_checked [] = none
last_checked (r ∷ []) = some r.checked_at
last_checked (r ∷ s ∷ rs) = last_checked (s ∷ rs)

abbrev pub reviewed_dimensions : List String
reviewed_dimensions =
    "coherence" ∷ "structural" ∷ "visual" ∷ "architectural" ∷ "orthographic" ∷ "synthesis" ∷ []

module _ (o : Options) where
  abbrev pub artifact_id : Payload → Runner → String
  artifact_id payload r = nonblank (get "artifactId" payload) (
      String.◌++◌ o.run_id (
        String.◌++◌ ":" (
          String.◌++◌ (Option-elim r.current_step "artifact" (λ s. s))
            (String.◌++◌ ":" (decimal (r.seq + 1))))))

  abbrev pub artifact_of : String → Payload → Runner → DeliveryArtifact
  artifact_of summary payload r = record {
    id = artifact_id payload r;
    kind = artifact_kind (get "artifactKind" payload);
    content = content_of summary payload;
    metadata = ("runId", some o.run_id) ∷ ("stepId", r.current_step) ∷ [];
  }

  -- The mark `qualityGate`; the clock is read where no review has a time.
  abbrev pub mark : String → Option String → Exec Value
  mark id none = λ r. done (quality_gate id (o.now r.ticks)) (read_clock o r)
  mark id (some at) = pure (quality_gate id at)

  -- The verdict of the gate on the artifact, and the payload that is delivered.
  unfoldable pub deliver : DeliveryArtifact → Payload → Outcome DeliveryGateResult → Exec Payload
  unfolding emit_plain
  deliver artifact payload (Delivery.failed e) = throw (gate_threw e)
  deliver artifact payload (Delivery.done result) = elim result.passed [
    | false ↦ do
      emit_plain o quality_failed "La entrega fue detenida por Quality Gate"
          (("artifactId", text artifact.id) ∷ ("findings", findings result.blocking_findings) ∷ [])
          system
      throw (gate_rejected (map (λ f. f.code) result.blocking_findings))
    | true ↦ do
      emit_plain o quality_passed "Quality Gate superado"
          (("artifactId", text artifact.id) ∷ ("reviews", reviews result.reviews) ∷ []) system
      v ← mark artifact.id (last_checked result.reviews)
      pure (put "qualityGate" v payload)
  ]

  -- The part of `emit` in front of the numbering. The reviewers' awaits are one slot: nothing reads
  -- the runner between them.
  unfoldable pub submit : DeliveryGate → DeliveryArtifact → Payload → Exec Payload
  unfolding deliver interrupted
  submit gate artifact payload = do
    emit_plain o quality_started "Revisando calidad antes de entregar"
        (("artifactId", text artifact.id) ∷ ("dimensions", texts reviewed_dimensions) ∷ []) system
    await o
    deliver artifact payload (evaluate gate artifact)

  abbrev pub gated : DeliveryGate → String → Payload → Exec Payload
  gated gate summary payload r = submit gate (artifact_of summary payload r) payload r

  abbrev pub emit_artifact : Option DeliveryGate → String → Payload → EventSource → Exec (Unit {0})
  emit_artifact none summary payload source = emit_plain o artifact_updated summary payload source
  emit_artifact (some gate) summary payload source = do
    delivered ← gated gate summary payload
    emit_plain o artifact_updated summary delivered source

  unfoldable pub emit : EventType → String → Payload → EventSource → Exec (Unit {0})
  unfolding submit emit_plain
  emit artifact_updated summary payload source =
      emit_artifact o.delivery_gate summary payload source
  emit type summary payload source = emit_plain o type summary payload source
