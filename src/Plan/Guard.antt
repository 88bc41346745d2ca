-- ===== src/Plan/Guard.antt =====
-- packages/orchestrator/src/sensitive-action-policy.ts: the guard between planning and execution.
use janus_core.Base.{
  String, Bool, true, false, Option, none, some, List, [], ◌∷◌, map, if◌then◌else◌, number_eq,
  string_eq, ◌==◌, each,
}
use Prim.Native.String
use janus_core.Plan.{PlannedRisk, high, PlannedToolStep, JanusPlan}

-- `SENSITIVE_TOOL_ACTIONS`
abbrev pub sensitive_tool_actions : List (String × String)
sensitive_tool_actions =
    ("asana.task.create", "Crea una tarea en Asana (escritura externa).")
    ∷ ("runway.image.create", "Genera una imagen en Runway (gasta créditos).")
    ∷ ("runway.video.create", "Genera un vídeo en Runway (gasta créditos).")
    ∷ ("github.file.publish", "Publica un archivo en GitHub (escritura externa).")
    ∷ (
      "netlify-release.deploy.restore",
      "Cambia la versión publicada de un sitio en Netlify (producción).",
    )
    ∷ ("kling.video.create", "Genera un vídeo en Kling AI (gasta créditos).")
    ∷ (
      "supabase-write.migration.apply",
      "Aplica una migración en una base de datos de Supabase (cambia el esquema).",
    )
    ∷ (
      "supabase-write.sql.execute",
      "Ejecuta SQL en una base de datos de Supabase (escritura; no devuelve datos de clientes).",
    )
    ∷ (
      "vercel-release.deployment.redeploy",
      "Redespliega un proyecto en Vercel (puede cambiar producción).",
    )
    ∷ (
      "hostinger-release.site.deploy",
      "Publica o reemplaza el contenido de una web en Hostinger (cambia un sitio en vivo).",
    )
    ∷ ("n8n.workflow.trigger", "Dispara un flujo de n8n (acción externa).")
    ∷ (
      "http.request.send",
      "Envía datos a un sistema externo por HTTP (POST/PUT/PATCH/DELETE; escritura externa).",
    )
    ∷ (
      "google-workspace-write.gmail.draft.create",
      "Crea un borrador en Gmail (escritura en tu correo; no se envía).",
    )
    ∷ (
      "google-workspace-write.calendar.event.create",
      "Crea un evento en Google Calendar (escritura en tu agenda).",
    )
    ∷ (
      "google-workspace-write.gmail.draft.update",
      "Corrige un borrador de Gmail (escritura en tu correo; no se envía).",
    )
    ∷ (
      "google-workspace-write.gmail.draft.send",
      "ENVÍA un correo desde tu cuenta (irreversible: el destinatario lo recibe).",
    )
    ∷ (
      "whatsapp.message.send",
      "ENVÍA un mensaje de WhatsApp en tu nombre (irreversible: el destinatario lo recibe).",
    )
    ∷ (
      "whatsapp.template.send",
      "ENVÍA una plantilla de WhatsApp en tu nombre (irreversible; puede tener coste por mensaje).",
    )
    ∷ ("sms.message.send", "ENVÍA un SMS en tu nombre (irreversible; puede tener coste).")
    ∷ (
      "phone.call.place",
      "REALIZA una llamada telefónica en tu nombre (coste y efecto inmediato sobre un tercero).",
    )
    ∷ (
      "phone.call.answer.profile.activate",
      "Activa un perfil para que Janus conteste llamadas en tu nombre (se identifica como asistente de IA).",
    )
    ∷ []

abbrev pub lookup : String → List (String × String) → Option String
lookup key [] = none
lookup key ((k, v) ∷ rest) = if key == k then some v else lookup key rest

pub record SensitiveActionReport : Type 0 where
  pub step_id : String
  pub operation : String
  pub reason : String
  pub planner_risk : PlannedRisk
  pub planner_required_approval : Bool

abbrev pub operation_of : PlannedToolStep → String
operation_of step = String.◌++◌ step.tool (String.◌++◌ "." step.action)

unfoldable pub sensitive_reason : PlannedToolStep → Option String
sensitive_reason step = lookup (operation_of step) sensitive_tool_actions

-- What the callback of `map` returns, and what it pushes onto `enforced`.
abbrev pub enforced_step : PlannedToolStep → Option String → PlannedToolStep
enforced_step step none = step
enforced_step step (some reason) = record step {
  risk = high;
  reversible = false;
  requires_approval = true;
}

abbrev pub report : PlannedToolStep → Option String → List SensitiveActionReport
report step none = []
report step (some reason) =
    record {
      step_id = step.id;
      operation = operation_of step;
      reason = reason;
      planner_risk = step.risk;
      planner_required_approval = step.requires_approval;
    }
    ∷ []

abbrev pub enforce_step : PlannedToolStep → PlannedToolStep
enforce_step step = enforced_step step (sensitive_reason step)

unfoldable pub enforce_sensitive_action_policy : JanusPlan → JanusPlan × List SensitiveActionReport
enforce_sensitive_action_policy plan = (
  record plan { steps = map enforce_step plan.steps },
  each (λ step. report step (sensitive_reason step)) plan.steps,
)
