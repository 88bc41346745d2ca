-- ===== src/Effort.antt =====
-- packages/core/src/effort-policy.ts: how much work a command is given.
pub mod Decide
pub mod Floor
use janus_core.Base.{ℕ, String, Bool, true, false, Option, List, [], ◌∷◌}

pub data EffortLevel : Type 0 where
  eco normal profundo maximo : EffortLevel

pub data EffortRequest : Type 0 where
  auto : EffortRequest
  chosen : EffortLevel → EffortRequest

pub data RiskLevel : Type 0 where
  low high critical : RiskLevel

pub data ComplexityLevel : Type 0 where
  low_complexity medium_complexity high_complexity : ComplexityLevel

pub data EffortSource : Type 0 where
  by_founder by_auto : EffortSource

pub record EffortBudget : Type 0 where
  pub max_model_calls : ℕ
  pub max_plan_steps : ℕ
  pub verification_passes : ℕ
  pub parallel_agents : ℕ
  pub reviewers : ℕ
  pub fresh_research : Bool

pub record EffortInput : Type 0 where
  pub text_ : String
  pub requested : Option String
  pub cost_sensitive : Bool
  pub sensitive_command : Bool

pub record EffortDecision : Type 0 where
  pub policy_version : String
  pub requested : EffortRequest
  pub level : EffortLevel
  pub source : EffortSource
  pub risk : RiskLevel
  pub complexity : ComplexityLevel
  pub raised_by_risk : Bool
  pub requires_confirmation : Bool
  pub budget : EffortBudget
  pub reasons : List String

abbrev pub budgets : EffortLevel → EffortBudget
budgets eco = record {
  max_model_calls = 1;
  max_plan_steps = 8;
  verification_passes = 0;
  parallel_agents = 0;
  reviewers = 0;
  fresh_research = false;
}
budgets normal = record {
  max_model_calls = 3;
  max_plan_steps = 20;
  verification_passes = 1;
  parallel_agents = 1;
  reviewers = 1;
  fresh_research = false;
}
budgets profundo = record {
  max_model_calls = 8;
  max_plan_steps = 20;
  verification_passes = 2;
  parallel_agents = 3;
  reviewers = 3;
  fresh_research = true;
}
budgets maximo = record {
  max_model_calls = 20;
  max_plan_steps = 30;
  verification_passes = 3;
  parallel_agents = 6;
  reviewers = 6;
  fresh_research = true;
}

abbrev pub critical_terms : List String
critical_terms =
    "transferir" ∷ "transferencia" ∷ "pagar" ∷ "pago" ∷ "borrar todo" ∷ "eliminar todo"
    ∷ "formatear" ∷ "irreversible" ∷ "wire" ∷ "drop table" ∷ "rm -rf" ∷ "force push"
    ∷ "publicar en produccion" ∷ "publica en produccion" ∷ "a produccion" ∷ "to production"
    ∷ "enviar dinero" ∷ "vaciar" ∷ "revocar acceso" ∷ "eliminar cuenta" ∷ "delete account" ∷ []

abbrev pub high_terms : List String
high_terms =
    "borrar" ∷ "borra " ∷ "borrad" ∷ "eliminar" ∷ "elimina " ∷ "delete" ∷ "publicar" ∷ "publica "
    ∷ "publish" ∷ "deploy" ∷ "despliega" ∷ "desplegar" ∷ "produccion" ∷ "enviar correo"
    ∷ "enviar email" ∷ "enviar mensaje" ∷ "envia un correo" ∷ "envia el correo" ∷ "envia correo"
    ∷ "envia un mensaje" ∷ "envia email" ∷ "send email" ∷ "firmar" ∷ "contrato" ∷ "legal"
    ∷ "impuesto" ∷ "factura" ∷ "contrasena" ∷ "password" ∷ "secreto" ∷ "secret" ∷ "token"
    ∷ "permiso" ∷ "migracion" ∷ "merge" ∷ "fusionar" ∷ "cancelar suscripcion" ∷ "comprar"
    ∷ "reservar" ∷ []

abbrev pub complex_terms : List String
complex_terms =
    "arquitectura" ∷ "refactor" ∷ "auditoria" ∷ "audita" ∷ "investiga" ∷ "compara" ∷ "diseña"
    ∷ "disena" ∷ "plan" ∷ "estrategia" ∷ "integra" ∷ "integracion" ∷ "migra" ∷ "analiza"
    ∷ "implementa" ∷ "depura" ∷ "debug" ∷ "seguridad" ∷ "multi" ∷ "varios" ∷ "cada uno"
    ∷ "paso a paso" ∷ "end to end" ∷ "de principio a fin" ∷ "workflow" ∷ "pipeline" ∷ []

abbrev pub fresh_terms : List String
fresh_terms =
    "hoy" ∷ "actual" ∷ "ultima version" ∷ "ultimas" ∷ "noticias" ∷ "precio" ∷ "cotizacion"
    ∷ "novedades" ∷ "vigente" ∷ "latest" ∷ "current" ∷ "today" ∷ "news" ∷ "price" ∷ []
