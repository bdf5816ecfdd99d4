-- ===== src/Compiler/Actions.antt =====
-- What the compiler of compiler.py is given, by the models of domain.py: an assessment's factors, an
-- objective, and mitigation actions. An assessment's time is left out, a metric is its name, and a set
-- of identifiers is a list.
use continuityos.Prelude.{ℕ, String, List, Bool}
use continuityos.Domain.{CorridorState}

pub data CorridorFactor : Type 0 where
  ice weather traffic port communications cyber : CorridorFactor
  data_trust commercial geopolitical escort inventory : CorridorFactor

unfoldable pub factor_discrete : Discrete CorridorFactor
factor_discrete = hlevel

pub record FactorAssessment (F : Type 0) : Type 0 where
  pub factor : CorridorFactor
  pub risk : F
  pub confidence : F
  pub evidence_ids : List String
  pub rationale : String

pub record CorridorAssessment (F : Type 0) : Type 0 where
  pub assessment_id : String
  pub corridor_id : String
  pub overall_risk : F
  pub confidence : F
  pub state : CorridorState
  pub factors : List (FactorAssessment F)
  pub missing_required_metrics : List String
  pub caveats : List String

pub record ContinuityObjective (F : Type 0) : Type 0 where
  pub minimum_continuity : F
  pub maximum_shortage_days : ℕ
  pub maximum_recovery_days : ℕ
  pub budget : F
  pub human_approval_required : Bool

pub record MitigationAction (F : Type 0) : Type 0 where
  pub action_id : String
  pub name : String
  pub cost : F
  pub continuity_gain : F
  pub risk_reductions : List (CorridorFactor × F)
  pub prerequisites : List String
  pub incompatible_with : List String
  pub lead_time_hours : ℕ
  pub requires_human_approval : Bool
  pub rationale : String

pub record CompileRequest (F : Type 0) : Type 0 where
  pub assessment : CorridorAssessment F
  pub objective : ContinuityObjective F
  pub available_actions : List (MitigationAction F)
