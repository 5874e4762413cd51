-- ===== src/ToolResult.antt =====
-- Results of tool calls: src/assistant_agent/tools/models.py, the artifact references of
-- contracts/charts_v2.py and contracts/outputs.py as far as the run state reads them, and the
-- checkpoint codec of agent/run/checkpoint.py. Metadata and local artifact paths are left out.
use Prim.Native.Char.{code}
use assistant_agent.Base.{ℕ, String, Bool, true, Option, none, List, [], ◌∷◌, ◌==◌, if◌then◌else◌}
use assistant_agent.Budget.{Reason}

-- A Python text as its code points.
abbrev pub Text : Type 0
Text = List ℕ

abbrev pub codes : String → Text
codes String.[] = []
codes (String.◌∷◌ c s) = code c ∷ codes s

pub record ChartArtifact : Type 0 where
  pub artifact_id : String
  pub run_id : String
  pub session_id : String
  pub content_hash : String
  pub size_bytes : ℕ
  pub title : Text

pub record OutputArtifact : Type 0 where
  pub output_id : String
  pub run_id : String
  pub session_id : String
  pub call_id : String
  pub content_hash : String
  pub filename : Text

pub record OutputCaptureIntent : Type 0 where
  pub draft_id : String
  pub session_id : String
  pub run_id : String
  pub call_id : String
  pub filename : Text
  pub media_type : String
  pub disposition : String
  pub title : Option Text
  pub max_chunk_bytes : ℕ

pub record ToolResult : Type 0 where
  pub output : Text
  pub is_error : Bool
  pub code : String
  pub retryable : Bool
  pub budget_exhausted : Option Reason
  pub executed : Bool
  pub chart : Option ChartArtifact
  pub output_artifact : Option OutputArtifact
  pub output_capture : Option OutputCaptureIntent

-- The dataclass runs this after every construction, `dataclasses.replace` included.
unfoldable pub post_init : ToolResult → ToolResult
post_init r = record r {
  code = if r.code == "" then (if r.is_error then "tool_error" else "ok") else r.code;
  chart = if r.is_error then none else r.chart;
  output_artifact = if r.is_error then none else r.output_artifact;
}

-- `ToolResult.error(message, code=…, retryable=…, executed=…)`.
unfoldable pub error_result : Text → String → Bool → Bool → ToolResult
unfolding post_init
error_result message code retryable executed = post_init (record {
  output = message;
  is_error = true;
  code = code;
  retryable = retryable;
  budget_exhausted = none;
  executed = executed;
  chart = none;
  output_artifact = none;
  output_capture = none;
})

pub record ToolResultState : Type 0 where
  pub output : Text
  pub is_error : Bool
  pub code : String
  pub retryable : Bool
  pub executed : Bool
  pub budget_exhausted : Option Reason
  pub chart : Option ChartArtifact
  pub output_artifact : Option OutputArtifact

unfoldable pub encode_result : ToolResult → ToolResultState
encode_result r = record {
  output = r.output;
  is_error = r.is_error;
  code = r.code;
  retryable = r.retryable;
  executed = r.executed;
  budget_exhausted = r.budget_exhausted;
  chart = r.chart;
  output_artifact = r.output_artifact;
}

unfoldable pub decode_result : ToolResultState → ToolResult
unfolding post_init
decode_result r = post_init (record {
  output = r.output;
  is_error = r.is_error;
  code = r.code;
  retryable = r.retryable;
  budget_exhausted = r.budget_exhausted;
  executed = r.executed;
  chart = r.chart;
  output_artifact = r.output_artifact;
  output_capture = none;
})
