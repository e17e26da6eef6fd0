-- ===== src/Graph/Types.antt =====
-- Library/Graph/graph_types.h: the outcomes of a build and of a run.
use xsigma.Common.{Bool, true, false, String}

pub data GraphBuildStatusCode : Type 0 where
  ok cycle_detected unknown_node_reference : GraphBuildStatusCode

pub record GraphStatus : Type 0 where
  pub code : GraphBuildStatusCode
  pub message : String

abbrev pub success : GraphStatus
success = record { code = ok; message = "" }

abbrev pub failure : GraphBuildStatusCode → String → GraphStatus
failure code message = record { code = code; message = message }

abbrev is_ok_code : GraphBuildStatusCode → Bool
is_ok_code ok = true
is_ok_code _ = false

-- `graph_status::ok()`, and its conversion to `bool`.
abbrev pub is_ok : GraphStatus → Bool
is_ok s = is_ok_code s.code
