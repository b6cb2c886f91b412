-- ===== src/App/Manifests.antt =====
-- pkg/app: what the manifests of the applications are made of. The texts of the templates are data of the
-- program, and stand for themselves; the engine that runs them is a parameter.
use maistra_test_tool.Template.{Engine}
use maistra_test_tool.Prelude.{Bool, Option, List}
use maistra_test_tool.Prelude.Int.{ℤ}
use maistra_test_tool.Text.{Text}

-- A value of a `map[string]interface{}` that is given to a template.
pub data Value : Type 0 where
  flag : Bool → Value
  text : Text → Value
  int : ℤ → Value

-- The input of a template: nil, or a map.
abbrev pub Input : Type 0
Input = Option (List (Text × Value))

-- The templates, and the files that are embedded in the program.
pub record Manifests : Type 0 where
  pub httpbin : Text
  pub sleep : Text
  pub minio : Text
  pub minio_secret : Text
  pub bookinfo : Text
  pub bookinfo_gateway : Text
  pub bookinfo_rule_all : Text
  pub bookinfo_rule_all_mtls : Text
  pub tcp_echo : Text
  pub tcp_echo_v1 : Text
  pub tcp_echo_v2 : Text
  pub fortio : Text
  pub grpcurl : Text
  pub redis : Text
  pub tempo_subscription : Text
  pub otel_subscription : Text
  pub tempo_stack : Text
  pub tempo_ui_route : Text
  pub cert_manager_subscription : Text
  pub root_ca : Text
  pub metallb_operator : Text
  pub metallb : Text

pub record Sources : Type 0 where
  pub engine : Engine Input
  pub manifests : Manifests
