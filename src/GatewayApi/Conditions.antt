-- ===== src/GatewayApi/Conditions.antt =====
-- pkg/util/gatewayapi/gatewayapi.go: the choices, against the order of versions.
use maistra_test_tool.GatewayApi.{get_waiting_condition, get_default_service_name}
use maistra_test_tool.Version.{Version, equals, less_than}
use maistra_test_tool.Version.Known
use maistra_test_tool.Prelude.{ℕ, ◌≡◌, false, ◌++◌, arith, if◌then◌else◌}
use maistra_test_tool.Prelude.Int.{pos}
use maistra_test_tool.Text.{Text, lit}

-- For a version of the mesh that is not older than 2.3: a gateway is waited for with the condition Ready and has the
-- name of its resource exactly if the version is older than 2.5, and from 2.5 on with the condition Programmed and
-- the name followed by that of its class.
pub conditions_by_order :
    (major minor : ℕ) (gateway_name class_name : Text)
    → let v : Version = record { major = pos major; minor = pos minor } in
      less_than v Known.smcp_2_3 ≡ false
      → (get_waiting_condition v
          ≡ (if less_than v Known.smcp_2_5 then lit "Ready" else lit "Programmed"))
        × (get_default_service_name v gateway_name class_name ≡ (
            if less_than v Known.smcp_2_5
            then gateway_name
            else gateway_name ++ (lit "-" ++ class_name)))
unfolding get_waiting_condition get_default_service_name less_than equals
conditions_by_order major minor gateway_name class_name h = (ground (arith, h), ground (arith, h))
