-- ===== src/Version/Known.antt =====
-- pkg/util/version/smcp_version.go: the versions of the service mesh control plane.
use maistra_test_tool.Version.{Version}
use maistra_test_tool.Prelude.Int.{pos}

abbrev pub smcp_2_0 : Version
smcp_2_0 = record { major = pos 2; minor = pos 0 }

abbrev pub smcp_2_1 : Version
smcp_2_1 = record { major = pos 2; minor = pos 1 }

abbrev pub smcp_2_2 : Version
smcp_2_2 = record { major = pos 2; minor = pos 2 }

abbrev pub smcp_2_3 : Version
smcp_2_3 = record { major = pos 2; minor = pos 3 }

abbrev pub smcp_2_4 : Version
smcp_2_4 = record { major = pos 2; minor = pos 4 }

abbrev pub smcp_2_5 : Version
smcp_2_5 = record { major = pos 2; minor = pos 5 }

abbrev pub smcp_2_6 : Version
smcp_2_6 = record { major = pos 2; minor = pos 6 }
