-- ===== src/Tests/Settings.antt =====
-- Settings of the environment at concrete inputs.
use maistra_test_tool.Env.{get_root_dir, marker}
use maistra_test_tool.Env.RootDir.{get_root_dir-marker, later}
use maistra_test_tool.Check.Verdict.{absent}
use maistra_test_tool.Prelude.{◌≡◌, refl, false, none, some, ◌++◌}
use maistra_test_tool.Text.{lit, contains, has_prefix}

marker_once : contains (later (lit "ossm")) marker ≡ false
unfolding contains has_prefix lit
marker_once = refl

marker_never : contains (lit "/home") marker ≡ false
unfolding contains has_prefix lit
marker_never = refl

get_root_dir-marker_example :
    (get_root_dir (some (lit "/work" ++ (marker ++ lit "ossm"))) ≡ some (lit "/work"))
    × (get_root_dir (some (lit "/home")) ≡ none)
get_root_dir-marker_example =
    get_root_dir-marker (lit "/work") (lit "ossm") (lit "/home")
      (absent (later (lit "ossm")) marker marker_once) (absent (lit "/home") marker marker_never)
