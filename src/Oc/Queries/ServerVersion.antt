-- ===== src/Oc/Queries/ServerVersion.antt =====
-- pkg/util/oc/oc_struct.go: `GetOCPVersion` on the output of oc version.
use maistra_test_tool.World.{World, returned, ◌>>=◌}
use maistra_test_tool.Shell.{invocation, after_command, reply_to}
use maistra_test_tool.Shell.Outcomes.{execute-Outcome}
use maistra_test_tool.Oc.Kubeconfig.{default_oc, with_kubeconfig}
use maistra_test_tool.Oc.Queries.{answer_version, server_version, second_part, get_ocp_version}
use maistra_test_tool.Prelude.{
  ℕ, ◌≡◌, ◌≢◌, refl, false, true, none, some, List, [], ◌∷◌, ◌++◌, All, arith, ap, ◌∙◌,
}
use maistra_test_tool.Text.{Text, lit, contains, split, join, trim_space}
use maistra_test_tool.Text.Parts.{Lacks, split-append, split-Lacks, split-join}
use maistra_test_tool.Text.Search.{contains_iff}

abbrev pub mark : Text
mark = lit "Server Version"

-- The line with the version.
abbrev pub version_line : Text → Text
version_line v = mark ++ b':' ∷ b' ' ∷ v

abbrev pub LacksMark : Text → Type 0
LacksMark line = contains line mark ≡ false

mark-Lacks : Lacks b':' mark
unfolding lit
mark-Lacks = ground arith

version_line-mark : (v : Text) → contains (version_line v) mark ≡ true
version_line-mark v = (contains_iff (version_line v) mark).1 ([], b':' ∷ b' ' ∷ v, refl)

server_version-found :
    (before : List Text) (v : Text) (after : List Text)
    → All LacksMark before
    → Lacks b':' v
    → server_version (before ++ version_line v ∷ after) ≡ some (some (trim_space (b' ' ∷ v)))
unfolding server_version second_part
server_version-found [] v after h lacks = rw (version_line-mark v) (
    rw (split-append b':' mark (b' ' ∷ v) mark-Lacks)
      (rw (split-Lacks b':' (b' ' ∷ v) (ground arith, lacks)) refl))
server_version-found (line ∷ before) v after h lacks =
    rw h.0 (server_version-found before v after h.1 lacks)

lines-ne-nil : (before : List Text) (l : Text) (after : List Text) → before ++ l ∷ after ≢ []
lines-ne-nil [] l after = ground arith
lines-ne-nil (x ∷ before) l after = ground arith

-- `GetOCPVersion` of the default client, when the command succeeds and its output has a line "Server Version: "
-- with a version that has no colon, and no line before it with that mark: the version without white space
-- at its ends, with nothing changed but the commands run and the clock.
pub get_ocp_version-found :
    (h : ℕ) (before : List Text) (v : Text) (after : List Text) (w : World)
    → let reply = w.outside.shell (invocation (lit "oc version") none [] w ∷ w.trace) in
      reply.error ≡ none
      → reply.output ≡ join (b'\n' ∷ []) (before ++ version_line v ∷ after)
      → All (Lacks b'\n') (before ++ version_line v ∷ after)
      → All LacksMark before
      → Lacks b':' v
      → get_ocp_version default_oc h w
        ≡ (returned (trim_space (b' ' ∷ v)), after_command (lit "oc version") none [] w)
unfolding get_ocp_version answer_version with_kubeconfig after_command reply_to ◌>>=◌
get_ocp_version-found h before v after w succeeds printed lines clean lacks =
    let found : server_version (split b'\n' (reply_to (lit "oc version") none [] w).output)
        ≡ some (some (trim_space (b' ' ∷ v))) =
      ap (λ s. server_version (split b'\n' s)) printed
      ∙ (ap server_version (
            split-join b'\n' (before ++ version_line v ∷ after)
              (lines-ne-nil before (version_line v) after) lines)
          ∙ server_version-found before v after clean lacks) in
    rw ((execute-Outcome h (lit "oc version") [] w).0 succeeds) (rw found refl)
