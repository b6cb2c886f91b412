-- ===== src/Oc/Retrying.antt =====
-- pkg/util/oc/oc_struct.go: `retryFunction`, and the operations that apply manifests through it.
pub mod Bypass
use maistra_test_tool.World.{World, Action, gets, pure, when, returned, ◌>>=◌, ◌>>◌}
use maistra_test_tool.Helper.{log, failed, fatal, flush_log_buffer}
use maistra_test_tool.Retry.{sleep}
use maistra_test_tool.Retry.Attempt.{attempt}
use maistra_test_tool.Retry.Options.{second}
use maistra_test_tool.Shell.{execute_with_input}
use maistra_test_tool.Oc.Kubeconfig.{Oc, with_kubeconfig, invokef}
use maistra_test_tool.Prelude.{ℕ, zero, suc, ◌+◌, ◌-◌, List, [], ◌++◌, ltb, if◌then◌else◌}
use maistra_test_tool.Text.{Text, lit, is_empty, join}
use maistra_test_tool.Text.Decimal.{decimal}

-- `nsFlag`
unfoldable pub ns_flag : Text → Text
ns_flag ns = if is_empty ns then [] else lit "-n " ++ ns

-- `concatenateYamls`
unfoldable pub concatenate_yamls : List Text → Text
concatenate_yamls yamls = join (lit "\n---\n") yamls

abbrev pub max_attempts : ℕ
max_attempts = 5

module _ (o : Oc) (h : ℕ) (f : Action Unit) where
  -- `retry.Attempt(t, func(t) { o.withKubeconfig(t, f) })`: the helper of the attempt serves for the
  -- environment only, since `f` has been given another helper before.
  unfoldable pub one_attempt : Action ℕ
  one_attempt = attempt h (λ t. with_kubeconfig o t f)

  -- `attemptT` is the helper of the attempt before.
  unfoldable pub retry_rounds : ℕ → ℕ → ℕ → Action Unit
  retry_rounds zero i attempt_t = do
    flush_log_buffer attempt_t
    fatal h (lit "Command failed after " ++ (decimal max_attempts ++ lit " attempts."))
  retry_rounds (suc n) i _ = do
    attempt_t ← one_attempt
    has_failed ← failed attempt_t
    if has_failed then (do sleep second; retry_rounds n (i + 1) attempt_t) else do
      when (ltb 0 i) (
          log h (
            lit "WARNING: attempt "
            ++ (decimal (i + 1)
                ++ (lit " of "
                    ++ (decimal max_attempts ++ lit " succeeded after previous failures.")))))
      flush_log_buffer attempt_t

-- `retryFunction`; there is no attempt before the first one, and the address 0 stands for it.
unfoldable pub retry_function : Oc → ℕ → Action Unit → Action Unit
unfolding retry_rounds one_attempt
retry_function o h f = retry_rounds o h f max_attempts 0 0

-- `ApplyString`
unfoldable pub apply_string : Oc → ℕ → Text → List Text → Action Unit
apply_string o h ns yamls = retry_function o h (do
  execute_with_input h (lit "oc " ++ (ns_flag ns ++ lit " apply -f -")) (concatenate_yamls yamls) []
  pure tt)

-- `ApplyFile`
unfoldable pub apply_file : Oc → ℕ → Text → Text → Action Unit
apply_file o h ns file =
    retry_function o h
      (do invokef o h (lit "oc " ++ (ns_flag ns ++ (lit " apply -f " ++ file))); pure tt)
