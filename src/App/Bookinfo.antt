-- ===== src/App/Bookinfo.antt =====
-- pkg/app/bookinfo.go: the application, and which page a response is.
use maistra_test_tool.World.{Action, gets, pure, ◌>>=◌, ◌>>◌}
use maistra_test_tool.Helper.{log}
use maistra_test_tool.Util.{compare_http_response}
use maistra_test_tool.Operator.{get_ingress_gateway_host}
use maistra_test_tool.App.{App}
use maistra_test_tool.App.Manifests.{Sources}
use maistra_test_tool.Oc.Default.Manifests.{apply_string, delete_from_string}
use maistra_test_tool.Oc.Default.Decoded.{apply_template, delete_from_template}
use maistra_test_tool.Oc.Default.Pods.{wait_deployment_rollout_complete}
use maistra_test_tool.Prelude.{
  ℕ, Bool, true, false, Option, none, some, List, [], ◌∷◌, if◌then◌else◌,
}
use maistra_test_tool.Text.{Text, lit}
use maistra_test_tool.Text.Format.{sprintf}

-- `bookinfo`
pub record Bookinfo : Type 0 where
  pub ns : Text
  pub mtls : Bool

module _ (s : Sources) where
  module _ (a : Bookinfo) (h : ℕ) where
    -- `Install`
    unfoldable pub install : Action Unit
    install = do
      log h (lit "Create Bookinfo Gateway")
      apply_string h a.ns (s.manifests.bookinfo_gateway ∷ [])
      log h (lit "Create Bookinfo Destination Rules (all)")
      if a.mtls
          then apply_string h a.ns (s.manifests.bookinfo_rule_all_mtls ∷ [])
          else apply_string h a.ns (s.manifests.bookinfo_rule_all ∷ [])
      log h (lit "Create Bookinfo Deployments")
      apply_template h s.engine a.ns s.manifests.bookinfo none

    -- `Uninstall`
    unfoldable pub uninstall : Action Unit
    uninstall = do
      ns ← gets λ w. w.outside.quote a.ns
      log h (sprintf "Uninstalling Bookinfo from namespace %s" (ns ∷ []))
      delete_from_string h a.ns (s.manifests.bookinfo_rule_all ∷ [])
      delete_from_string h a.ns (s.manifests.bookinfo_gateway ∷ [])
      delete_from_template h s.engine a.ns s.manifests.bookinfo none

    -- `WaitReady`
    unfoldable pub wait_ready : Action Unit
    wait_ready = wait_deployment_rollout_complete h a.ns (
        lit "details-v1"
        ∷ lit "productpage-v1"
        ∷ lit "ratings-v1"
        ∷ lit "reviews-v1"
        ∷ lit "reviews-v2"
        ∷ lit "reviews-v3"
        ∷ [])

  -- The interface of the application.
  unfoldable pub as_app : Bookinfo → App
  unfolding install uninstall wait_ready
  as_app a = record {
    name = lit "bookinfo";
    namespace = a.ns;
    install = install a;
    uninstall = uninstall a;
    wait_ready = wait_ready a;
  }

  -- `Bookinfo`
  unfoldable pub bookinfo : Text → App
  bookinfo ns = as_app (record { ns = ns; mtls = false })

  -- `BookinfoWithMTLS`
  unfoldable pub bookinfo_with_mtls : Text → App
  bookinfo_with_mtls ns = as_app (record { ns = ns; mtls = true })

-- `BookinfoProductPageURL`
unfoldable pub bookinfo_product_page_url : ℕ → Text → Action Text
bookinfo_product_page_url h mesh_namespace = do
  host ← get_ingress_gateway_host h mesh_namespace
  pure (sprintf "http://%s/productpage" (host ∷ []))

-- `ProductPageResponseFiles`
abbrev pub product_page_response_files : List Text
product_page_response_files =
    lit "productpage-normal-user-mongo.html"
    ∷ lit "productpage-normal-user-rating-one-star.html"
    ∷ lit "productpage-normal-user-rating-unavailable.html"
    ∷ lit "productpage-normal-user-v1.html"
    ∷ lit "productpage-normal-user-v2.html"
    ∷ lit "productpage-normal-user-v3.html"
    ∷ lit "productpage-quota-exhausted.html"
    ∷ lit "productpage-rbac-details-reviews-error.html"
    ∷ lit "productpage-rbac-rating-error.html"
    ∷ lit "productpage-review-timeout.html"
    ∷ lit "productpage-test-user-v1.html"
    ∷ lit "productpage-test-user-v2.html"
    ∷ lit "productpage-test-user-v2-rating-unavailable.html"
    ∷ lit "productpage-test-user-v2-review-timeout.html"
    ∷ []

is_match : Option Text → Bool
is_match none = true
is_match (some err) = false

-- `matchesFile`
unfoldable pub matches_file : Text → Text → Action Bool
unfolding is_match
matches_file body file = do err ← compare_http_response body file; pure (is_match err)

-- The loop of `FindBookinfoProductPageResponseFile` over the files that are left.
unfoldable pub first_match : Text → List Text → Action Text
unfolding matches_file
first_match body [] = pure []
first_match body (file ∷ files) = do
  matches ← matches_file body file
  let rest = first_match body files
  if matches then pure file else rest

-- `FindBookinfoProductPageResponseFile`
unfoldable pub find_bookinfo_product_page_response_file : Text → Action Text
unfolding first_match
find_bookinfo_product_page_response_file body = first_match body product_page_response_files
