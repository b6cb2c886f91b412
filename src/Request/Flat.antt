-- ===== src/Request/Flat.antt =====
-- pkg/util/request/multiple.go: a list of options within a list.
use maistra_test_tool.Request.{
  HttpRequest, HttpClient, RequestOption, RequestOptionList, Certificates, nil_option, cookie_jar,
  context_modifier, header_modifier, host_modifier, tls, options_list, no_more, and_then,
  and_continue, apply_to_request, apply_to_client, apply_all_to_request, apply_all_to_client,
}
use maistra_test_tool.Prelude.{◌≡◌, refl, Option, none, some, List, [], ◌∷◌, ◌++◌}
use maistra_test_tool.Text.{Text}

-- The options in the order in which they stand, with no lists.
mutual
  pub flatten : RequestOption → List RequestOption
  flatten nil_option = nil_option ∷ []
  flatten (cookie_jar jar) = cookie_jar jar ∷ []
  flatten (context_modifier ctx) = context_modifier ctx ∷ []
  flatten (header_modifier name value) = header_modifier name value ∷ []
  flatten (host_modifier host) = host_modifier host ∷ []
  flatten (tls m) = tls m ∷ []
  flatten (options_list l) = flatten_all l

  pub flatten_all : RequestOptionList → List RequestOption
  flatten_all no_more = []
  flatten_all (and_then r l) = flatten r ++ flatten_all l

module _ {S : Type 0} (apply : RequestOption → S → Option Text × S) where
  -- One option after the other, up to the first error, with what was changed before it.
  pub data InTurn : List RequestOption → S → Option Text → S → Type 0 where
    done : {x : S} → InTurn [] x none x
    goes_on :
        {r : RequestOption} {rs : List RequestOption} {x y z : S} {e : Option Text}
        → apply r x ≡ (none, y)
        → InTurn rs y e z
        → InTurn (r ∷ rs) x e z
    stops :
        {r : RequestOption} {rs : List RequestOption} {x y : S} {err : Text}
        → apply r x ≡ (some err, y)
        → InTurn (r ∷ rs) x (some err) y

  only : (r : RequestOption) (x : S) → InTurn (r ∷ []) x (apply r x).0 (apply r x).1
  only r x = by_result (apply r x) refl
    where
      by_result : (y : Option Text × S) → apply r x ≡ y → InTurn (r ∷ []) x y.0 y.1
      by_result (none, y) e = goes_on e done
      by_result (some err, y) e = stops e

  behind :
      {rs more : List RequestOption} {x : S} (f : S → Option Text × S) {e : Option Text} {y : S}
      → InTurn rs x e y
      → ((y' : S) → InTurn more y' (f y').0 (f y').1)
      → InTurn (rs ++ more) x (and_continue (e, y) f).0 (and_continue (e, y) f).1
  behind f done k = k _
  behind f (goes_on e t) k = goes_on e (behind f t k)
  behind f (stops e) k = stops e

mutual
  unfolding apply_to_request flatten

  request_lem :
      (r : RequestOption) (req : HttpRequest)
      → let (e, req') = apply_to_request r req in InTurn apply_to_request (flatten r) req e req'
  request_lem nil_option req = only apply_to_request _ req
  request_lem (cookie_jar jar) req = only apply_to_request (cookie_jar jar) req
  request_lem (context_modifier ctx) req = only apply_to_request (context_modifier ctx) req
  request_lem (header_modifier name value) req =
      only apply_to_request (header_modifier name value) req
  request_lem (host_modifier host) req = only apply_to_request (host_modifier host) req
  request_lem (tls m) req = only apply_to_request (tls m) req
  request_lem (options_list l) req = request_all_lem l req

  request_all_lem :
      (l : RequestOptionList) (req : HttpRequest)
      → let (e, req') = apply_all_to_request l req in
        InTurn apply_to_request (flatten_all l) req e req'
  request_all_lem no_more req = done
  request_all_lem (and_then r l) req =
      behind apply_to_request (λ req'. apply_all_to_request l req') (request_lem r req)
        (request_all_lem l)

mutual
  unfolding apply_to_client flatten

  client_lem :
      (files : Certificates) (r : RequestOption) (client : HttpClient)
      → let (e, client') = apply_to_client files r client in
        InTurn (apply_to_client files) (flatten r) client e client'
  client_lem files nil_option client = only (apply_to_client files) nil_option client
  client_lem files (cookie_jar jar) client = only (apply_to_client files) (cookie_jar jar) client
  client_lem files (context_modifier ctx) client =
      only (apply_to_client files) (context_modifier ctx) client
  client_lem files (header_modifier name value) client =
      only (apply_to_client files) (header_modifier name value) client
  client_lem files (host_modifier host) client =
      only (apply_to_client files) (host_modifier host) client
  client_lem files (tls m) client = only (apply_to_client files) (tls m) client
  client_lem files (options_list l) client = client_all_lem files l client

  client_all_lem :
      (files : Certificates) (l : RequestOptionList) (client : HttpClient)
      → let (e, client') = apply_all_to_client files l client in
        InTurn (apply_to_client files) (flatten_all l) client e client'
  client_all_lem files no_more client = done
  client_all_lem files (and_then r l) client =
      behind (apply_to_client files) (λ client'. apply_all_to_client files l client')
        (client_lem files r client) (client_all_lem files l)

-- Options in lists, nested in any way, do to a request and to a client what the options that stand in them do one
-- after the other from left to right, up to the first error: this is the error of the whole, the options behind it
-- do nothing, and what was changed before it stays.
pub options-flatten :
    (files : Certificates) (r : RequestOption) (req : HttpRequest) (client : HttpClient)
    → (let (e, req') = apply_to_request r req in InTurn apply_to_request (flatten r) req e req')
      × (let (e, client') = apply_to_client files r client in
          InTurn (apply_to_client files) (flatten r) client e client')
options-flatten files r req client = (request_lem r req, client_lem files r client)
