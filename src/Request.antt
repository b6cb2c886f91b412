-- ===== src/Request.antt =====
-- pkg/util/curl/curl.go and pkg/util/request: a request with its options. The client of net/http with the network
-- behind it, and the loading of certificates, are parameters; an error is its text.
pub mod Send
pub mod Flat
use maistra_test_tool.World.{Action, gets, modify, pure, for_each, ◌>>=◌, ◌>>◌}
use maistra_test_tool.Helper.{log, fatal}
use maistra_test_tool.Check.Response.{ResponseCheck, Response, RequestError}
use maistra_test_tool.Prelude.{
  ℕ, ◌+◌, ◌-◌, Bool, Option, none, some, List, [], ◌∷◌, ◌++◌, if◌then◌else◌,
}
use maistra_test_tool.Prelude.Int.{pos}
use maistra_test_tool.Text.{Text, lit, teq, is_empty}
use maistra_test_tool.Text.Format.{sprintf}

-- What the options change of a request: its host, its headers, and the context, by its name.
pub record HttpRequest : Type 0 where
  pub url : Text
  pub host : Text
  pub headers : List (Text × Text)
  pub context : Option Text

-- `http.Header.Set`, for a name that is in its canonical form
unfoldable pub set_header : List (Text × Text) → Text → Text → List (Text × Text)
set_header [] name value = (name, value) ∷ []
set_header ((k, v) ∷ rest) name value =
    let later = set_header rest name value in
    if teq k name then (name, value) ∷ rest else (k, v) ∷ later

-- `TLSRequestOption`
pub record TlsRequestOption : Type 0 where
  pub ca_cert_file : Text
  pub client_cert_file : Text
  pub client_key_file : Text
  pub host : Text
  pub ingress_host : Text
  pub secure_ingress_port : Text

-- What the options change of a client: the cookie jar, by its name, and the transport, by the option that made it.
pub record HttpClient : Type 0 where
  pub jar : Option Text
  pub transport : Option TlsRequestOption

-- The implementations of `RequestOption`.
mutual
  pub data RequestOption : Type 0 where
    nil_option : RequestOption
    cookie_jar : Text → RequestOption
    context_modifier : Text → RequestOption
    header_modifier : Text → Text → RequestOption
    host_modifier : Text → RequestOption
    tls : TlsRequestOption → RequestOption
    options_list : RequestOptionList → RequestOption

  pub data RequestOptionList : Type 0 where
    no_more : RequestOptionList
    and_then : RequestOption → RequestOptionList → RequestOptionList

-- `WithTLS`
unfoldable pub with_tls : Text → Text → Text → Text → TlsRequestOption
with_tls cacert_file host ingress_host secure_ingress_port = record {
  ca_cert_file = cacert_file;
  client_cert_file = [];
  client_key_file = [];
  host = host;
  ingress_host = ingress_host;
  secure_ingress_port = secure_ingress_port;
}

-- `WithClientCertificate`
unfoldable pub with_client_certificate : TlsRequestOption → Text → Text → TlsRequestOption
with_client_certificate m cert_file key_file = record m {
  client_cert_file = cert_file;
  client_key_file = key_file;
}

-- The address that the transport of the option dials in place of one that it is given.
unfoldable pub dialed : TlsRequestOption → Text → Text
dialed m addr =
    if teq addr (m.host ++ (lit ":" ++ m.secure_ingress_port))
    then m.ingress_host ++ (lit ":" ++ m.secure_ingress_port)
    else addr

-- `if err := first; err != nil { return err }`, with what the first has changed.
abbrev pub and_continue : {S : Type 0} → Option Text × S → (S → Option Text × S) → Option Text × S
and_continue (some err, x) next = (some err, x)
and_continue (none, x) next = next x

-- `ApplyToRequest`, of an option and of a list: the first error ends it, with the changes that were made.
unfoldable mutual
  pub apply_to_request : RequestOption → HttpRequest → Option Text × HttpRequest
  apply_to_request nil_option req = (none, req)
  apply_to_request (cookie_jar jar) req = (none, req)
  apply_to_request (context_modifier ctx) req = (none, record req { context = some ctx })
  apply_to_request (header_modifier name value) req =
      (none, record req { headers = set_header req.headers name value })
  apply_to_request (host_modifier host) req = (none, record req { host = host })
  apply_to_request (tls m) req = (none, record req { host = m.host })
  apply_to_request (options_list l) req = apply_all_to_request l req

  pub apply_all_to_request : RequestOptionList → HttpRequest → Option Text × HttpRequest
  apply_all_to_request no_more req = (none, req)
  apply_all_to_request (and_then r l) req =
      and_continue (apply_to_request r req) (λ req'. apply_all_to_request l req')

-- The files that the option of TLS reads: the error of reading one, and of loading a pair of a certificate and a
-- key.
pub record Certificates : Type 0 where
  pub read_error : Text → Option Text
  pub pair_error : Text → Text → Option Text

-- `TLSRequestOption.ApplyToClient`
unfoldable pub apply_tls : Certificates → TlsRequestOption → HttpClient → Option Text × HttpClient
apply_tls files m client = elim (files.read_error m.ca_cert_file) [
  | some err ↦ (some err, client)
  | none ↦
      if is_empty m.client_cert_file
      then (none, record client { transport = some m })
      else elim (files.pair_error m.client_cert_file m.client_key_file) [
        | some err ↦ (some err, client)
        | none ↦ (none, record client { transport = some m })
      ]
]

-- `ApplyToClient`, of an option and of a list
unfoldable mutual
  unfolding apply_tls

  pub apply_to_client : Certificates → RequestOption → HttpClient → Option Text × HttpClient
  apply_to_client files nil_option client = (none, client)
  apply_to_client files (cookie_jar jar) client = (none, record client { jar = some jar })
  apply_to_client files (context_modifier ctx) client = (none, client)
  apply_to_client files (header_modifier name value) client = (none, client)
  apply_to_client files (host_modifier host) client = (none, client)
  apply_to_client files (tls m) client = apply_tls files m client
  apply_to_client files (options_list l) client = apply_all_to_client files l client

  pub apply_all_to_client : Certificates → RequestOptionList → HttpClient → Option Text × HttpClient
  apply_all_to_client files no_more client = (none, client)
  apply_all_to_client files (and_then r l) client =
      and_continue (apply_to_client files r client) (λ client'. apply_all_to_client files l client')
