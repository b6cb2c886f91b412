-- ===== src/Cert.antt =====
-- pkg/util/cert/cert.go: the builder of certificates. RSA, x509 and PEM are parameters; an error is its text, and a
-- panic of the builder is its message.
use maistra_test_tool.Prelude.{
  ℕ, Bool, true, false, Option, none, some, List, [], ◌∷◌, ◌++◌, ◌⊎◌, inl, inr, if◌then◌else◌,
}
use maistra_test_tool.Text.{Text, lit}

-- The bits of `x509.KeyUsage` that the builder sets.
pub data KeyUsage : Type 0 where
  digital_signature : KeyUsage
  cert_sign : KeyUsage
  crl_sign : KeyUsage

-- The values of `x509.ExtKeyUsage` that the builder sets.
pub data ExtKeyUsage : Type 0 where
  client_auth : ExtKeyUsage
  server_auth : ExtKeyUsage

-- `x509.Certificate`, as far as the builder sets it
pub record Certificate : Type 0 where
  pub serial_number : ℕ
  pub organization : List Text
  pub common_name : Text
  pub not_before : ℕ
  pub not_after : ℕ
  pub key_usage : List KeyUsage
  pub ext_key_usage : List ExtKeyUsage
  pub basic_constraints_valid : Bool
  pub is_ca : Bool
  pub ip_addresses : List Text

-- The code outside: a new key of a number of bits from randomness, the public key of a key, a certificate in DER that
-- is made from a template, its parent, the public key and the key that signs it, the parser of DER, the blocks of PEM,
-- the encodings of keys, and a time some years later.
pub record Crypto (PrivateKey PublicKey : Type 0) : Type 0 where
  pub generate_key : ℕ → ℕ → Text ⊎ PrivateKey
  pub public : PrivateKey → PublicKey
  pub create_certificate : Certificate → Certificate → PublicKey → PrivateKey → Text ⊎ Text
  pub parse_certificate : Text → Text ⊎ Certificate
  pub encode_pem : Text → Text → Text
  pub marshal_private_key : PrivateKey → Text
  pub marshal_public_key : PublicKey → Text
  pub add_years : ℕ → ℕ → ℕ

-- `CertBuilder`; nil is `none`. The public key is set together with the private one.
pub record CertBuilder (PrivateKey PublicKey : Type 0) : Type 0 where
  pub private_key : Option PrivateKey
  pub public_key : Option PublicKey
  pub template : Option Certificate
  pub parent : Option Certificate
  pub parent_key : Option PrivateKey
  pub self : Option Certificate
  pub self_pem : Text

-- `new(CertBuilder)`
abbrev pub new_builder : {K P : Type 0} → CertBuilder K P
new_builder = record {
  private_key = none;
  public_key = none;
  template = none;
  parent = none;
  parent_key = none;
  self = none;
  self_pem = [];
}

abbrev or_else : {A : Type 0} → Option A → A → A
or_else none a = a
or_else (some b) a = b

-- What fails is a panic with a message.
abbrev and_then : {A B : Type 0} → Text ⊎ A → (A → Text ⊎ B) → Text ⊎ B
and_then (inl p) f = inl p
and_then (inr a) f = f a

abbrev or_panic : {A : Type 0} → Text → Text ⊎ A → Text ⊎ A
or_panic prefix (inl err) = inl (prefix ++ err)
or_panic prefix (inr a) = inr a

-- The template of `SetTemplate`, at a time.
unfoldable pub template_of : (ℕ → ℕ → ℕ) → ℕ → Text → Text → ℕ → Bool → Certificate
template_of add_years now org_name common_name expire_years is_ca = record {
  serial_number = 1;
  organization = org_name ∷ [];
  common_name = common_name;
  not_before = now;
  not_after = add_years now expire_years;
  key_usage =
      if is_ca then digital_signature ∷ cert_sign ∷ crl_sign ∷ [] else digital_signature ∷ [];
  ext_key_usage = client_auth ∷ server_auth ∷ [];
  basic_constraints_valid = is_ca;
  is_ca = is_ca;
  ip_addresses = if is_ca then [] else lit "127.0.0.1" ∷ lit "::1" ∷ [];
}

module _ {K P : Type 0} (c : Crypto K P) (now random : ℕ) where
  -- `SetTemplate`
  unfoldable pub set_template : CertBuilder K P → Text → Text → ℕ → Bool → CertBuilder K P
  unfolding template_of
  set_template cf org_name common_name expire_years is_ca = record cf {
    template = some (template_of c.add_years now org_name common_name expire_years is_ca);
  }

  -- `SetParent`
  unfoldable pub set_parent : CertBuilder K P → Certificate → CertBuilder K P
  set_parent cf parent = record cf { parent = some parent }

  -- `SetParentKey`
  unfoldable pub set_parent_key : CertBuilder K P → K → CertBuilder K P
  set_parent_key cf key = record cf { parent_key = some key }

  -- `newKey`
  unfoldable pub new_key : CertBuilder K P → ℕ → Text ⊎ CertBuilder K P
  new_key cf bits =
      and_then (or_panic (lit "Failed to create a private key:") (c.generate_key random bits))
        λ key. inr (record cf { private_key = some key; public_key = some (c.public key) })

  -- The key, as it is or a new one.
  unfoldable pub with_key : CertBuilder K P → Text ⊎ CertBuilder K P
  unfolding new_key
  with_key cf = elim cf.private_key [ none ↦ new_key cf 2048 | some key ↦ inr cf ]

  unfoldable pub with_template : CertBuilder K P → Bool → CertBuilder K P
  unfolding set_template
  with_template cf is_ca = elim cf.template [
    | none ↦ set_template cf (lit "example Inc.") (lit "example.com") 1 is_ca
    | some t ↦ cf
  ]

  unfoldable pub with_parent : CertBuilder K P → CertBuilder K P
  with_parent cf = elim cf.parent [ none ↦ record cf { parent = cf.template } | some p ↦ cf ]

  -- Creating and parsing, when key, template and parent are there.
  unfoldable pub sign : CertBuilder K P → K → P → Certificate → Certificate → Text ⊎ CertBuilder K P
  sign cf key public template parent =
      and_then
        (or_panic (lit "Failed to create certificate:")
          (c.create_certificate template parent public (or_else cf.parent_key key)))
        λ cert_bytes.
          and_then (or_panic (lit "Failed to parse certificate:") (c.parse_certificate cert_bytes))
            λ self. inr (record cf {
              self = some self;
              self_pem = c.encode_pem (lit "CERTIFICATE") cert_bytes;
            })

  -- With a part that is missing, x509 is given a nil pointer.
  unfoldable pub sign_parts :
      CertBuilder K P
      → Option K
      → Option P
      → Option Certificate
      → Option Certificate
      → Text ⊎ CertBuilder K P
  unfolding sign
  sign_parts cf (some key) (some public) (some template) (some parent) =
      sign cf key public template parent
  sign_parts cf _ _ _ _ = inl (lit "invalid memory address or nil pointer dereference")

  -- `newCert`
  unfoldable pub new_cert : CertBuilder K P → Bool → Text ⊎ CertBuilder K P
  unfolding with_key with_template with_parent sign_parts
  new_cert cf is_ca = and_then (with_key cf) λ keyed.
      let ready = with_parent (with_template keyed is_ca) in
      sign_parts ready ready.private_key ready.public_key ready.template ready.parent

  -- `NewCACert`
  unfoldable pub new_ca_cert : CertBuilder K P → Text ⊎ CertBuilder K P
  unfolding new_cert
  new_ca_cert cf = new_cert cf true

  unfoldable pub parent_given : CertBuilder K P → Option Certificate → CertBuilder K P
  unfolding set_parent
  parent_given cf none = cf
  parent_given cf (some parent) = set_parent cf parent

  unfoldable pub parent_key_given : CertBuilder K P → Option K → CertBuilder K P
  unfolding set_parent_key
  parent_key_given cf none = cf
  parent_key_given cf (some key) = set_parent_key cf key

  -- `NewServerCert`
  unfoldable pub new_server_cert :
      CertBuilder K P → Option Certificate → Option K → Text ⊎ CertBuilder K P
  unfolding new_cert parent_given parent_key_given
  new_server_cert cf parent_cert parent_key =
      new_cert (parent_key_given (parent_given cf parent_cert) parent_key) false

  -- `GetPrivateKeyPEM`; nil is the empty text.
  unfoldable pub get_private_key_pem : CertBuilder K P → Text
  get_private_key_pem cf = elim cf.private_key [
    | none ↦ []
    | some key ↦ c.encode_pem (lit "RSA PRIVATE KEY") (c.marshal_private_key key)
  ]

  -- `GetPublicKeyPEM`
  unfoldable pub get_public_key_pem : CertBuilder K P → Text
  get_public_key_pem cf = elim cf.public_key [
    | none ↦ []
    | some key ↦ c.encode_pem (lit "RSA PUBLIC KEY") (c.marshal_public_key key)
  ]
