-- ===== src/Start/Config.antt =====
-- server/src/config.rs. The library that collects the configuration is a parameter, with what it reads
-- of the process; how a field is read is serde's.
use Prim.Native.String.{String}
use locally_euclidean.Prelude.{
  ℕ, Bool, false, Option, none, some, Outcome, ok, err, and_then, map_err, List, [], ◌∷◌,
}

-- `std::net::SocketAddr`: an address of 32 bits with a port, or one of 128 bits with a port, a flow
-- and a scope.
pub data SocketAddr : Type 0 where
  v4 : ℕ → ℕ → SocketAddr
  v6 : ℕ → ℕ → ℕ → ℕ → SocketAddr

pub record AppConfig : Type 0 where
  pub max_upload_size_mb : ℕ
  pub allowed_content_types : List String
  pub bind_address : SocketAddr
  pub db_connection_string : String

-- A file, which may be required, or the variables of the environment with a prefix.
pub data Source : Type 0 where
  toml_file : String → Bool → Source
  environment : String → Source

pub record ConfigLibrary : Type 1 where
  pub Error : Type 0
  pub Tree : Type 0
  -- `builder().add_source(..).build()`
  pub collect : List Source → Outcome Error Tree
  -- A field of the tree, if it is there and well formed.
  pub number : Tree → String → Outcome Error (Option ℕ)
  pub texts : Tree → String → Outcome Error (Option (List String))
  pub address : Tree → String → Outcome Error (Option SocketAddr)
  pub text : Tree → String → Outcome Error (Option String)
  pub missing_field : String → Error

pub data ConfigBuildError (L : ConfigLibrary) : Type 0 where
  failed_to_collect : L.Error → ConfigBuildError L
  failed_to_deserialize : L.Error → ConfigBuildError L

pub default_max_upload_size : ℕ
default_max_upload_size = 100

pub default_allowed_content_types : List String
default_allowed_content_types = "application/octet-stream" ∷ "text/plain" ∷ "text/html" ∷ []

-- `[::1]:9000`
pub default_bind_address : SocketAddr
default_bind_address = v6 1 9000 0 0

build_for_test : AppConfig
unfolding default_allowed_content_types default_bind_address
build_for_test = record {
  max_upload_size_mb = 5;
  allowed_content_types = default_allowed_content_types;
  bind_address = default_bind_address;
  db_connection_string = "";
}

abbrev or_default {ℓ} : {A : Type ℓ} → A → Option A → A
or_default d none = d
or_default d (some a) = a

module _ (L : ConfigLibrary) where
  abbrev required : String → Option String → Outcome L.Error String
  required name none = err (L.missing_field name)
  required name (some s) = ok s

  -- `#[derive(Deserialize)]` of `AppConfig`, with its `#[serde(default = ..)]`.
  unfoldable pub deserialize : L.Tree → Outcome L.Error AppConfig
  unfolding default_max_upload_size default_allowed_content_types default_bind_address
  deserialize t = and_then (L.number t "max_upload_size_mb") (λ size.
      and_then (L.texts t "allowed_content_types") (λ types.
        and_then (L.address t "bind_address") (λ address.
          and_then (L.text t "db_connection_string") (λ given.
            and_then (required "db_connection_string" given) (λ connection. ok (record {
              max_upload_size_mb = or_default default_max_upload_size size;
              allowed_content_types = or_default default_allowed_content_types types;
              bind_address = or_default default_bind_address address;
              db_connection_string = connection;
            }))))))

  unfoldable pub build : Outcome (ConfigBuildError L) AppConfig
  unfolding deserialize
  build =
      and_then
        (map_err failed_to_collect
          (L.collect (toml_file "locally-euclidean.toml" false ∷ environment "LOC_EUC" ∷ [])))
        (λ config_unparsed. map_err failed_to_deserialize (deserialize config_unparsed))
