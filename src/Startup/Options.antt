-- ===== src/Startup/Options.antt =====
-- The flags of cmd/main.go, and the options of the manager's servers.
pub mod Tls
use elemental_lifecycle_mana.Prelude.{
  String, Bool, true, false, List, [], ◌∷◌, ◌==◌, not, if◌then◌else◌,
}

pub record Flags : Type 0 where
  pub metrics_addr : String
  pub probe_addr : String
  pub enable_leader_election : Bool
  pub secure_metrics : Bool
  pub webhook_cert_path : String
  pub webhook_cert_name : String
  pub webhook_cert_key : String
  pub metrics_cert_path : String
  pub metrics_cert_name : String
  pub metrics_cert_key : String
  pub enable_http2 : Bool

-- The values of the flags that the command line does not set.
unfoldable pub default_flags : Flags
default_flags = record {
  metrics_addr = "0";
  probe_addr = ":8081";
  enable_leader_election = false;
  secure_metrics = true;
  webhook_cert_path = "";
  webhook_cert_name = "tls.crt";
  webhook_cert_key = "tls.key";
  metrics_cert_path = "";
  metrics_cert_name = "tls.crt";
  metrics_cert_key = "tls.key";
  enable_http2 = false;
}

-- tls.Config, with the one field that the program sets; `[]` leaves it to the library.
pub record TlsConfig : Type 0 where
  pub next_protos : List String

abbrev pub TlsOption : Type 0
TlsOption = TlsConfig → TlsConfig

unfoldable pub disable_http2 : TlsOption
disable_http2 c = record c { next_protos = "http/1.1" ∷ [] }

unfoldable pub tls_options : Flags → List TlsOption
unfolding disable_http2
tls_options flags = if not flags.enable_http2 then disable_http2 ∷ [] else []

-- webhook.Options; an empty text is the field's zero value, for which the library has a default.
pub record WebhookOptions : Type 0 where
  pub tls_opts : List TlsOption
  pub cert_dir : String
  pub cert_name : String
  pub key_name : String

unfoldable pub webhook_options : Flags → WebhookOptions
unfolding tls_options
webhook_options flags =
    let given = not (flags.webhook_cert_path == "") in
    record {
      tls_opts = tls_options flags;
      cert_dir = if given then flags.webhook_cert_path else "";
      cert_name = if given then flags.webhook_cert_name else "";
      key_name = if given then flags.webhook_cert_key else "";
    }

-- filters.WithAuthenticationAndAuthorization, or the zero value.
pub data FilterProvider : Type 0 where
  no_filter with_authentication_and_authorization : FilterProvider

-- metricsserver.Options.
pub record MetricsOptions : Type 0 where
  pub bind_address : String
  pub secure_serving : Bool
  pub tls_opts : List TlsOption
  pub filter_provider : FilterProvider
  pub cert_dir : String
  pub cert_name : String
  pub key_name : String

unfoldable pub metrics_options : Flags → MetricsOptions
unfolding tls_options
metrics_options flags =
    let given = not (flags.metrics_cert_path == "") in
    record {
      bind_address = flags.metrics_addr;
      secure_serving = flags.secure_metrics;
      tls_opts = tls_options flags;
      filter_provider =
          if flags.secure_metrics then with_authentication_and_authorization else no_filter;
      cert_dir = if given then flags.metrics_cert_path else "";
      cert_name = if given then flags.metrics_cert_name else "";
      key_name = if given then flags.metrics_cert_key else "";
    }

-- ctrl.Options.
pub record ManagerOptions : Type 0 where
  pub metrics : MetricsOptions
  pub webhook_server : WebhookOptions
  pub health_probe_bind_address : String
  pub leader_election : Bool
  pub leader_election_id : String

unfoldable pub manager_options : Flags → ManagerOptions
unfolding metrics_options webhook_options
manager_options flags = record {
  metrics = metrics_options flags;
  webhook_server = webhook_options flags;
  health_probe_bind_address = flags.probe_addr;
  leader_election = flags.enable_leader_election;
  leader_election_id = "aeabae07.suse.com";
}
