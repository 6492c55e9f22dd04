-- ===== src/Startup/Options/Tls.antt =====
-- What the servers of cmd/main.go offer to their clients.
use elemental_lifecycle_mana.Prelude.{String, Bool, if◌then◌else◌, List, [], ◌∷◌, ◌≡◌, arith}
use elemental_lifecycle_mana.Startup.Options.{
  Flags, TlsConfig, TlsOption, with_authentication_and_authorization, no_filter, manager_options,
}

-- The servers pass their configuration through the options in order.
abbrev pub with_options : List TlsOption → TlsConfig → TlsConfig
with_options [] c = c
with_options (option ∷ options) c = with_options options (option c)

-- The protocols that a server offers, if its configuration was `c`: HTTP/1.1 alone, or those of `c`.
abbrev pub protocols_for : Bool → TlsConfig → List String
protocols_for enable_http2 c = if enable_http2 then c.next_protos else "http/1.1" ∷ []

-- Unless HTTP/2 is enabled, both servers offer HTTP/1.1 alone, whatever their configuration was, and
-- with it enabled they offer what that says; metrics have the filter for authentication and
-- authorization exactly when they are served over HTTPS.
pub manager_options-IsHardened :
    (flags : Flags) (c : TlsConfig)
    → let options = manager_options flags in
      ((with_options options.webhook_server.tls_opts c).next_protos
        ≡ protocols_for flags.enable_http2 c)
      × ((with_options options.metrics.tls_opts c).next_protos ≡ protocols_for flags.enable_http2 c)
      × (options.metrics.filter_provider ≡ (
          if options.metrics.secure_serving
          then with_authentication_and_authorization
          else no_filter))
unfolding manager_options
manager_options-IsHardened flags c = ground arith
