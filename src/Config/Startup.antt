-- ===== src/Config/Startup.antt =====
-- When cmd/broker/main.go starts the server, and with which settings.
use http_broker.Base.{
  ◌≡◌, ◌≢◌, refl, sym, ap, subst, ◌∙◌, ◌⊎◌, inl, inr, Bool, true, false, not, ◌&&◌, ◌||◌, none,
  some, Bytes, [], bytes_eq, bytes_eq_iff, codes, if◌then◌else◌, Bool-cases, arith,
}
use http_broker.Base.Int.{ℤ, pos, ltb_ℤ, ◌≤ℤ◌}
use http_broker.Config.Settings.{TlsConfig, BrokerConfig}
use http_broker.Config.Load.{
  Files, Zap, Logger, logs_at, invalid_level, build_failed, Loaded, loaded, load_failed,
  load_broker_config, new_logger,
}
use http_broker.Config.Broker.{
  BrokerFlags, broker_overrides, broker_defaults, check_broker, broker_config, Started, starts,
  refuses, panics, unreadable, half_configured_tls, negative_grace, grace_too_long, no_logger,
  start_broker, new_server, with_logger,
}
use http_broker.Server.Settings.{Config, effective_grace, server_config, resolve_poll_mode}
use http_broker.Server.Settings as Server

-- The first of two texts that is given.
abbrev pub first_given : Bytes → Bytes → Bytes
first_given a b = if bytes_eq a [] then b else a

abbrev pub given : Bytes → Bool
given a = not (bytes_eq a [])

-- The settings of the command as a table: where each comes from.
abbrev pub broker_settings : BrokerFlags → BrokerConfig → BrokerConfig
broker_settings flags file = record file {
  server = record file.server {
    listen = first_given (first_given flags.listen_addr file.server.listen) (codes ":8080");
    tls = record {
      enabled = file.server.tls.enabled || given flags.tls_cert || given flags.tls_key;
      cert_file = first_given flags.tls_cert file.server.tls.cert_file;
      key_file = first_given flags.tls_key file.server.tls.key_file;
    };
    status_endpoint_enabled = file.server.status_endpoint_enabled || flags.enable_status_endpoint;
  };
}

-- Every flag and every file: the listen address is that of the flag, else of the file, else ":8080"; TLS
-- is on if the file or either TLS flag says so; the certificate and the key are those of the flag, else of
-- the file; the status endpoint is on if the file or the flag says so; all other settings are the file's.
pub broker_overrides_lem :
    (flags : BrokerFlags) (file : BrokerConfig)
    → broker_defaults (broker_overrides flags file) ≡ broker_settings flags file
unfolding broker_defaults broker_overrides
broker_overrides_lem flags file = ground (arith, bytes_eq_iff flags.listen_addr [])

-- TLS is off, or has both of its files.
abbrev pub IsWhole : TlsConfig → Type 0
IsWhole tls = (tls.enabled ≡ false) ⊎ ((tls.cert_file ≢ []) × (tls.key_file ≢ []))

-- What the three checks decide.
check_broker_lem :
    (max_resume_grace : ℤ) (cfg : BrokerConfig)
    → let tls = cfg.server.tls in
      let grace = cfg.tunnel.resume_grace in
      let found = check_broker max_resume_grace cfg in
      ((found ≡ some half_configured_tls)
        × (tls.enabled ≡ true)
        × ((tls.cert_file ≡ []) ⊎ (tls.key_file ≡ [])))
      ⊎ ((found ≡ some negative_grace) × IsWhole tls × ¬ (pos 0 ≤ℤ grace))
      ⊎ ((found ≡ some grace_too_long)
          × IsWhole tls
          × (pos 0 ≤ℤ grace)
          × ¬ (grace ≤ℤ max_resume_grace))
      ⊎ ((found ≡ none) × IsWhole tls × (pos 0 ≤ℤ grace) × (grace ≤ℤ max_resume_grace))
unfolding check_broker
check_broker_lem max_resume_grace cfg =
    let tls = cfg.server.tls in
    let cert = bytes_eq_iff tls.cert_file [] in
    let key = bytes_eq_iff tls.key_file [] in
    elim (Bool-cases (tls.enabled && (bytes_eq tls.cert_file [] || bytes_eq tls.key_file []))) [
      | inl h ↦ inl (ground (arith, h), ground (arith, h), ground (arith, h, cert, key))
      | inr h ↦
          let whole : IsWhole tls = elim (Bool-cases tls.enabled) [
            | inl on ↦ inr (ground (arith, h, on, cert), ground (arith, h, on, key))
            | inr off ↦ inl off
          ] in
          elim (Bool-cases (ltb_ℤ cfg.tunnel.resume_grace (pos 0))) [
            | inl n ↦ inr (inl (ground (arith, h, n), whole, ground (arith, n)))
            | inr n ↦ elim (Bool-cases (ltb_ℤ max_resume_grace cfg.tunnel.resume_grace)) [
              | inl l ↦
                  inr (
                    inr
                      (inl (ground (arith, h, n, l), whole, ground (arith, n), ground (arith, l))))
              | inr l ↦
                  inr (
                    inr
                      (inr (ground (arith, h, n, l), whole, ground (arith, n), ground (arith, l))))
            ]
          ]
    ]

-- The logger cannot be made.
abbrev pub IsUnusable : {L : Type 0} → Logger L → Type 0
IsUnusable logger = (logger ≡ invalid_level) ⊎ (logger ≡ build_failed)

-- The settings that the server is made with, and those that it hands to pollmux, as tables.
abbrev pub server_settings : Bytes → BrokerFlags → BrokerConfig → Config
server_settings version flags file = record {
  listen_addr = first_given (first_given flags.listen_addr file.server.listen) (codes ":8080");
  tls_cert_file = first_given flags.tls_cert file.server.tls.cert_file;
  tls_key_file = first_given flags.tls_key file.server.tls.key_file;
  use_tls = file.server.tls.enabled || given flags.tls_cert || given flags.tls_key;
  poll_timeout = file.tunnel.poll_timeout;
  session_timeout = file.tunnel.session_timeout;
  coalesce_window = file.tunnel.coalesce_window;
  poll_buffer_size = file.tunnel.poll_buffer_size;
  max_send_bytes = file.tunnel.max_send_bytes;
  high_water_warn = file.tunnel.high_water_warn;
  poll_mode = file.tunnel.poll_mode;
  enable_websocket = file.tunnel.enable_websocket;
  enable_resume = file.tunnel.enable_resume;
  resume_grace = file.tunnel.resume_grace;
  auth_enabled = file.auth.enabled;
  auth_token = file.auth.token;
  status_endpoint_enabled = file.server.status_endpoint_enabled || flags.enable_status_endpoint;
  unauthorized_redirect_enabled = file.server.unauthorized_redirect.enabled;
  unauthorized_redirect_url = file.server.unauthorized_redirect.url;
  version = version;
}

abbrev pub pollmux_settings : Bytes → BrokerConfig → Server.ServerConfig
pollmux_settings stream file = record {
  poll_timeout = file.tunnel.poll_timeout;
  session_timeout = file.tunnel.session_timeout;
  coalesce_window = file.tunnel.coalesce_window;
  poll_buffer_size = file.tunnel.poll_buffer_size;
  max_send_bytes = file.tunnel.max_send_bytes;
  high_water_warn = file.tunnel.high_water_warn;
  poll_mode = first_given file.tunnel.poll_mode stream;
  enable_websocket = file.tunnel.enable_websocket;
  enable_resume = file.tunnel.enable_resume;
  resume_grace = file.tunnel.resume_grace;
}

broker_config_lem :
    (version : Bytes) (flags : BrokerFlags) (file : BrokerConfig)
    → broker_config version (broker_settings flags file) ≡ server_settings version flags file
unfolding broker_config
broker_config_lem version flags file = refl

server_config_lem :
    (stream version : Bytes) (flags : BrokerFlags) (file : BrokerConfig)
    → server_config stream (broker_config version (broker_settings flags file))
      ≡ pollmux_settings stream file
unfolding broker_config server_config resolve_poll_mode
server_config_lem stream version flags file = refl

-- NewServer with a logger, or none.
new_server_cases :
    {L : Type 0} (rejects : Server.ServerConfig → Bool) (stream : Bytes) (logger : Logger L)
    (c : Config)
    → let out = new_server rejects stream (with_logger logger c) in
      ((out ≡ refuses no_logger) × IsUnusable logger)
      ⊎ ((out ≡ panics)
          × ((l : L) × (logger ≡ logs_at l))
          × (rejects (server_config stream c) ≡ true))
      ⊎ ((out ≡ starts c)
          × ((l : L) × (logger ≡ logs_at l))
          × (rejects (server_config stream c) ≡ false))
new_server_cases rejects stream (logs_at l) c =
    elim (Bool-cases (rejects (server_config stream c))) [
      | inl bad ↦ inr (inl (ground (arith, bad), (l, refl), bad))
      | inr good ↦ inr (inr (ground (arith, good), (l, refl), good))
    ]
new_server_cases rejects stream invalid_level c = inl (refl, inl refl)
new_server_cases rejects stream build_failed c = inl (refl, inr refl)

module _ {L : Type 0} (files : Files BrokerConfig) (zap : Zap L)
    (rejects : Server.ServerConfig → Bool) (max_resume_grace : ℤ) (stream version : Bytes) where
  -- What comes of a file that could be read, and of one that could not.
  abbrev pub Outcome : BrokerFlags → Loaded BrokerConfig → Started Config → Type 0
  Outcome flags (load_failed e) out = out ≡ refuses (unreadable e)
  Outcome flags (loaded file) out =
      let tls = (broker_settings flags file).server.tls in
      let grace = file.tunnel.resume_grace in
      let logger = new_logger zap file.logging.level in
      ((out ≡ refuses half_configured_tls)
        × (tls.enabled ≡ true)
        × ((tls.cert_file ≡ []) ⊎ (tls.key_file ≡ [])))
      ⊎ ((out ≡ refuses negative_grace) × IsWhole tls × ¬ (pos 0 ≤ℤ grace))
      ⊎ ((out ≡ refuses grace_too_long)
          × IsWhole tls
          × (pos 0 ≤ℤ grace)
          × ¬ (grace ≤ℤ max_resume_grace))
      ⊎ (IsWhole tls
          × (pos 0 ≤ℤ grace)
          × (grace ≤ℤ max_resume_grace)
          × (((out ≡ refuses no_logger) × IsUnusable logger)
              ⊎ ((out ≡ panics)
                  × ((l : L) × (logger ≡ logs_at l))
                  × (rejects (pollmux_settings stream file) ≡ true))
              ⊎ ((out ≡ starts (server_settings version flags file))
                  × ((l : L) × (logger ≡ logs_at l))
                  × (rejects (pollmux_settings stream file) ≡ false))))

  -- The checks, the logger and NewServer on settings that are complete.
  abbrev decide : BrokerConfig → Started Config
  decide cfg = elim (check_broker max_resume_grace cfg) [
    | some e ↦ refuses e
    | none ↦
        new_server rejects stream
          (with_logger (new_logger zap cfg.logging.level) (broker_config version cfg))
  ]

  decide_lem :
      (flags : BrokerFlags) (file : BrokerConfig)
      → Outcome flags (loaded file) (decide (broker_settings flags file))
  decide_lem flags file =
      let cfg = broker_settings flags file in
      let logger = new_logger zap cfg.logging.level in
      let passed = server_config_lem stream version flags file in
      elim (check_broker_lem max_resume_grace cfg) [
        | inl (f, on, why) ↦ inl (ground (arith, f), on, why)
        | inr (inl (f, whole, why)) ↦ inr (inl (ground (arith, f), whole, why))
        | inr (inr (inl (f, whole, low, why))) ↦
            inr (inr (inl (ground (arith, f), whole, low, why)))
        | inr (inr (inr (f, whole, low, high))) ↦ inr (
            inr (
              inr (
                whole,
                low,
                high,
                elim (new_server_cases rejects stream logger (broker_config version cfg)) [
                  | inl (g, bad) ↦ inl (ground (arith, f, g), bad)
                  | inr (inl (g, good, bad)) ↦
                      inr (inl (ground (arith, f, g), good, ap rejects (sym passed) ∙ bad))
                  | inr (inr (g, good, fine)) ↦ inr (
                      inr (
                        ground (arith, f, g) ∙ ap starts (broker_config_lem version flags file),
                        good,
                        ap rejects (sym passed) ∙ fine,
                      ))
                ],
              )))
      ]

  -- Whatever the file and the flags, the broker refuses to start for a file that cannot be read or decoded,
  -- for TLS without a certificate or a key, a negative grace, a grace above the maximum, or a logger that
  -- cannot be made, and names the first of these that is the case; else it panics if pollmux rejects the
  -- settings that NewServer hands to it, and else it starts. TLS is on if the file or either TLS flag says
  -- so; the listen address is the flag's, else the file's, else ":8080"; the certificate and the key are
  -- the flag's, else the file's; the status endpoint is on if the file or the flag says so; the poll mode
  -- handed to pollmux is the file's, else stream; all other settings are the file's.
  pub start_broker_lem :
      (flags : BrokerFlags)
      → Outcome flags
          (load_broker_config files flags.config_file)
          (start_broker files zap rejects max_resume_grace stream version flags)
  unfolding start_broker
  start_broker_lem flags = go (load_broker_config files flags.config_file) refl
    where
      go :
          (read : Loaded BrokerConfig)
          → load_broker_config files flags.config_file ≡ read
          → Outcome flags read
              (start_broker files zap rejects max_resume_grace stream version flags)
      go (load_failed e) is = ground (arith, is)
      go (loaded file) is =
          subst (Outcome flags (loaded file))
            (sym (rw (is, start_broker) (ap decide (broker_overrides_lem flags file))))
            (decide_lem flags file)

module _ {L : Type 0} (files : Files BrokerConfig) (zap : Zap L)
    (rejects : Server.ServerConfig → Bool) (max_resume_grace default : ℤ)
    (stream version : Bytes) where
  abbrev IsSettled : Config → Type 0
  IsSettled c =
      ((c.use_tls ≡ false) ⊎ ((c.tls_cert_file ≢ []) × (c.tls_key_file ≢ [])))
      × (pos 1 ≤ℤ effective_grace default c.resume_grace)
      × (effective_grace default c.resume_grace ≤ℤ max_resume_grace)
