-- ===== src/Config/Joining.antt =====
-- When cmd/consumer/main.go and cmd/provider/main.go start their client, and with which settings.
use http_broker.Base.{
  zero, suc, ◌≡◌, refl, ap, ◌∙◌, ◌⊎◌, inl, inr, Bool, Option, none, some, [], bytes_eq_iff, codes,
  if◌then◌else◌, arith,
}
use http_broker.Base.Int.{ℤ, pos, negsuc}
use http_broker.Config.Settings.{ConsumerConfig, ProviderConfig}
use http_broker.Config.Load.{
  Files, Zap, Logger, Loaded, load_failed, logs_at, invalid_level, build_failed, loaded,
  load_consumer_config, load_provider_config, new_logger,
}
use http_broker.Config.Broker.{Started, starts, refuses, unreadable, no_logger, with_logger}
use http_broker.Config.Startup.{first_given, IsUnusable}
use http_broker.Config.Clients.{is_zero}
use http_broker.Consumer.Settings as Consumer
use http_broker.Provider.Settings as Provider
use http_broker.Config.ConsumerCommand as ConsumerCommand
use http_broker.Config.ConsumerCommand.{ConsumerFlags}
use http_broker.Config.ProviderCommand as ProviderCommand
use http_broker.Config.ProviderCommand.{ProviderFlags}

abbrev pub changed : Option Bool → Bool → Bool
changed none b = b
changed (some c) b = c

abbrev pub unless_zero : ℤ → ℤ → ℤ
unless_zero (pos zero) default = default
unless_zero (pos (suc n)) default = pos (suc n)
unless_zero (negsuc n) default = negsuc n

abbrev or_default : ℤ → ℤ → ℤ
or_default d default = if is_zero d then default else d

unless_zero_lem : (d default : ℤ) → unless_zero d default ≡ or_default d default
unless_zero_lem (pos zero) default = refl
unless_zero_lem (pos (suc n)) default = ground arith
unless_zero_lem (negsuc n) default = refl

abbrev pub consumer_settings : ConsumerFlags → ConsumerConfig → Consumer.Config
consumer_settings flags file = record {
  broker_url =
      first_given (first_given flags.broker_url file.broker.url) (codes "http://localhost:8080");
  endpoint = first_given (first_given flags.endpoint file.broker.endpoint) (codes "default");
  socks5_listen = first_given (first_given flags.socks5_listen file.socks5.listen) (codes ":1080");
  poll_interval = unless_zero file.transport.poll_interval (pos 50000000);
  retry_backoff = unless_zero file.transport.retry_backoff (pos 5000000000);
  insecure_skip_verify = changed flags.insecure_skip_verify file.broker.insecure_skip_verify;
  auth_token = file.broker.auth_token;
  coalesce_window = file.transport.coalesce_window;
  poll_mode = file.transport.poll_mode;
  poll_grace = file.transport.poll_grace;
  upload_stream_preference = file.transport.upload_stream_preference;
  upload_probe_timeout = file.transport.upload_probe_timeout;
  prefer_websocket = file.transport.prefer_websocket;
  prefer_resume = file.transport.prefer_resume;
}

abbrev consumer_table : ConsumerFlags → ConsumerConfig → ConsumerConfig
consumer_table flags file = record file {
  broker = record file.broker {
    url =
        first_given (first_given flags.broker_url file.broker.url) (codes "http://localhost:8080");
    endpoint = first_given (first_given flags.endpoint file.broker.endpoint) (codes "default");
    insecure_skip_verify = changed flags.insecure_skip_verify file.broker.insecure_skip_verify;
  };
  socks5 = record {
    listen = first_given (first_given flags.socks5_listen file.socks5.listen) (codes ":1080");
  };
  transport = record file.transport {
    poll_interval = or_default file.transport.poll_interval (pos 50000000);
    retry_backoff = or_default file.transport.retry_backoff (pos 5000000000);
  };
}

consumer_table_lem :
    (flags : ConsumerFlags) (file : ConsumerConfig)
    → ConsumerCommand.defaults (ConsumerCommand.overrides flags file) ≡ consumer_table flags file
unfolding ConsumerCommand.defaults ConsumerCommand.overrides
consumer_table_lem flags file = ground (
  arith,
  bytes_eq_iff flags.broker_url [],
  bytes_eq_iff flags.endpoint [],
  bytes_eq_iff flags.socks5_listen [],
)

consumer_table-config :
    (flags : ConsumerFlags) (file : ConsumerConfig)
    → ConsumerCommand.config (consumer_table flags file) ≡ consumer_settings flags file
unfolding ConsumerCommand.config
consumer_table-config flags file = cc (
  unless_zero_lem file.transport.poll_interval (pos 50000000),
  unless_zero_lem file.transport.retry_backoff (pos 5000000000),
)

consumer_settings_lem :
    (flags : ConsumerFlags) (file : ConsumerConfig)
    → ConsumerCommand.config (ConsumerCommand.defaults (ConsumerCommand.overrides flags file))
      ≡ consumer_settings flags file
consumer_settings_lem flags file =
    ap ConsumerCommand.config (consumer_table_lem flags file) ∙ consumer_table-config flags file

consumer_level :
    (flags : ConsumerFlags) (file : ConsumerConfig)
    → (ConsumerCommand.defaults (ConsumerCommand.overrides flags file)).logging.level
      ≡ file.logging.level
unfolding ConsumerCommand.defaults ConsumerCommand.overrides
consumer_level flags file = ground arith

abbrev pub provider_settings : ProviderFlags → ProviderConfig → Provider.Config
provider_settings flags file = record {
  broker_url =
      first_given (first_given flags.broker_url file.broker.url) (codes "http://localhost:8080");
  endpoint = first_given (first_given flags.endpoint file.broker.endpoint) (codes "default");
  poll_interval = unless_zero file.transport.poll_interval (pos 50000000);
  retry_backoff = unless_zero file.transport.retry_backoff (pos 5000000000);
  dial_timeout = unless_zero file.provider.dial_timeout (pos 10000000000);
  scrub_headers = changed flags.scrub_headers file.provider.scrub_headers;
  insecure_skip_verify = changed flags.insecure_skip_verify file.broker.insecure_skip_verify;
  auth_token = file.broker.auth_token;
  coalesce_window = file.transport.coalesce_window;
  poll_mode = file.transport.poll_mode;
  poll_grace = file.transport.poll_grace;
  upload_stream_preference = file.transport.upload_stream_preference;
  upload_probe_timeout = file.transport.upload_probe_timeout;
  prefer_websocket = file.transport.prefer_websocket;
  prefer_resume = file.transport.prefer_resume;
}

abbrev provider_table : ProviderFlags → ProviderConfig → ProviderConfig
provider_table flags file = record file {
  broker = record file.broker {
    url =
        first_given (first_given flags.broker_url file.broker.url) (codes "http://localhost:8080");
    endpoint = first_given (first_given flags.endpoint file.broker.endpoint) (codes "default");
    insecure_skip_verify = changed flags.insecure_skip_verify file.broker.insecure_skip_verify;
  };
  provider = record {
    scrub_headers = changed flags.scrub_headers file.provider.scrub_headers;
    dial_timeout = or_default file.provider.dial_timeout (pos 10000000000);
  };
  transport = record file.transport {
    poll_interval = or_default file.transport.poll_interval (pos 50000000);
    retry_backoff = or_default file.transport.retry_backoff (pos 5000000000);
  };
}

provider_table_lem :
    (flags : ProviderFlags) (file : ProviderConfig)
    → ProviderCommand.defaults (ProviderCommand.overrides flags file) ≡ provider_table flags file
unfolding ProviderCommand.defaults ProviderCommand.overrides
provider_table_lem flags file =
    ground (arith, bytes_eq_iff flags.broker_url [], bytes_eq_iff flags.endpoint [])

provider_table-config :
    (flags : ProviderFlags) (file : ProviderConfig)
    → ProviderCommand.config (provider_table flags file) ≡ provider_settings flags file
unfolding ProviderCommand.config
provider_table-config flags file = cc (
  unless_zero_lem file.transport.poll_interval (pos 50000000),
  unless_zero_lem file.transport.retry_backoff (pos 5000000000),
  unless_zero_lem file.provider.dial_timeout (pos 10000000000),
)

provider_settings_lem :
    (flags : ProviderFlags) (file : ProviderConfig)
    → ProviderCommand.config (ProviderCommand.defaults (ProviderCommand.overrides flags file))
      ≡ provider_settings flags file
provider_settings_lem flags file =
    ap ProviderCommand.config (provider_table_lem flags file) ∙ provider_table-config flags file

provider_level :
    (flags : ProviderFlags) (file : ProviderConfig)
    → (ProviderCommand.defaults (ProviderCommand.overrides flags file)).logging.level
      ≡ file.logging.level
unfolding ProviderCommand.defaults ProviderCommand.overrides
provider_level flags file = ground arith

-- A program starts with given settings, or its logger cannot be made.
abbrev pub StartsWith : {L C : Type 0} → Logger L → C → Started C → Type 0
StartsWith {L} logger c out =
    ((out ≡ starts c) × ((l : L) × (logger ≡ logs_at l)))
    ⊎ ((out ≡ refuses no_logger) × IsUnusable logger)

with_logger-StartsWith :
    {L C : Type 0} (logger : Logger L) (c : C) → StartsWith logger c (with_logger logger c)
with_logger-StartsWith (logs_at l) c = inl (refl, (l, refl))
with_logger-StartsWith invalid_level c = inr (refl, inl refl)
with_logger-StartsWith build_failed c = inr (refl, inr refl)

module _ {L : Type 0} (zap : Zap L) where
  -- What comes of a file of the consumer that could be read, and of one that could not.
  abbrev pub ConsumerOutcome :
      ConsumerFlags → Loaded ConsumerConfig → Started Consumer.Config → Type 0
  ConsumerOutcome flags (load_failed e) out = out ≡ refuses (unreadable e)
  ConsumerOutcome flags (loaded file) out =
      StartsWith (new_logger zap file.logging.level) (consumer_settings flags file) out

  -- Whatever the file and the flags: a file that cannot be read or decoded is refused, and else the consumer
  -- starts exactly if its logger can be made. It starts with these settings: the URL of the broker, the
  -- endpoint and the listen address are those of the flags, else of the file, else "http://localhost:8080",
  -- "default" and ":1080"; certificates are checked as the flag says, if it is set, else as the file says;
  -- a poll interval and a backoff of zero are 50 milliseconds and 5 seconds; the rest is the file's.
  pub consumer_start_lem :
      (files : Files ConsumerConfig) (flags : ConsumerFlags)
      → ConsumerOutcome flags
          (load_consumer_config files flags.config_file)
          (ConsumerCommand.start files zap flags)
  unfolding ConsumerCommand.start
  consumer_start_lem files flags = go (load_consumer_config files flags.config_file) refl
    where
      go :
          (read : Loaded ConsumerConfig)
          → load_consumer_config files flags.config_file ≡ read
          → ConsumerOutcome flags read (ConsumerCommand.start files zap flags)
      go (load_failed e) is = ground (arith, is)
      go (loaded file) is =
          rw
            (is, ConsumerCommand.start, consumer_settings_lem flags file, consumer_level flags file)
            (with_logger-StartsWith (new_logger zap file.logging.level)
              (consumer_settings flags file))

  -- What comes of a file of the provider that could be read, and of one that could not.
  abbrev pub ProviderOutcome :
      ProviderFlags → Loaded ProviderConfig → Started Provider.Config → Type 0
  ProviderOutcome flags (load_failed e) out = out ≡ refuses (unreadable e)
  ProviderOutcome flags (loaded file) out =
      StartsWith (new_logger zap file.logging.level) (provider_settings flags file) out

  -- Whatever the file and the flags: a file that cannot be read or decoded is refused, and else the provider
  -- starts exactly if its logger can be made. It starts with these settings: the URL of the broker and the
  -- endpoint are those of the flags, else of the file, else "http://localhost:8080" and "default"; headers
  -- are scrubbed and certificates checked as the flags say, if they are set, else as the file says; a dial
  -- timeout, a poll interval and a backoff of zero are 10 seconds, 50 milliseconds and 5 seconds; the rest
  -- is the file's.
  pub provider_start_lem :
      (files : Files ProviderConfig) (flags : ProviderFlags)
      → ProviderOutcome flags
          (load_provider_config files flags.config_file)
          (ProviderCommand.start files zap flags)
  unfolding ProviderCommand.start
  provider_start_lem files flags = go (load_provider_config files flags.config_file) refl
    where
      go :
          (read : Loaded ProviderConfig)
          → load_provider_config files flags.config_file ≡ read
          → ProviderOutcome flags read (ProviderCommand.start files zap flags)
      go (load_failed e) is = ground (arith, is)
      go (loaded file) is =
          rw
            (is, ProviderCommand.start, provider_settings_lem flags file, provider_level flags file)
            (with_logger-StartsWith (new_logger zap file.logging.level)
              (provider_settings flags file))
