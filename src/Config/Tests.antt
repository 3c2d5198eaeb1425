-- ===== src/Config/Tests.antt =====
-- The commands on one configuration file and some flags.
use http_broker.Base.{
  ◌≡◌, refl, Bool, true, false, not, ◌||◌, none, some, Bytes, [], bytes_eq, codes, if◌then◌else◌,
}
use http_broker.Base.Int.{pos, ltb_ℤ}
use http_broker.Config.Settings.{
  BrokerConfig, ConsumerConfig, ProviderConfig, zero_broker_config, zero_consumer_config,
  zero_provider_config,
}
use http_broker.Config.Load.{
  Files, Zap, loaded, load_broker_config, load_consumer_config, load_provider_config, load_config,
  load_from_path, new_logger, build_logger,
}
use http_broker.Config.Broker.{
  BrokerFlags, broker_overrides, broker_defaults, broker_config, starts, refuses, panics,
  half_configured_tls, check_broker, start_broker,
}
use http_broker.Config.Startup.{server_settings, Outcome, start_broker_lem}
use http_broker.Config.ConsumerCommand as ConsumerCommand
use http_broker.Config.ConsumerCommand.{ConsumerFlags}
use http_broker.Config.ProviderCommand as ProviderCommand
use http_broker.Config.ProviderCommand.{ProviderFlags}
use http_broker.Config.Joining.{
  consumer_settings, provider_settings, ConsumerOutcome, ProviderOutcome, consumer_start_lem,
  provider_start_lem,
}
use http_broker.Config.Admission.{
  answered, IsAcceptedBut, consumer_meta_accepted, provider_meta_accepted,
}
use http_broker.Consumer.Settings as Consumer
use http_broker.Provider.Settings as Provider
use http_broker.Server.Settings.{Config, server_config, resolve_poll_mode}
use http_broker.Server.Settings as Server

-- One file exists, which decodes to a given structure.
abbrev one_file : {A : Type 0} → Bytes → A → Files A
one_file path content = record {
  not_exist = λ p. if bytes_eq p path then false else true;
  read_fails = λ p. false;
  unmarshal = λ p a. (content, false);
}

-- A logger with the levels 0 and 1, of which zap can build both.
abbrev two_levels : Zap Bool
two_levels = record {
  info_level = true;
  unmarshal_text = λ text. if bytes_eq text (codes "debug") then some false else none;
  build_fails = λ l. false;
}

abbrev broker_file : BrokerConfig
broker_file = record zero_broker_config {
  tunnel = record zero_broker_config.tunnel { resume_grace = pos 30 };
}

abbrev broker_flags : BrokerFlags
broker_flags = record {
  config_file = codes "b.yaml";
  listen_addr = [];
  tls_cert = codes "c.pem";
  tls_key = codes "k.pem";
  enable_status_endpoint = true;
}

abbrev broker_files : Files BrokerConfig
broker_files = one_file (codes "b.yaml") broker_file

abbrev version : Bytes
version = codes "1.0"

abbrev stream : Bytes
stream = codes "stream"

-- A check of the poll mode and of the session timeout.
abbrev rejects : Server.ServerConfig → Bool
rejects c =
    not (bytes_eq c.poll_mode stream || bytes_eq c.poll_mode (codes "batch"))
    || ltb_ℤ c.session_timeout c.poll_timeout

-- A certificate without a key is refused.
certificate_alone :
    start_broker broker_files two_levels rejects
      (pos 60)
      stream
      version
      (record broker_flags { tls_key = [] })
    ≡ refuses half_configured_tls
unfolding start_broker load_broker_config load_config load_from_path bytes_eq check_broker
    broker_defaults broker_overrides
certificate_alone = refl

abbrev settled : Config
settled = server_settings version broker_flags broker_file

start_broker_lem_example :
    Outcome broker_files two_levels rejects
      (pos 60)
      stream
      version
      broker_flags
      (loaded broker_file)
      (start_broker broker_files two_levels rejects (pos 60) stream version broker_flags)
unfolding load_broker_config load_config load_from_path bytes_eq
start_broker_lem_example =
    start_broker_lem broker_files two_levels rejects (pos 60) stream version broker_flags

-- A poll mode that pollmux rejects is a panic.
rejected_mode :
    start_broker
      (one_file
        (codes "b.yaml")
        (record broker_file { tunnel = record broker_file.tunnel { poll_mode = codes "none" } }))
      two_levels
      rejects
      (pos 60)
      stream
      version
      broker_flags
    ≡ panics
unfolding start_broker load_broker_config load_config load_from_path bytes_eq check_broker
    broker_defaults broker_overrides new_logger build_logger broker_config server_config
    resolve_poll_mode
rejected_mode = refl

abbrev consumer_file : ConsumerConfig
consumer_file = record zero_consumer_config {
  broker = record zero_consumer_config.broker { endpoint = codes "home" };
}

abbrev consumer_flags : ConsumerFlags
consumer_flags = record {
  config_file = codes "c.yaml";
  broker_url = codes "http://b";
  endpoint = [];
  socks5_listen = [];
  insecure_skip_verify = some true;
}

abbrev consumer_files : Files ConsumerConfig
consumer_files = one_file (codes "c.yaml") consumer_file

abbrev consumer_run : Consumer.Config
consumer_run = consumer_settings consumer_flags consumer_file

consumer_start_lem_example :
    ConsumerOutcome two_levels consumer_flags
      (loaded consumer_file)
      (ConsumerCommand.start consumer_files two_levels consumer_flags)
unfolding load_consumer_config load_config load_from_path bytes_eq
consumer_start_lem_example = consumer_start_lem two_levels consumer_files consumer_flags

consumer_starts :
    ConsumerCommand.start consumer_files two_levels consumer_flags ≡ starts consumer_run
unfolding ConsumerCommand.start load_consumer_config load_config load_from_path bytes_eq
    ConsumerCommand.overrides ConsumerCommand.defaults new_logger build_logger
    ConsumerCommand.config
consumer_starts = refl

consumer_meta_accepted_example :
    IsAcceptedBut consumer_run.endpoint (answered (Consumer.connector (codes "batch") consumer_run))
consumer_meta_accepted_example =
    consumer_meta_accepted two_levels consumer_files consumer_flags (codes "batch") consumer_run
      consumer_starts

abbrev provider_file : ProviderConfig
provider_file = record zero_provider_config {
  provider = record zero_provider_config.provider { scrub_headers = true };
}

abbrev provider_flags : ProviderFlags
provider_flags = record {
  config_file = codes "p.yaml";
  broker_url = [];
  endpoint = [];
  scrub_headers = none;
  insecure_skip_verify = none;
}

abbrev provider_files : Files ProviderConfig
provider_files = one_file (codes "p.yaml") provider_file

abbrev provider_run : Provider.Config
provider_run = provider_settings provider_flags provider_file

provider_start_lem_example :
    ProviderOutcome two_levels provider_flags
      (loaded provider_file)
      (ProviderCommand.start provider_files two_levels provider_flags)
unfolding load_provider_config load_config load_from_path bytes_eq
provider_start_lem_example = provider_start_lem two_levels provider_files provider_flags

provider_starts :
    ProviderCommand.start provider_files two_levels provider_flags ≡ starts provider_run
unfolding ProviderCommand.start load_provider_config load_config load_from_path bytes_eq
    ProviderCommand.overrides ProviderCommand.defaults new_logger build_logger
    ProviderCommand.config
provider_starts = refl

provider_meta_accepted_example :
    IsAcceptedBut provider_run.endpoint (answered (Provider.connector (codes "batch") provider_run))
provider_meta_accepted_example =
    provider_meta_accepted two_levels provider_files provider_flags (codes "batch") provider_run
      provider_starts
