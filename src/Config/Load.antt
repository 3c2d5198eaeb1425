-- ===== src/Config/Load.antt =====
-- loadFromPath, the three Load functions and NewLogger of internal/config/config.go. The file system,
-- viper and zap are parameters.
use http_broker.Base.{Bool, Option, none, some, Bytes, [], bytes_eq, if◌then◌else◌}
use http_broker.Config.Settings.{
  BrokerConfig, ConsumerConfig, ProviderConfig, zero_broker_config, zero_consumer_config,
  zero_provider_config,
}

-- What the load asks of a path: whether `os.Stat` says that the file does not exist, whether
-- `ReadInConfig` fails, and what `Unmarshal` leaves in the structure, with an error or without.
pub record Files (A : Type 0) : Type 0 where
  pub not_exist : Bytes → Bool
  pub read_fails : Bytes → Bool
  pub unmarshal : Bytes → A → A × Bool

pub data LoadError : Type 0 where
  read_error unmarshal_error : LoadError

pub data Loaded (A : Type 0) : Type 0 where
  loaded : A → Loaded A
  load_failed : LoadError → Loaded A

module _ {A : Type 0} (files : Files A) where
  -- `loadFromPath`: the structure after it and the error.
  unfoldable pub load_from_path : Bytes → A → A × Option LoadError
  load_from_path path dst =
      if files.not_exist path
      then (dst, none)
      else if files.read_fails path
      then (dst, some read_error)
      else let (cfg, failed) = files.unmarshal path dst in
        if failed then (cfg, some unmarshal_error) else (cfg, none)

  -- `LoadBrokerConfig`, `LoadConsumerConfig` and `LoadProviderConfig`, from their zero values.
  unfoldable pub load_config : A → Bytes → Loaded A
  load_config zero path =
      let (cfg, error) = load_from_path path zero in
      elim error [ none ↦ loaded cfg | some e ↦ load_failed e ]

unfoldable pub load_broker_config : Files BrokerConfig → Bytes → Loaded BrokerConfig
load_broker_config files path = load_config files zero_broker_config path

unfoldable pub load_consumer_config : Files ConsumerConfig → Bytes → Loaded ConsumerConfig
load_consumer_config files path = load_config files zero_consumer_config path

unfoldable pub load_provider_config : Files ProviderConfig → Bytes → Loaded ProviderConfig
load_provider_config files path = load_config files zero_provider_config path

-- `NewLogger` up to its level: `UnmarshalText` of zap and the build of the logger are parameters, a
-- level is what zap makes of it.
pub record Zap (L : Type 0) : Type 0 where
  pub info_level : L
  pub unmarshal_text : Bytes → Option L
  pub build_fails : L → Bool

pub data Logger (L : Type 0) : Type 0 where
  logs_at : L → Logger L
  invalid_level : Logger L
  build_failed : Logger L

unfoldable pub build_logger : {L : Type 0} → Zap L → L → Logger L
build_logger zap level = if zap.build_fails level then build_failed else logs_at level

unfoldable pub new_logger : {L : Type 0} → Zap L → Bytes → Logger L
new_logger zap level =
    if bytes_eq level []
    then build_logger zap zap.info_level
    else elim (zap.unmarshal_text level) [ none ↦ invalid_level | some l ↦ build_logger zap l ]
