-- ===== src/Config/Admission.antt =====
-- The session of a client that its command has started, at the door of the broker: what
-- authenticateConnect of internal/broker/server.go answers to the meta that Run sends.
use http_broker.Base.{
  ◌≡◌, ◌≢◌, refl, ◌⊎◌, inl, inr, ◌<◌, ◌≤◌, Option, none, some, Bytes, [], ◌∷◌, bytes_eq,
  bytes_eq_iff, codes, if◌then◌else◌, Bool-cases, arith, length, ltb, lookup, subst,
}
use http_broker.Client.{Connector, meta_value}
use http_broker.Config.Settings.{ConsumerConfig, ProviderConfig}
use http_broker.Config.Load.{
  Files, Zap, Loaded, loaded, load_failed, load_consumer_config, load_provider_config,
}
use http_broker.Config.Broker.{starts}
use http_broker.Config.Startup.{first_given}
use http_broker.Config.ConsumerCommand as ConsumerCommand
use http_broker.Config.ConsumerCommand.{ConsumerFlags}
use http_broker.Config.ProviderCommand as ProviderCommand
use http_broker.Config.ProviderCommand.{ProviderFlags}
use http_broker.Config.Joining.{
  ConsumerOutcome, ProviderOutcome, consumer_settings, provider_settings, consumer_start_lem,
  provider_start_lem,
}
use http_broker.Consumer.Settings as Consumer
use http_broker.Provider.Settings as Provider
use http_broker.Registry.Defs.{max_endpoint_name_len}
use http_broker.Server.Connect.{authenticate_connect, ConnectError, name_too_long}

-- What authenticateConnect answers to the meta of a Connector.
abbrev pub answered : Connector → Option ConnectError
answered c =
    authenticate_connect (meta_value (codes "role") c.meta) (meta_value (codes "endpoint") c.meta)

consumer_answered :
    (batch : Bytes) (c : Consumer.Config)
    → c.endpoint ≢ []
    → answered (Consumer.connector batch c)
      ≡ (if ltb max_endpoint_name_len (length c.endpoint) then some name_too_long else none)
unfolding Consumer.connector authenticate_connect lookup bytes_eq
consumer_answered batch c h = ground (arith, bytes_eq_iff c.endpoint [])

provider_answered :
    (batch : Bytes) (c : Provider.Config)
    → c.endpoint ≢ []
    → answered (Provider.connector batch c)
      ≡ (if ltb max_endpoint_name_len (length c.endpoint) then some name_too_long else none)
unfolding Provider.connector authenticate_connect lookup bytes_eq
provider_answered batch c h = ground (arith, bytes_eq_iff c.endpoint [])

given_or_default :
    (flag file default : Bytes) → default ≢ [] → first_given (first_given flag file) default ≢ []
given_or_default flag file default h =
    ground
      (arith, bytes_eq_iff flag [], bytes_eq_iff file [], bytes_eq_iff (first_given flag file) [])

default_is_given : codes "default" ≢ []
default_is_given e = absurd (cc e)

length-positive : (name : Bytes) → name ≢ [] → 1 ≤ length name
length-positive [] h = absurd (h refl)
length-positive (c ∷ cs) h = ground arith

-- A name is not empty, and the hook answers an error only for its length.
abbrev pub IsAcceptedBut : Bytes → Option ConnectError → Type 0
IsAcceptedBut name answer =
    ((answer ≡ none) × (1 ≤ length name) × (length name ≤ max_endpoint_name_len))
    ⊎ ((answer ≡ some name_too_long) × (max_endpoint_name_len < length name))

pub named_answer-IsAcceptedBut :
    (name : Bytes)
    → name ≢ []
    → IsAcceptedBut name
        (if ltb max_endpoint_name_len (length name) then some name_too_long else none)
named_answer-IsAcceptedBut name h = elim (Bool-cases (ltb max_endpoint_name_len (length name))) [
  | inl long ↦ inr (ground (arith, long), ground (arith, long))
  | inr short ↦ inl (ground (arith, short), length-positive name h, ground (arith, short))
]

module _ {L : Type 0} (zap : Zap L) where
  consumer-is_named :
      (files : Files ConsumerConfig) (flags : ConsumerFlags) (c : Consumer.Config)
      → ConsumerCommand.start files zap flags ≡ starts c
      → c.endpoint ≢ []
  consumer-is_named files flags c s = go (load_consumer_config files flags.config_file) (
      subst (ConsumerOutcome zap flags (load_consumer_config files flags.config_file)) s
        (consumer_start_lem zap files flags))
    where
      go :
          (read : Loaded ConsumerConfig)
          → ConsumerOutcome zap flags read (starts c)
          → c.endpoint ≢ []
      go (load_failed e) f = absurd (cc f)
      go (loaded file) (inr (f, why)) = absurd (cc f)
      go (loaded file) (inl (f, why)) =
          let same : consumer_settings flags file ≡ c = ground (arith, f) in
          subst (λ (d : Consumer.Config). d.endpoint ≢ []) same
            (given_or_default flags.endpoint file.broker.endpoint (codes "default")
              default_is_given)

  -- Whatever the file and the flags, the endpoint of a consumer that starts has a name, and to the role and
  -- the endpoint that its session sends authenticateConnect answers no error if this name has at most 128
  -- bytes, and that it is too long else. This is that hook's answer alone: the token is the middleware's,
  -- and whether the table of endpoints has room is onConnect's.
  pub consumer_meta_accepted :
      (files : Files ConsumerConfig) (flags : ConsumerFlags) (batch : Bytes) (c : Consumer.Config)
      → ConsumerCommand.start files zap flags ≡ starts c
      → IsAcceptedBut c.endpoint (answered (Consumer.connector batch c))
  consumer_meta_accepted files flags batch c s =
      let named = consumer-is_named files flags c s in
      rw (consumer_answered batch c named) (named_answer-IsAcceptedBut c.endpoint named)

  provider-is_named :
      (files : Files ProviderConfig) (flags : ProviderFlags) (c : Provider.Config)
      → ProviderCommand.start files zap flags ≡ starts c
      → c.endpoint ≢ []
  provider-is_named files flags c s = go (load_provider_config files flags.config_file) (
      subst (ProviderOutcome zap flags (load_provider_config files flags.config_file)) s
        (provider_start_lem zap files flags))
    where
      go :
          (read : Loaded ProviderConfig)
          → ProviderOutcome zap flags read (starts c)
          → c.endpoint ≢ []
      go (load_failed e) f = absurd (cc f)
      go (loaded file) (inr (f, why)) = absurd (cc f)
      go (loaded file) (inl (f, why)) =
          let same : provider_settings flags file ≡ c = ground (arith, f) in
          subst (λ (d : Provider.Config). d.endpoint ≢ []) same
            (given_or_default flags.endpoint file.broker.endpoint (codes "default")
              default_is_given)

  -- Whatever the file and the flags, the endpoint of a provider that starts has a name, and to the role and
  -- the endpoint that its session sends authenticateConnect answers no error if this name has at most 128
  -- bytes, and that it is too long else. This is that hook's answer alone: the token is the middleware's,
  -- and the place of the provider is the registry's.
  pub provider_meta_accepted :
      (files : Files ProviderConfig) (flags : ProviderFlags) (batch : Bytes) (c : Provider.Config)
      → ProviderCommand.start files zap flags ≡ starts c
      → IsAcceptedBut c.endpoint (answered (Provider.connector batch c))
  provider_meta_accepted files flags batch c s =
      let named = provider-is_named files flags c s in
      rw (provider_answered batch c named) (named_answer-IsAcceptedBut c.endpoint named)
