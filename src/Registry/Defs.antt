-- ===== src/Registry/Defs.antt =====
-- The data of internal/broker/endpoint.go. Endpoints are shared by pointers, so the registry is a map
-- from names to addresses and a store of what stands at each address.
use http_broker.Base.{
  ℕ, suc, Bool, true, false, ◌&&◌, Option, none, some, List, [], ◌∷◌, Bytes, leb, ◌==◌,
  if◌then◌else◌, length, lookup, insert, delete,
}

pub record BrokerSession : Type 0 where
  pub id : Bytes
  pub role : Bytes
  pub endpoint : Bytes

-- A yamux session is a handle; `none` stands for nil.
pub record Endpoint : Type 0 where
  pub name : Bytes
  pub provider_session : Option BrokerSession
  pub provider_yamux : Option ℕ
  pub consumer_sessions : List (Bytes × BrokerSession)
  pub waiters : ℕ
  pub consumer_yamux_sessions : List (Bytes × ℕ)

pub record Registry : Type 0 where
  pub endpoints : List (Bytes × ℕ)
  pub heap : ℕ → Endpoint
  pub next : ℕ

abbrev pub max_endpoints : ℕ
max_endpoints = 1024

abbrev pub max_endpoint_name_len : ℕ
max_endpoint_name_len = 128

abbrev pub new_endpoint : Bytes → Endpoint
new_endpoint name = record {
  name = name;
  provider_session = none;
  provider_yamux = none;
  consumer_sessions = [];
  waiters = 0;
  consumer_yamux_sessions = [];
}

-- `NewEndpointRegistry`.
unfoldable pub new_endpoint_registry : Registry
new_endpoint_registry = record { endpoints = []; heap = λ p. new_endpoint []; next = 0 }

abbrev pub update : (ℕ → Endpoint) → ℕ → Endpoint → ℕ → Endpoint
update h p ep q = if p == q then ep else h q

-- An assignment through the pointer `p`.
abbrev pub store : Registry → ℕ → Endpoint → Registry
store r p ep = record r { heap = update r.heap p ep }

abbrev pub is_nil {ℓ} : {A : Type ℓ} → Option A → Bool
is_nil none = true
is_nil (some a) = false

abbrev pub is_empty {ℓ} : {A : Type ℓ} → List A → Bool
is_empty [] = true
is_empty (x ∷ xs) = false

-- `getOrCreateLocked`, and `GetOrCreate` round it: the registry after it and the pointer, or the error.
unfoldable pub get_or_create : Registry → Bytes → Option (Registry × ℕ)
get_or_create r name = elim (lookup name r.endpoints) [
  | some p ↦ some (r, p)
  | none ↦
      if leb max_endpoints (length r.endpoints)
      then none
      else some (
        record {
          endpoints = insert name r.next r.endpoints;
          heap = update r.heap r.next (new_endpoint name);
          next = suc r.next;
        },
        r.next,
      )
]

-- The test of `deleteIfEmptyLocked` on the endpoint.
unfoldable pub is_unused : Endpoint → Bool
is_unused ep =
    is_nil ep.provider_session
    && is_empty ep.consumer_sessions
    && is_empty ep.consumer_yamux_sessions
    && ep.waiters == 0

unfoldable pub points_to : Option ℕ → ℕ → Bool
points_to none p = false
points_to (some q) p = q == p

unfoldable pub delete_if_empty : Registry → Bytes → ℕ → Registry
delete_if_empty r name p =
    if is_unused (r.heap p)
    then if points_to (lookup name r.endpoints) p
      then record r { endpoints = delete name r.endpoints }
      else r
    else r
