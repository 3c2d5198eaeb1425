-- ===== src/Server/Status.antt =====
-- handleStatus of internal/broker/server.go: what `/status` says of each endpoint. Resumability, and the
-- time that a detached session has left, are answers of pollmux.
use http_broker.Base.{
  ℕ, suc, ◌≤◌, ◌≡◌, refl, ap, inl, inr, Bool, true, false, not, Option, none, some, List, [], ◌∷◌,
  Bytes, bytes_eq, bytes_eq_iff, if◌then◌else◌, Bool-cases, arith, length, lookup, All,
}
use http_broker.Registry.Defs.{BrokerSession, Endpoint, Registry, is_nil}
use http_broker.Registry.View.{view}

pub record EndpointStatus : Type 0 where
  pub name : Bytes
  pub has_provider : Bool
  pub consumer_count : ℕ
  pub provider_resumable : Bool
  pub provider_detached : Bool
  pub provider_resume_grace_left : Option ℕ
  pub resumable_consumer_count : ℕ

-- The loop over the consumers, and that over all sessions.
unfoldable pub count_resumable : (BrokerSession → Bool) → List (Bytes × BrokerSession) → ℕ
count_resumable resumable [] = 0
count_resumable resumable ((id, c) ∷ cs) =
    let n = count_resumable resumable cs in if resumable c then suc n else n

module _ (resumable : BrokerSession → Bool) (resume_left : BrokerSession → Option ℕ) where
  -- The body of the loop over the endpoints.
  unfoldable pub endpoint_status : Bytes → Endpoint → EndpointStatus
  endpoint_status name ep =
      let n = length ep.consumer_sessions in
      let m = count_resumable resumable ep.consumer_sessions in
      elim ep.provider_session [
        | none ↦ record {
          name = name;
          has_provider = false;
          consumer_count = n;
          provider_resumable = false;
          provider_detached = false;
          provider_resume_grace_left = none;
          resumable_consumer_count = m;
        }
        | some p ↦ record {
          name = name;
          has_provider = true;
          consumer_count = n;
          provider_resumable = resumable p;
          provider_detached = not (is_nil (resume_left p));
          provider_resume_grace_left = resume_left p;
          resumable_consumer_count = m;
        }
      ]

  unfoldable pub statuses : (ℕ → Endpoint) → List (Bytes × ℕ) → List EndpointStatus
  statuses heap [] = []
  statuses heap ((name, p) ∷ m) = endpoint_status name (heap p) ∷ statuses heap m

  unfoldable pub handle_status : Registry → List EndpointStatus
  handle_status r = statuses r.heap r.endpoints

-- The first status of a name.
abbrev pub find_status : Bytes → List EndpointStatus → Option EndpointStatus
find_status n [] = none
find_status n (st ∷ sts) = if bytes_eq st.name n then some st else find_status n sts

abbrev pub status_of :
    (BrokerSession → Bool)
    → (BrokerSession → Option ℕ)
    → Bytes
    → Option Endpoint
    → Option EndpointStatus
status_of resumable resume_left n none = none
status_of resumable resume_left n (some ep) = some (endpoint_status resumable resume_left n ep)

count_resumable-le :
    (resumable : BrokerSession → Bool) (cs : List (Bytes × BrokerSession))
    → count_resumable resumable cs ≤ length cs
unfolding count_resumable
count_resumable-le resumable [] = omega arith
count_resumable-le resumable (c ∷ cs) = ground (arith, count_resumable-le resumable cs)

-- A status that does not contradict itself.
pub record IsCoherent (st : EndpointStatus) : Type 0 where
  pub some_of_all : st.resumable_consumer_count ≤ st.consumer_count
  pub resumable_there : st.provider_resumable ≡ true → st.has_provider ≡ true
  pub detached_there : st.provider_detached ≡ true → st.has_provider ≡ true
  pub left_if_detached : st.provider_detached ≡ not (is_nil st.provider_resume_grace_left)

module _ (resumable : BrokerSession → Bool) (resume_left : BrokerSession → Option ℕ) where
  endpoint_status-IsCoherent :
      (n : Bytes) (ep : Endpoint) → IsCoherent (endpoint_status resumable resume_left n ep)
  unfolding endpoint_status
  endpoint_status-IsCoherent n ep = go ep.provider_session refl
    where
      go :
          (x : Option BrokerSession)
          → ep.provider_session ≡ x
          → IsCoherent (endpoint_status resumable resume_left n ep)
      go none e =
          rw (e, endpoint_status)
            (record {
              some_of_all = count_resumable-le resumable ep.consumer_sessions;
              resumable_there = λ f. f;
              detached_there = λ f. f;
              left_if_detached = refl;
            })
      go (some p) e =
          rw (e, endpoint_status)
            (record {
              some_of_all = count_resumable-le resumable ep.consumer_sessions;
              resumable_there = λ f. refl;
              detached_there = λ f. refl;
              left_if_detached = refl;
            })

  endpoint_status-name :
      (n : Bytes) (ep : Endpoint) → (endpoint_status resumable resume_left n ep).name ≡ n
  unfolding endpoint_status
  endpoint_status-name n ep = ground arith

  statuses-find :
      (heap : ℕ → Endpoint) (m : List (Bytes × ℕ)) (n : Bytes)
      → find_status n (statuses resumable resume_left heap m) ≡ (elim (lookup n m) [
        | none ↦ none
        | some p ↦ some (endpoint_status resumable resume_left n (heap p))
      ])
  unfolding statuses lookup
  statuses-find heap [] n = refl
  statuses-find heap ((k, p) ∷ m) n = elim (Bool-cases (bytes_eq k n)) [
    | inl e ↦
        let same : k ≡ n = (bytes_eq_iff k n).0 e in
        ground (
          arith,
          e,
          endpoint_status-name k (heap p),
          ap (λ u. endpoint_status resumable resume_left u (heap p)) same,
        )
    | inr e ↦ ground (arith, e, endpoint_status-name k (heap p), statuses-find heap m n)
  ]

  statuses_are :
      (heap : ℕ → Endpoint) (m : List (Bytes × ℕ))
      → All IsCoherent (statuses resumable resume_left heap m)
        × (length (statuses resumable resume_left heap m) ≡ length m)
  unfolding statuses
  statuses_are heap [] = (tt, refl)
  statuses_are heap ((k, p) ∷ m) =
      let rest = statuses_are heap m in
      ((endpoint_status-IsCoherent k (heap p), rest.0), ap suc rest.1)

  -- The answer of `/status` has an entry for each endpoint of the table and no other: the entry of a name
  -- is the status of the endpoint under that name, there are as many as endpoints, and no entry counts
  -- more resumable consumers than consumers, calls a provider resumable or detached that is not there, or
  -- gives a time left to one that is not detached.
  pub handle_status_lem :
      (r : Registry) (n : Bytes)
      → (find_status n (handle_status resumable resume_left r)
          ≡ status_of resumable resume_left n (view r n))
        × All IsCoherent (handle_status resumable resume_left r)
        × (length (handle_status resumable resume_left r) ≡ length r.endpoints)
  unfolding handle_status view
  handle_status_lem r n =
      let are = statuses_are r.heap r.endpoints in
      (ground (arith, statuses-find r.heap r.endpoints n), are.0, are.1)
