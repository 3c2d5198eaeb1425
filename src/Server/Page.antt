-- ===== src/Server/Page.antt =====
-- The whole answer of handleStatus of internal/broker/server.go: the endpoints and the counts of sessions.
use http_broker.Base.{
  ℕ, suc, ◌+◌, ◌≤◌, ◌≡◌, refl, sym, subst, Bool, false, not, ◌&&◌, Option, none, some, List, [],
  ◌∷◌, Bytes, if◌then◌else◌, arith, length, keep_if, All,
}
use http_broker.Registry.Defs.{BrokerSession, Endpoint, Registry, is_nil}
use http_broker.Registry.View.{view}
use http_broker.Server.Settings.{Config}
use http_broker.Server.Status.{
  EndpointStatus, count_resumable, endpoint_status, handle_status, find_status, status_of,
  IsCoherent, handle_status_lem,
}

-- The JSON of `/status`; the sessions are those of the store.
pub record Page : Type 0 where
  pub version : Bytes
  pub endpoints : List EndpointStatus
  pub total_sessions : ℕ
  pub resumable_sessions : ℕ
  pub detached_resumable_sessions : ℕ

module _ (resumable : BrokerSession → Bool) (resume_left : BrokerSession → Option ℕ) where
  -- The loop over the sessions, with its two counters.
  unfoldable pub count_sessions : ℕ → ℕ → List BrokerSession → ℕ × ℕ
  count_sessions n m [] = (n, m)
  count_sessions n m (s ∷ ss) =
      let n' = if resumable s then suc n else n in
      let m' = if resumable s && not (is_nil (resume_left s)) then suc m else m in
      count_sessions n' m' ss

  unfoldable pub status_page : Config → Registry → List BrokerSession → Page
  status_page cfg r sessions =
      let counts = count_sessions 0 0 sessions in
      record {
        version = cfg.version;
        endpoints = handle_status resumable resume_left r;
        total_sessions = length sessions;
        resumable_sessions = counts.0;
        detached_resumable_sessions = counts.1;
      }

  -- Resumable, and without a transport.
  abbrev pub is_detached : BrokerSession → Bool
  is_detached s = resumable s && not (is_nil (resume_left s))

  count_sessions_lem :
      (n m : ℕ) (ss : List BrokerSession)
      → ((count_sessions n m ss).0 ≡ n + length (keep_if resumable ss))
        × ((count_sessions n m ss).1 ≡ m + length (keep_if is_detached ss))
  unfolding count_sessions
  count_sessions_lem n m [] = (omega arith, omega arith)
  count_sessions_lem n m (s ∷ ss) =
      let n' = if resumable s then suc n else n in
      let m' = if resumable s && not (is_nil (resume_left s)) then suc m else m in
      let rest = count_sessions_lem n' m' ss in (ground (arith, rest.0), ground (arith, rest.1))

  keep_if-detached-le :
      (ss : List BrokerSession) → length (keep_if is_detached ss) ≤ length (keep_if resumable ss)
  keep_if-detached-le [] = omega arith
  keep_if-detached-le (s ∷ ss) = ground (arith, keep_if-detached-le ss)

  keep_if-resumable-le : (ss : List BrokerSession) → length (keep_if resumable ss) ≤ length ss
  keep_if-resumable-le [] = omega arith
  keep_if-resumable-le (s ∷ ss) = ground (arith, keep_if-resumable-le ss)

  -- What an entry says of an endpoint, field by field.
  pub record Describes (n : Bytes) (ep : Endpoint) (st : EndpointStatus) : Type 0 where
    pub named : st.name ≡ n
    pub there : st.has_provider ≡ not (is_nil ep.provider_session)
    pub all_consumers : st.consumer_count ≡ length ep.consumer_sessions
    pub some_consumers :
        st.resumable_consumer_count ≡ length (keep_if (λ e. resumable e.1) ep.consumer_sessions)
    pub without_provider :
        ep.provider_session ≡ none
        → (st.provider_resumable ≡ false)
          × (st.provider_detached ≡ false)
          × (st.provider_resume_grace_left ≡ none)
    pub with_provider :
        (p : BrokerSession)
        → ep.provider_session ≡ some p
        → (st.provider_resumable ≡ resumable p)
          × (st.provider_detached ≡ not (is_nil (resume_left p)))
          × (st.provider_resume_grace_left ≡ resume_left p)

  -- A name has no entry without an endpoint, and else one that describes it.
  abbrev pub IsShown : Bytes → Option Endpoint → Option EndpointStatus → Type 0
  IsShown n none found = found ≡ none
  IsShown n (some ep) found = (st : EndpointStatus) × (found ≡ some st) × Describes n ep st

  count_resumable_lem :
      (cs : List (Bytes × BrokerSession))
      → count_resumable resumable cs ≡ length (keep_if (λ e. resumable e.1) cs)
  unfolding count_resumable
  count_resumable_lem [] = refl
  count_resumable_lem (c ∷ cs) = ground (arith, count_resumable_lem cs)

  endpoint_status-Describes :
      (n : Bytes) (ep : Endpoint) → Describes n ep (endpoint_status resumable resume_left n ep)
  unfolding endpoint_status
  endpoint_status-Describes n ep = record {
    named = ground arith;
    there = ground arith;
    all_consumers = ground arith;
    some_consumers = ground (arith, count_resumable_lem ep.consumer_sessions);
    without_provider = λ e. (ground (arith, e), ground (arith, e), ground (arith, e));
    with_provider = λ p e. (ground (arith, e), ground (arith, e), ground (arith, e));
  }

  status_of-IsShown :
      (n : Bytes) (seen : Option Endpoint) → IsShown n seen (status_of resumable resume_left n seen)
  status_of-IsShown n none = refl
  status_of-IsShown n (some ep) =
      (endpoint_status resumable resume_left n ep, refl, endpoint_status-Describes n ep)

  -- The answer of `/status` has an entry for each endpoint of the table and no other: a name has an entry
  -- exactly if it has an endpoint, there are as many as endpoints, and the entry says the endpoint's name,
  -- whether it has a provider, how many consumers it has and how many of them are resumable, and of the
  -- provider, if there is one, whether it is resumable, whether it is detached and how long it has left.
  -- No entry counts more resumable consumers than consumers, calls a provider resumable or detached that
  -- is not there, or gives a time left to one that is not detached. The counts of the page are those of
  -- all the store's sessions, of the resumable ones among them, and of the detached ones among these.
  pub status_page_lem :
      (cfg : Config) (r : Registry) (sessions : List BrokerSession) (n : Bytes)
      → let page = status_page cfg r sessions in
        IsShown n (view r n) (find_status n page.endpoints)
        × All IsCoherent page.endpoints
        × (length page.endpoints ≡ length r.endpoints)
        × (page.total_sessions ≡ length sessions)
        × (page.resumable_sessions ≡ length (keep_if resumable sessions))
        × (page.detached_resumable_sessions ≡ length (keep_if is_detached sessions))
        × (page.detached_resumable_sessions ≤ page.resumable_sessions)
        × (page.resumable_sessions ≤ page.total_sessions)
  unfolding status_page
  status_page_lem cfg r sessions n =
      let (found, coherent, as_many) = handle_status_lem resumable resume_left r n in
      let (some_resume, some_wait) = count_sessions_lem 0 0 sessions in
      (
        subst (IsShown n (view r n)) (sym found) (status_of-IsShown n (view r n)),
        coherent,
        as_many,
        refl,
        omega (arith, some_resume),
        omega (arith, some_wait),
        omega (arith, some_resume, some_wait, keep_if-detached-le sessions),
        omega (arith, some_resume, keep_if-resumable-le sessions),
      )
