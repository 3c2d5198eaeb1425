-- ===== src/Registry/Abstraction.antt =====
-- The registry of internal/broker/endpoint.go as a directory, and what the callers of its methods see.
use http_broker.Base.{
  ℕ, ◌≤◌, ◌<◌, ◌≡◌, Bool, none, some, List, [], ◌∷◌, Bytes, arith, length, lookup, insert,
}
use http_broker.Registry.Defs.{
  BrokerSession, Endpoint, Registry, max_endpoints, new_endpoint, store,
}
use http_broker.Registry.Ops.{
  Result, ok, err, endpoint_limit, set_provider, add_consumer, remove_provider, WaitStart, refused,
  waits_on, wait_begin,
}
use http_broker.Registry.Soundness.{IsSound, created, created-IsSound}
use http_broker.Registry.View.{lookup-created}
use http_broker.Registry.Modify.{Waiting}
use http_broker.Registry.System.{System}
use http_broker.Registry.Waiters.{
  Call, set_provider_call, add_consumer_call, remove_provider_call, forget_call, register_call,
  unregister_call, wait_begin_call, wait_end_call, step,
}
use http_broker.Registry.Spec.{
  Promise, Answer, nothing, fails, warns_of, closes, goes_waiting, entry,
}
use http_broker.Registry.Flatten.{flatten, length-entries, lookup-entries, flatten-first_use}

unfoldable pub names : Waiting → List Bytes
names [] = []
names ((n, p) ∷ ws) = n ∷ names ws

-- What is left of the broker's registry when the addresses are forgotten.
abbrev pub abstraction : System → Promise
abstraction s = record { directory = flatten s.registry; waiting = names s.waiting }

abbrev pub result_answer : Result (List BrokerSession) → Answer
result_answer (ok peers) = warns_of peers
result_answer (err e) = fails e

abbrev pub start_answer : WaitStart → Answer
start_answer refused = fails endpoint_limit
start_answer (waits_on p) = goes_waiting

module _ (resumable : BrokerSession → Bool) where
  -- What the caller of a method sees.
  unfoldable pub answer : System → Call → Answer
  answer s (set_provider_call n b ys) =
      result_answer (set_provider resumable s.registry n b ys).result
  answer s (add_consumer_call n b) = result_answer (add_consumer resumable s.registry n b).result
  answer s (remove_provider_call n id) = closes (remove_provider s.registry n id).1
  answer s (forget_call id role n) = nothing
  answer s (register_call n id ys) = nothing
  answer s (unregister_call n id) = nothing
  answer s (wait_begin_call n) = start_answer (wait_begin s.registry n).1
  answer s (wait_end_call i) = nothing

  unfoldable pub answers : System → List Call → List Answer
  answers s [] = []
  answers s (c ∷ cs) = answer s c ∷ answers (step resumable s c) cs

pub lookup-flatten-some :
    (r : Registry) (n : Bytes) (p : ℕ)
    → lookup n r.endpoints ≡ some p
    → lookup n (flatten r) ≡ some (r.heap p)
lookup-flatten-some r n p e = ground (arith, e, lookup-entries n r.heap r.endpoints)

pub lookup-flatten-none :
    (r : Registry) (n : Bytes) → lookup n r.endpoints ≡ none → lookup n (flatten r) ≡ none
lookup-flatten-none r n e = ground (arith, e, lookup-entries n r.heap r.endpoints)

pub entry_got :
    (r : Registry) (n : Bytes) (p : ℕ)
    → lookup n r.endpoints ≡ some p
    → entry n (flatten r) ≡ some (r.heap p)
unfolding entry
entry_got r n p e = ground (arith, lookup-flatten-some r n p e)

pub entry_full :
    (r : Registry) (n : Bytes)
    → lookup n r.endpoints ≡ none
    → max_endpoints ≤ length r.endpoints
    → entry n (flatten r) ≡ none
unfolding entry
entry_full r n e l = ground (arith, lookup-flatten-none r n e, length-entries r.heap r.endpoints)

pub entry_made :
    (r : Registry) (n : Bytes)
    → lookup n r.endpoints ≡ none
    → length r.endpoints < max_endpoints
    → entry n (flatten r) ≡ some (new_endpoint n)
unfolding entry
entry_made r n e l = ground (arith, lookup-flatten-none r n e, length-entries r.heap r.endpoints)

pub first_use :
    (r : Registry) (n : Bytes) (ep : Endpoint)
    → IsSound r
    → lookup n r.endpoints ≡ none
    → length r.endpoints < max_endpoints
    → flatten (store (created r n) r.next ep) ≡ insert n ep (flatten r)
first_use r n ep v e l =
    flatten-first_use r n ep v (created-IsSound r n e l v) e (lookup-created r n)
