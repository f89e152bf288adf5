-- ===== src/Node/Server.antt =====
-- ServerNode, include/magpie/nodes/server_node.hpp. Requests go from the node's thread to a pool of
-- workers and their replies back to it; each turn of a thread under a lock is a step. `C` stands
-- for the client contexts.
pub mod Replies
use magpie_cpp.Prelude.{
  eqb, ◌&&◌, ◌<>◌, list_set, not, if◌then◌else◌, ◌∷◌, replicate, Option, String, List, ℕ, Bool,
  true, some, none, false, [],
}
use magpie_cpp.Prelude.Result.{Result, throw, std_error, ok}
use magpie_cpp.Value.{is_null, Value}
use magpie_cpp.Stream.{emplace_back}

pub record Job (C : Type 0) : Type 0 where
  pub request : Value
  pub client : C

pub record Reply (C : Type 0) : Type 0 where
  pub response : Value
  pub client : C

-- A thread of workerLoop_: it waits for a job, runs the handler on one, or has left its loop.
pub data PoolWorker (C : Type 0) : Type 0 where
  idle ended : PoolWorker C
  busy : Job C → PoolWorker C

-- `sent` are the replies that were handed to the responder, the last one first.
pub record ServerNode (C : Type 0) : Type 0 where
  pub stopping : Bool
  pub workers : List (PoolWorker C)
  pub jobs : List (Job C)
  pub replies : List (Reply C)
  pub sent : List (Reply C)

-- The checks of ServerNode::setup
unfoldable pub check_setup : Bool → Bool → Bool → ℕ → Bool → String → Result {0} Unit
check_setup has_responder has_handler has_schema max_workers poll_positive name =
    if not has_responder
    then throw (std_error (name <> ": responder is null"))
    else if not has_handler && not has_schema
    then throw (std_error (name <> ": a handler or a schema on the responder is required"))
    else if eqb max_workers 0
    then throw (std_error (name <> ": maxWorkers must be > 0"))
    else if not poll_positive
    then throw (std_error (name <> ": pollTimeoutSec must be > 0"))
    else ok tt

-- What a worker does with a response, or with an exception: a handler's response is sent as it is,
-- a schema's only if it is not null.
unfoldable pub reply_value : Bool → Result Value → Option Value
unfolding is_null
reply_value has_handler (ok v) = if not has_handler && is_null v then none else some v
reply_value has_handler (throw e) = none

module _ {C : Type 0} where
  -- The workers that setup starts.
  unfoldable pub new_server : ℕ → ServerNode C
  new_server max_workers = record {
    stopping = false;
    workers = replicate max_workers idle;
    jobs = [];
    replies = [];
    sent = [];
  }

  -- ServerNode::dispatchRequest_
  unfoldable pub dispatch_request : Job C → ServerNode C → ServerNode C
  unfolding emplace_back
  dispatch_request job s = record s { jobs = emplace_back job s.jobs }

  -- ServerNode::process behind drainReplies_, with what the responder's receive gave or threw.
  unfoldable pub receive_request : Result (Value × C) → ServerNode C → ServerNode C
  unfolding dispatch_request
  receive_request (ok (request, client)) s =
      dispatch_request (record { request = request; client = client }) s
  receive_request (throw e) s = s

  -- One turn of drainReplies_: what send throws is only logged.
  unfoldable pub drain_reply : List (Reply C) → ServerNode C → ServerNode C
  drain_reply [] s = s
  drain_reply (reply ∷ rest) s = record s { replies = rest; sent = reply ∷ s.sent }

  -- ServerNode::interrupt, but for the responder's close.
  unfoldable pub interrupt : ServerNode C → ServerNode C
  interrupt s = record s { stopping = true }

  -- The wait of workerLoop_, and what follows it under the lock.
  unfoldable pub take_job : ℕ → List (Job C) → ServerNode C → ServerNode C
  take_job i [] s = if s.stopping then record s { workers = list_set s.workers i ended } else s
  take_job i (job ∷ rest) s = record s { jobs = rest; workers = list_set s.workers i (busy job) }

  -- replies_.push, if there is one
  unfoldable pub push_reply : C → Option Value → ServerNode C → ServerNode C
  unfolding emplace_back
  push_reply client none s = s
  push_reply client (some v) s = record s {
    replies = emplace_back (record { response = v; client = client }) s.replies;
  }

  -- `run` is the handler, or the dispatch of the responder's schema.
  module _ (has_handler : Bool) (run : Value → Result Value) where
    -- A turn of workerLoop_ in worker `i`.
    unfoldable pub worker_turn : ℕ → Option (PoolWorker C) → ServerNode C → ServerNode C
    unfolding take_job push_reply reply_value
    worker_turn i (some idle) s = take_job i s.jobs s
    worker_turn i (some (busy job)) s =
        push_reply job.client (reply_value has_handler (run job.request))
          (record s { workers = list_set s.workers i idle })
    worker_turn i _ s = s
