-- ===== src/Node/Server/Replies.antt =====
-- Every request is answered once: include/magpie/nodes/server_node.hpp.
-- What the threads of a server do: a receive by the node's thread, with what it gave or threw, one
-- turn of drainReplies_, a turn of a worker, and interrupt().
use magpie_cpp.Prelude.{
  replicate, ◌∙◌, Bool-cases, refl, inr, inl, list_set, arith, get_elem?, ◌≡◌, if◌then◌else◌, ◌∷◌,
  ◌+◌, Option, List, ℕ, Bool, zero, suc, some, none, [],
}
use magpie_cpp.Node.Server.{
  new_server, dispatch_request, push_reply, take_job, worker_turn, reply_value, Job, interrupt,
  PoolWorker, drain_reply, Reply, ServerNode, receive_request, idle, ended, busy,
}
use magpie_cpp.Prelude.Result.{throw, Result, ok}
use magpie_cpp.Value.{Value}
use magpie_cpp.Stream.{emplace_back}

pub data ServerEvent (C : Type 0) : Type 0 where
  receives : Result (Value × C) → ServerEvent C
  drains interrupts : ServerEvent C
  works_on : ℕ → ServerEvent C

module _ {C : Type 0} (has_handler : Bool) (run : Value → Result Value) where
  unfoldable pub server_step : ServerEvent C → ServerNode C → ServerNode C
  unfolding receive_request drain_reply interrupt worker_turn
  server_step (receives received) s = receive_request received s
  server_step drains s = drain_reply s.replies s
  server_step interrupts s = interrupt s
  server_step (works_on i) s = worker_turn has_handler run i (get_elem? s.workers i) s

  unfoldable pub server_run : ServerNode C → List (ServerEvent C) → ServerNode C
  unfolding server_step
  server_run s [] = s
  server_run s (e ∷ es) = server_run (server_step e s) es

  module _ (chosen : Reply C → Bool) where
    -- How many of the replies are among those that are counted.
    unfoldable pub count_replies : List (Reply C) → ℕ
    count_replies [] = 0
    count_replies (r ∷ rs) = (if chosen r then 1 else 0) + count_replies rs

    -- The same for the replies that jobs are to have, in the queue and in the workers' hands.
    unfoldable pub count_answer : C → Option Value → ℕ
    count_answer client none = 0
    count_answer client (some v) =
        if chosen (record { response = v; client = client }) then 1 else 0

    unfoldable pub count_jobs : List (Job C) → ℕ
    unfolding count_answer
    count_jobs [] = 0
    count_jobs (j ∷ js) =
        count_answer j.client (reply_value has_handler (run j.request)) + count_jobs js

    unfoldable pub count_workers : List (PoolWorker C) → ℕ
    unfolding count_answer
    count_workers [] = 0
    count_workers (busy j ∷ ws) =
        count_answer j.client (reply_value has_handler (run j.request)) + count_workers ws
    count_workers (_ ∷ ws) = count_workers ws

    -- For the requests that were received.
    unfoldable pub count_received : List (ServerEvent C) → ℕ
    unfolding count_answer
    count_received [] = 0
    count_received (receives (ok (request, client)) ∷ es) =
        count_answer client (reply_value has_handler (run request)) + count_received es
    count_received (_ ∷ es) = count_received es

    -- All that a server holds or has sent.
    unfoldable pub count_all : ServerNode C → ℕ
    unfolding count_replies count_jobs count_workers
    count_all s =
        count_jobs s.jobs + count_workers s.workers + count_replies s.replies + count_replies s.sent

    count_jobs-emplace_back :
        (j : Job C) (js : List (Job C))
        → count_jobs (emplace_back j js)
          ≡ count_jobs js + count_answer j.client (reply_value has_handler (run j.request))
    unfolding count_jobs emplace_back
    count_jobs-emplace_back j [] = omega arith
    count_jobs-emplace_back j (k ∷ js) = omega (arith, count_jobs-emplace_back j js)

    count_replies-emplace_back :
        (r : Reply C) (rs : List (Reply C))
        → count_replies (emplace_back r rs) ≡ count_replies rs + (if chosen r then 1 else 0)
    unfolding count_replies emplace_back
    count_replies-emplace_back r [] = omega arith
    count_replies-emplace_back r (q ∷ rs) = omega (arith, count_replies-emplace_back r rs)

    -- A worker of the pool changes its hands.
    hand : PoolWorker C → ℕ
    unfolding count_answer
    hand (busy j) = count_answer j.client (reply_value has_handler (run j.request))
    hand _ = 0

    count_workers-set :
        (ws : List (PoolWorker C)) (i : ℕ) (old new : PoolWorker C)
        → get_elem? ws i ≡ some old
        → count_workers (list_set ws i new) + hand old ≡ count_workers ws + hand new
    unfolding count_workers hand
    count_workers-set [] i old new h = cc
    count_workers-set (w ∷ ws) zero old new h = ground arith
    count_workers-set (idle ∷ ws) (suc i) old new h =
        ground (arith, count_workers-set ws i old new h)
    count_workers-set (ended ∷ ws) (suc i) old new h =
        ground (arith, count_workers-set ws i old new h)
    count_workers-set (busy j ∷ ws) (suc i) old new h =
        ground (arith, count_workers-set ws i old new h)

    take_job-count_all :
        (i : ℕ) (js : List (Job C)) (s : ServerNode C)
        → s.jobs ≡ js
        → get_elem? s.workers i ≡ some idle
        → count_all (take_job i js s) ≡ count_all s
    unfolding take_job count_all hand
    take_job-count_all i [] s jobs held = elim (Bool-cases s.stopping) [
      | inl stop ↦ simp stop (omega (arith, count_workers-set s.workers i idle ended held))
      | inr go ↦ simp go refl
    ]
    take_job-count_all i (j ∷ js) s jobs held =
        simp jobs (omega (arith, count_workers-set s.workers i idle (busy j) held))

    push_reply-count_all :
        (client : C) (v : Option Value) (s : ServerNode C)
        → count_all (push_reply client v s) ≡ count_all s + count_answer client v
    unfolding push_reply count_all count_answer
    push_reply-count_all client none s = omega arith
    push_reply-count_all client (some v) s =
        omega
          (arith, count_replies-emplace_back (record { response = v; client = client }) s.replies)

    put_down :
        (i : ℕ) (j : Job C) (s : ServerNode C)
        → get_elem? s.workers i ≡ some (busy j)
        → count_all (record s { workers = list_set s.workers i idle })
            + count_answer j.client (reply_value has_handler (run j.request))
          ≡ count_all s
    unfolding count_all hand
    put_down i j s held = omega (arith, count_workers-set s.workers i (busy j) idle held)

    worker_turn-count_all :
        (i : ℕ) (o : Option (PoolWorker C)) (s : ServerNode C)
        → get_elem? s.workers i ≡ o
        → count_all (worker_turn has_handler run i o s) ≡ count_all s
    unfolding worker_turn hand
    worker_turn-count_all i none s held = refl
    worker_turn-count_all i (some idle) s held = take_job-count_all i s.jobs s refl held
    worker_turn-count_all i (some ended) s held = refl
    worker_turn-count_all i (some (busy j)) s held =
        push_reply-count_all j.client (reply_value has_handler (run j.request))
          (record s { workers = list_set s.workers i idle })
        ∙ put_down i j s held

    drain_reply-count_all :
        (rs : List (Reply C)) (s : ServerNode C)
        → s.replies ≡ rs
        → count_all (drain_reply rs s) ≡ count_all s
    unfolding drain_reply count_all
    drain_reply-count_all [] s h = refl
    drain_reply-count_all (r ∷ rs) s h = simp h (omega arith)

    server_step-count_all :
        (e : ServerEvent C) (s : ServerNode C)
        → count_all (server_step e s) ≡ count_all s + count_received (e ∷ [])
    unfolding server_step count_received receive_request dispatch_request interrupt count_all
    server_step-count_all (receives (ok (request, client))) s =
        omega
          (arith, count_jobs-emplace_back (record { request = request; client = client }) s.jobs)
    server_step-count_all (receives (throw x)) s = omega arith
    server_step-count_all drains s = omega (arith, drain_reply-count_all s.replies s refl)
    server_step-count_all interrupts s = omega arith
    server_step-count_all (works_on i) s =
        omega (arith, worker_turn-count_all i (get_elem? s.workers i) s refl)

    count_received-cons :
        (e : ServerEvent C) (es : List (ServerEvent C))
        → count_received (e ∷ es) ≡ count_received (e ∷ []) + count_received es
    unfolding count_received
    count_received-cons (receives (ok (request, client))) es = omega arith
    count_received-cons (receives (throw x)) es = omega arith
    count_received-cons drains es = omega arith
    count_received-cons interrupts es = omega arith
    count_received-cons (works_on i) es = omega arith

    server_run-count_all :
        (es : List (ServerEvent C)) (s : ServerNode C)
        → count_all (server_run s es) ≡ count_all s + count_received es
    unfolding server_run count_all count_received
    server_run-count_all [] s = omega arith
    server_run-count_all (e ∷ es) s = omega (
      arith,
      server_run-count_all es (server_step e s),
      server_step-count_all e s,
      count_received-cons e es,
    )

    count_workers-replicate : (n : ℕ) → count_workers (replicate n idle) ≡ 0
    unfolding count_workers
    count_workers-replicate zero = refl
    count_workers-replicate (suc n) = count_workers-replicate n

    -- In whatever way the threads of a server interleave: among any choice of replies, those sent,
    -- those queued and those that the queued and running jobs are to have are together as many as
    -- the requests received are to have. So no request is lost or answered twice, no reply goes to
    -- another client or has another response, and a request that fails, or that a schema answers
    -- with null, has no reply.
    pub server_run-replies :
        (max_workers : ℕ) (es : List (ServerEvent C))
        → count_all (server_run (new_server max_workers) es) ≡ count_received es
    unfolding new_server count_all
    server_run-replies max_workers es = omega (
      arith,
      server_run-count_all es (new_server max_workers),
      count_workers-replicate max_workers,
    )
