-- ===== src/Examples/Node.antt =====
-- The life of a node and of a server at concrete inputs.
use magpie_cpp.Prelude.{arith, ◌++◌, ◌==◌, ◌≡◌, Bool, ◌∷◌, String, List, true, refl, false, []}
use magpie_cpp.Node.{
  request_terminate, worker_step, run_loop, pause, launch, start, new_node, at_gate,
}
use magpie_cpp.Node.Server.Replies.{
  server_run-replies, count_received, server_step, ServerEvent, count_all, server_run, works_on,
  receives, interrupts, drains,
}
use magpie_cpp.Value.{Value, string, null}
use magpie_cpp.Prelude.Result.{Result, timeout_error, throw, std_error, plain_timeout, ok}
use magpie_cpp.Node.Lifecycle.{
  node_run-exits, leaves_setup, work_count, is_launched, node_run-setup_failed, node_run-Stage,
  node_step, NodeEvent, Stage, node_run, works, terminates, starts, setup_ends, pauses,
}
use magpie_cpp.Node.Server.{
  interrupt, drain_reply, reply_value, push_reply, take_job, worker_turn, dispatch_request,
  receive_request, new_server, Reply,
}
use magpie_cpp.Stream.{emplace_back}

abbrev paused_meanwhile : List NodeEvent
paused_meanwhile = starts ∷ setup_ends true ∷ works ∷ pauses ∷ []

abbrev woken_again : List NodeEvent
woken_again = pauses ∷ works ∷ works ∷ works ∷ []

setup_then_paused : (node_run (new_node false) paused_meanwhile).worker ≡ at_gate
unfolding node_run node_step new_node start launch pause run_loop worker_step
setup_then_paused = refl

-- Without terminate() the worker stays at the gate.
stays_paused : (node_run (new_node false) (paused_meanwhile ++ woken_again)).worker ≡ at_gate
unfolding node_run node_step new_node start launch pause run_loop worker_step
stays_paused = refl

node_run-exits_example :
    (node_run (request_terminate (node_run (new_node false) paused_meanwhile)) woken_again).exited
    ≡ true
unfolding node_run node_step new_node start launch pause run_loop worker_step is_launched work_count
node_run-exits_example = node_run-exits false paused_meanwhile woken_again refl refl (omega arith)

node_run-Stage_example :
    Stage
      (node_run (new_node true) (starts ∷ setup_ends true ∷ terminates ∷ works ∷ works ∷ [])).worker
      (node_run (new_node true) (starts ∷ setup_ends true ∷ terminates ∷ works ∷ works ∷ []))
node_run-Stage_example =
    node_run-Stage true (starts ∷ setup_ends true ∷ terminates ∷ works ∷ works ∷ [])

-- start() with a setup() that throws, while another thread calls pause().
node_run-setup_failed_example :
    let in_setup = node_run (start (node_run (new_node false) (pauses ∷ []))) (pauses ∷ []) in
    (node_run (launch false in_setup.worker in_setup) (terminates ∷ works ∷ starts ∷ [])).exited
    ≡ false
unfolding node_run node_step new_node pause leaves_setup
node_run-setup_failed_example =
    node_run-setup_failed false (pauses ∷ []) (pauses ∷ []) (terminates ∷ works ∷ starts ∷ []) refl
      refl (refl, tt)

-- A handler that throws for null.
unfoldable echo : Value → Result Value
echo null = throw (std_error "nothing to echo")
echo v = ok v

abbrev two_clients : List (ServerEvent String)
two_clients =
    receives (ok (string "x", "anna"))
    ∷ receives (ok (null, "bert"))
    ∷ works_on 0
    ∷ works_on 1
    ∷ works_on 1
    ∷ works_on 0
    ∷ receives (throw (timeout_error plain_timeout "no request"))
    ∷ drains
    ∷ interrupts
    ∷ works_on 0
    ∷ []

unfoldable to_anna : Reply String → Bool
to_anna r = r.client == "anna"

answers_anna :
    (server_run true echo (new_server 2) two_clients).sent
    ≡ (record { response = string "x"; client = "anna" } ∷ [])
unfolding server_run server_step new_server receive_request dispatch_request worker_turn take_job
    push_reply reply_value drain_reply interrupt emplace_back echo
answers_anna = refl

server_run-replies_example :
    count_all true echo to_anna (server_run true echo (new_server 2) two_clients)
    ≡ count_received true echo to_anna two_clients
server_run-replies_example = server_run-replies true echo to_anna 2 two_clients
