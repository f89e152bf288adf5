-- ===== src/Node.antt =====
-- BaseNode, include/magpie/nodes/base_node.hpp: the flags that its methods share with the thread of
-- runLoop_, as steps. The calls of the virtual functions are counted, and
-- those of setup() that have returned. What interrupt() does, and
-- the notification of condition variables, are not part of this state.
pub mod Lifecycle
pub mod Server
use magpie_cpp.Prelude.{◌||◌, not, ◌+◌, ℕ, if◌then◌else◌, Bool, true, false}

-- How far the node is: not started, start() in setup(), left by the exception of setup(), and then
-- where its worker thread stands: at the test of its loop, at the gate where it waits while paused,
-- at the second test, in process(), in cleanup(), or returned.
pub data Worker : Type 0 where
  no_worker setting_up setup_failed at_test at_gate past_gate in_process in_cleanup returned :
      Worker

pub record BaseNode : Type 0 where
  pub paused : Bool
  pub started : Bool
  pub terminating : Bool
  pub terminated : Bool
  pub exited : Bool
  pub worker : Worker
  pub setups : ℕ
  pub setups_done : ℕ
  pub processes : ℕ
  pub cleanups : ℕ

-- The constructor
unfoldable pub new_node : Bool → BaseNode
new_node paused = record {
  paused = paused;
  started = false;
  terminating = false;
  terminated = false;
  exited = false;
  worker = no_worker;
  setups = 0;
  setups_done = 0;
  processes = 0;
  cleanups = 0;
}

-- BaseNode::start up to its call of setup(), and what follows when that returns or throws.
unfoldable pub start : BaseNode → BaseNode
start n =
    if n.started then n else record n { started = true; setups = n.setups + 1; worker = setting_up }

unfoldable pub launch : Bool → Worker → BaseNode → BaseNode
launch setup_returns setting_up n = record n {
  worker = if setup_returns then at_test else setup_failed;
  setups_done = if setup_returns then n.setups_done + 1 else n.setups_done;
}
launch setup_returns _ n = n

-- BaseNode::pause and BaseNode::resume
unfoldable pub pause : BaseNode → BaseNode
pause n = record n { paused = true }

unfoldable pub resume : BaseNode → BaseNode
resume n = record n { paused = false }

-- BaseNode::terminate up to waitForExit_.
unfoldable pub request_terminate : BaseNode → BaseNode
request_terminate n = if n.terminated then n else record n {
  terminated = true;
  terminating = true;
  paused = false;
  exited = if n.started then n.exited else true;
}

-- One step of BaseNode::runLoop_. At the gate the thread goes on if its condition holds.
unfoldable pub worker_step : Worker → BaseNode → BaseNode
worker_step no_worker n = n
worker_step setting_up n = n
worker_step setup_failed n = n
worker_step at_test n =
    if n.terminating
    then record n { worker = in_cleanup; cleanups = n.cleanups + 1 }
    else record n { worker = at_gate }
worker_step at_gate n = record n {
  worker = if not n.paused || n.terminating then past_gate else at_gate;
}
worker_step past_gate n =
    if n.terminating
    then record n { worker = in_cleanup; cleanups = n.cleanups + 1 }
    else record n { worker = in_process; processes = n.processes + 1 }
worker_step in_process n = record n { worker = at_test }
worker_step in_cleanup n = record n { worker = returned; exited = true }
worker_step returned n = n

unfoldable pub run_loop : BaseNode → BaseNode
unfolding worker_step
run_loop n = worker_step n.worker n
