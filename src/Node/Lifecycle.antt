-- ===== src/Node/Lifecycle.antt =====
-- The life of a node under any calls of its methods: include/magpie/nodes/base_node.hpp.
-- What the threads do: calls of start() and the end of its setup(), of pause(), resume() and
-- terminate(), and steps of the worker.
use magpie_cpp.Prelude.{All, refl, ◌-◌, ◌≤◌, arith, suc, ◌∷◌, ℕ, ◌≡◌, List, Bool, true, false, []}
use magpie_cpp.Node.{
  new_node, past_gate, in_process, at_test, at_gate, run_loop, request_terminate, resume, pause,
  launch, Worker, BaseNode, start, setup_failed, setting_up, returned, no_worker, in_cleanup,
}

pub data NodeEvent : Type 0 where
  starts pauses resumes terminates works : NodeEvent
  setup_ends : Bool → NodeEvent

unfoldable pub node_step : NodeEvent → BaseNode → BaseNode
unfolding start launch pause resume request_terminate run_loop
node_step starts n = start n
node_step (setup_ends returns) n = launch returns n.worker n
node_step pauses n = pause n
node_step resumes n = resume n
node_step terminates n = request_terminate n
node_step works n = run_loop n

unfoldable pub node_run : BaseNode → List NodeEvent → BaseNode
unfolding node_step
node_run n [] = n
node_run n (e ∷ es) = node_run (node_step e n) es

-- The calls of the virtual functions, by how far the node is.
abbrev pub Stage : Worker → BaseNode → Type 0
Stage no_worker n =
    (n.setups ≡ 0)
    × (n.setups_done ≡ 0)
    × (n.processes ≡ 0)
    × (n.cleanups ≡ 0)
    × (n.started ≡ false)
Stage setting_up n =
    (n.setups ≡ 1) × (n.setups_done ≡ 0) × (n.processes ≡ 0) × (n.cleanups ≡ 0) × (n.started ≡ true)
Stage setup_failed n =
    (n.setups ≡ 1) × (n.setups_done ≡ 0) × (n.processes ≡ 0) × (n.cleanups ≡ 0) × (n.started ≡ true)
Stage in_cleanup n =
    (n.setups ≡ 1)
    × (n.setups_done ≡ 1)
    × (n.cleanups ≡ 1)
    × (n.terminating ≡ true)
    × (n.started ≡ true)
Stage returned n =
    (n.setups ≡ 1)
    × (n.setups_done ≡ 1)
    × (n.cleanups ≡ 1)
    × (n.terminating ≡ true)
    × (n.exited ≡ true)
    × (n.started ≡ true)
Stage _ n = (n.setups ≡ 1) × (n.setups_done ≡ 1) × (n.cleanups ≡ 0) × (n.started ≡ true)

pub record IsSound (n : BaseNode) : Type 0 where
  pub stage : Stage n.worker n
  pub stops : n.exited ≡ true → n.terminating ≡ true
  pub asked : n.terminating ≡ true → n.terminated ≡ true

node_step-IsSound : (e : NodeEvent) (n : BaseNode) → IsSound n → IsSound (node_step e n)
unfolding node_step
node_step-IsSound starts n h = ground arith
node_step-IsSound pauses n h = ground arith
node_step-IsSound resumes n h = ground arith
node_step-IsSound terminates n h = ground arith
node_step-IsSound works n h = ground arith
node_step-IsSound (setup_ends returns) n h = ground arith

node_run-IsSound : (n : BaseNode) (es : List NodeEvent) → IsSound n → IsSound (node_run n es)
unfolding node_run
node_run-IsSound n [] h = h
node_run-IsSound n (e ∷ es) h = node_run-IsSound (node_step e n) es (node_step-IsSound e n h)

new_node-IsSound : (paused : Bool) → IsSound (new_node paused)
unfolding new_node
new_node-IsSound paused = ground arith

-- The steps of the worker that are left once the node terminates.
unfoldable pub steps_left : Worker → ℕ
steps_left in_process = 3
steps_left at_gate = 3
steps_left past_gate = 2
steps_left at_test = 2
steps_left in_cleanup = 1
steps_left _ = 0

-- Whether the worker thread has been created.
unfoldable pub is_launched : Worker → Bool
is_launched no_worker = false
is_launched setting_up = false
is_launched setup_failed = false
is_launched _ = true

-- How often the worker steps.
unfoldable pub work_count : List NodeEvent → ℕ
work_count [] = 0
work_count (works ∷ es) = suc (work_count es)
work_count (_ ∷ es) = work_count es

-- A launched node that terminates.
record Ends (n : BaseNode) : Type 0 where
  launched : is_launched n.worker ≡ true
  terminates_now : n.terminating ≡ true
  was_started : n.started ≡ true
  done : n.worker ≡ returned → n.exited ≡ true

is_works : NodeEvent → Bool
is_works works = true
is_works _ = false

steps_left-le : (w : Worker) → steps_left w ≤ 3
unfolding steps_left
steps_left-le w = ground arith

node_step-Ends :
    (e : NodeEvent) (n : BaseNode)
    → Ends n
    → Ends (node_step e n)
      × (steps_left (node_step e n).worker ≤ steps_left n.worker)
      × (is_works e ≡ true → steps_left (node_step e n).worker ≤ steps_left n.worker - 1)
unfolding node_step steps_left is_launched is_works
node_step-Ends starts n h = ground arith
node_step-Ends pauses n h = ground arith
node_step-Ends resumes n h = ground arith
node_step-Ends terminates n h = ground arith
node_step-Ends works n h = ground arith
node_step-Ends (setup_ends returns) n h = ground arith

none_left-exited : (n : BaseNode) → Ends n → steps_left n.worker ≤ 0 → n.exited ≡ true
unfolding steps_left is_launched
none_left-exited n h few = ground arith

node_run-Ends :
    (n : BaseNode) (es : List NodeEvent)
    → Ends n
    → steps_left n.worker ≤ work_count es
    → (node_run n es).exited ≡ true
unfolding node_run work_count is_works
node_run-Ends n [] h few = none_left-exited n h few
node_run-Ends n (works ∷ es) h few =
    let k = node_step-Ends works n h in
    node_run-Ends (node_step works n) es k.0 (omega (arith, k.2 refl, few))
node_run-Ends n (starts ∷ es) h few =
    let k = node_step-Ends starts n h in
    node_run-Ends (node_step starts n) es k.0 (omega (arith, k.1, few))
node_run-Ends n (pauses ∷ es) h few =
    let k = node_step-Ends pauses n h in
    node_run-Ends (node_step pauses n) es k.0 (omega (arith, k.1, few))
node_run-Ends n (resumes ∷ es) h few =
    let k = node_step-Ends resumes n h in
    node_run-Ends (node_step resumes n) es k.0 (omega (arith, k.1, few))
node_run-Ends n (terminates ∷ es) h few =
    let k = node_step-Ends terminates n h in
    node_run-Ends (node_step terminates n) es k.0 (omega (arith, k.1, few))
node_run-Ends n (setup_ends returns ∷ es) h few =
    let k = node_step-Ends (setup_ends returns) n h in
    node_run-Ends (node_step (setup_ends returns) n) es k.0 (omega (arith, k.1, few))

launched-Ends :
    (n : BaseNode)
    → IsSound n
    → is_launched n.worker ≡ true
    → n.terminated ≡ false
    → Ends (request_terminate n)
unfolding request_terminate is_launched
launched-Ends n h l fresh = ground arith

-- From any history: in a node whose worker runs, terminate() makes the worker leave its loop within
-- three of its steps, counting the return of a process() that is under way, whatever is called
-- meanwhile, pause() included; then `exited` is set, for which terminate() waits.
pub node_run-exits :
    (paused : Bool) (before after : List NodeEvent)
    → is_launched (node_run (new_node paused) before).worker ≡ true
    → (node_run (new_node paused) before).terminated ≡ false
    → 3 ≤ work_count after
    → (node_run (request_terminate (node_run (new_node paused) before)) after).exited ≡ true
node_run-exits paused before after l fresh enough =
    let n : BaseNode = node_run (new_node paused) before in
    node_run-Ends (request_terminate n) after
      (launched-Ends n (node_run-IsSound (new_node paused) before (new_node-IsSound paused)) l
        fresh)
      (omega (arith, steps_left-le (request_terminate n).worker, enough))

-- In every history setup() and cleanup() are called once at most; process() runs only once setup()
-- has returned and while cleanup() has not been called; cleanup() is called only if the node
-- terminates, and the worker returns only behind it.
pub node_run-Stage :
    (paused : Bool) (es : List NodeEvent)
    → Stage (node_run (new_node paused) es).worker (node_run (new_node paused) es)
node_run-Stage paused es = (node_run-IsSound (new_node paused) es (new_node-IsSound paused)).stage

-- A node whose setup() is under way, and one whose setup() threw.
record Hangs (w : Worker) (n : BaseNode) : Type 0 where
  stands : n.worker ≡ w
  was_started : n.started ≡ true
  not_exited : n.exited ≡ false

-- The event is no end of setup().
unfoldable pub leaves_setup : NodeEvent → Bool
leaves_setup (setup_ends returns) = false
leaves_setup _ = true

node_step-setting_up :
    (e : NodeEvent) (n : BaseNode)
    → leaves_setup e ≡ true
    → Hangs setting_up n
    → Hangs setting_up (node_step e n)
unfolding node_step leaves_setup
node_step-setting_up starts n l h = ground arith
node_step-setting_up pauses n l h = ground arith
node_step-setting_up resumes n l h = ground arith
node_step-setting_up terminates n l h = ground arith
node_step-setting_up works n l h = ground arith
node_step-setting_up (setup_ends returns) n l h = ground arith

node_run-setting_up :
    (n : BaseNode) (es : List NodeEvent)
    → All (λ e. leaves_setup e ≡ true) es
    → Hangs setting_up n
    → Hangs setting_up (node_run n es)
unfolding node_run
node_run-setting_up n [] ls h = h
node_run-setting_up n (e ∷ es) ls h =
    node_run-setting_up (node_step e n) es ls.1 (node_step-setting_up e n ls.0 h)

node_step-setup_failed :
    (e : NodeEvent) (n : BaseNode) → Hangs setup_failed n → Hangs setup_failed (node_step e n)
unfolding node_step
node_step-setup_failed starts n h = ground arith
node_step-setup_failed pauses n h = ground arith
node_step-setup_failed resumes n h = ground arith
node_step-setup_failed terminates n h = ground arith
node_step-setup_failed works n h = ground arith
node_step-setup_failed (setup_ends returns) n h = ground arith

node_run-Hangs :
    (n : BaseNode) (es : List NodeEvent) → Hangs setup_failed n → (node_run n es).exited ≡ false
unfolding node_run
node_run-Hangs n [] h = h.not_exited
node_run-Hangs n (e ∷ es) h = node_run-Hangs (node_step e n) es (node_step-setup_failed e n h)

start-Hangs :
    (n : BaseNode)
    → IsSound n
    → n.started ≡ false
    → n.terminated ≡ false
    → Hangs setting_up (start n)
unfolding start
start-Hangs n sound fresh unasked = ground arith

launch-Hangs : (n : BaseNode) → Hangs setting_up n → Hangs setup_failed (launch false n.worker n)
unfolding launch
launch-Hangs n h =
    rw h.stands (record { stands = refl; was_started = h.was_started; not_exited = h.not_exited })

-- A start() whose setup() throws, in a node that was neither started nor terminated before,
-- whatever is called while setup() runs and afterwards: `exited` is never set, so that a
-- terminate() without a timeout waits for ever.
pub node_run-setup_failed :
    (paused : Bool) (before during after : List NodeEvent)
    → (node_run (new_node paused) before).started ≡ false
    → (node_run (new_node paused) before).terminated ≡ false
    → All (λ e. leaves_setup e ≡ true) during
    → let in_setup = node_run (start (node_run (new_node paused) before)) during in
      (node_run (launch false in_setup.worker in_setup) after).exited ≡ false
node_run-setup_failed paused before during after fresh unasked no_end =
    let n : BaseNode = node_run (new_node paused) before in
    let in_setup : BaseNode = node_run (start n) during in
    let sound = node_run-IsSound (new_node paused) before (new_node-IsSound paused) in
    node_run-Hangs (launch false in_setup.worker in_setup) after (
      launch-Hangs in_setup
        (node_run-setting_up (start n) during no_end (start-Hangs n sound fresh unasked)))
