-- ===== src/Webrtc/Group.antt =====
-- The group of peers behind a WebRtcConnection in mesh or host mode, src/transport/webrtc/webrtc_connection.cpp:
-- which peers it keeps, and to which of them it sends a message. A peer stands for its
-- WebRtcConnection, of which the group asks isConnected() only.
pub mod Events
mod Signals
pub mod Origins
use magpie_cpp.Value
use magpie_cpp.Prelude.Map
use magpie_cpp.Prelude.{
  String, not, ◌||◌, ◌&&◌, List, ◌==◌, ◌∷◌, if◌then◌else◌, Bool, Option, true, some, none, false,
  [],
}
use magpie_cpp.Value.{Dict, Value, dict}
use magpie_cpp.Prelude.Result.{Result, ok}
use magpie_cpp.Mqtt.Requester.{text_of}
use magpie_cpp.Prelude.Map.{Map}

pub record PeerGroup : Type 0 where
  pub peer_id : String
  pub role : String
  -- isConnected() of each peer
  pub peers : Map Bool
  pub rpc_origins : Map String
  pub restart_ids : Map String
  pub ever_ready_peers : Map Bool
  pub ever_connected : Bool
  pub stopped : Bool

unfoldable pub has_peer : String → Map Bool → Bool
unfolding Map.find
has_peer remote peers = elim (Map.find remote peers) [ none ↦ false | some b ↦ true ]

unfoldable pub peer_connected : String → Map Bool → Bool
unfolding Map.find
peer_connected remote peers = elim (Map.find remote peers) [ none ↦ false | some b ↦ b ]

-- The string that a message has under a key.
unfoldable pub text_field : String → Value → Option String
unfolding text_of Value.find
text_field k (dict d) = text_of (Value.find k d)
text_field k _ = none

unfoldable pub has_text : Option String → String → Bool
has_text none t = false
has_text (some s) t = s == t

-- The callback that registerCallbacks wraps around that of a service: where the request came from.
unfoldable pub record_origin : String → Option String → PeerGroup → PeerGroup
record_origin remote none g = g
record_origin remote (some rid) g = record g { rpc_origins = Map.set rid remote g.rpc_origins }

unfoldable pub request_from : String → Value → PeerGroup → PeerGroup
unfolding record_origin text_field
request_from remote request g = record_origin remote (text_field "rid" request) g

-- The string, or an empty one
unfoldable pub or_empty : Option String → String
or_empty none = ""
or_empty (some s) = s

unfoldable pub connected_peers : Map Bool → List String
connected_peers [] = []
connected_peers ((remote, b) ∷ peers) =
    let rest = connected_peers peers in if b then remote ∷ rest else rest

unfoldable pub answer_origin : Bool → String → Option String → PeerGroup → List String × PeerGroup
unfolding has_peer Map.erase
answer_origin ends rid none g = ([], g)
answer_origin ends rid (some origin) g = (
  (if has_peer origin g.peers then origin ∷ [] else []),
  (if ends then record g { rpc_origins = Map.erase rid g.rpc_origins } else g),
)

-- sendData in a group: the peers that it hands the message to.
unfoldable pub send_data : Value → PeerGroup → List String × PeerGroup
unfolding answer_origin connected_peers or_empty text_field has_text Map.find
send_data envelope g =
    let kind = text_field "type" envelope in
    let rid = or_empty (text_field "rid" envelope) in
    if has_text kind "rpc_ack" || has_text kind "rpc_rep"
    then answer_origin (has_text kind "rpc_rep") rid (Map.find rid g.rpc_origins) g
    else (connected_peers g.peers, g)

-- The peer that a signal comes from, unless onSignal leaves at one of its first tests.
unfoldable pub check_from : String → Option String → Option String
check_from own none = none
check_from own (some remote) = if remote == "" || remote == own then none else some remote

unfoldable pub check_target : String → Option Value → Option String → Option String
unfolding text_of has_text
check_target own none from = from
check_target own (some target) from = if has_text (text_of (some target)) own then from else none

unfoldable pub check_role : String → Option String → Option String → Option String
check_role own role from = elim role [
  | none ↦ from
  | some remote ↦
      if (own == "client" && remote == "client") || (own == "host" && remote == "host")
      then none
      else from
]

unfoldable pub signal_sender : PeerGroup → Dict → Option String
unfolding check_from check_target check_role text_of Value.find
signal_sender g d = check_role g.role (text_of (Value.find "role" d)) (
    check_target g.peer_id (Value.find "to_peer_id" d)
      (check_from g.peer_id (text_of (Value.find "peer_id" d))))

-- rpcOrigins without the requests of one peer.
unfoldable pub erase_origins : String → Map String → Map String
erase_origins remote [] = []
erase_origins remote ((rid, origin) ∷ m) =
    let rest = erase_origins remote m in if origin == remote then rest else (rid, origin) ∷ rest

-- newRestart, for the restart_id of the signal
unfoldable pub new_restart : Bool → Option String → Option String → Bool
unfolding or_empty
new_restart is_hello known none = false
new_restart is_hello known (some id) = is_hello && not (or_empty known == id)

unfoldable pub store_restart : Bool → String → Option String → PeerGroup → PeerGroup
unfolding or_empty Map.set
store_restart is_new remote id g =
    if is_new then record g { restart_ids = Map.set remote (or_empty id) g.restart_ids } else g

unfoldable pub drop_peer : String → PeerGroup → PeerGroup
unfolding erase_origins Map.erase
drop_peer remote g = record g {
  peers = Map.erase remote g.peers;
  ever_ready_peers = Map.erase remote g.ever_ready_peers;
  rpc_origins = erase_origins remote g.rpc_origins;
}

unfoldable pub add_peer : String → PeerGroup → PeerGroup
unfolding has_peer Map.set
add_peer remote g =
    if has_peer remote g.peers then g else record g { peers = Map.set remote false g.peers }

-- What onSignal does with the connections: it starts a new one, hands it the signal, and disconnects
-- the one it replaces.
pub record SignalOutcome : Type 0 where
  pub started_new : Bool
  pub delivered : Bool
  pub replaced : Bool
  pub group : PeerGroup

unfoldable pub admit_peer : Bool → Bool → String → PeerGroup → SignalOutcome
unfolding drop_peer add_peer has_peer peer_connected
admit_peer is_hello is_new remote g =
    let again =
      is_new || (has_peer remote g.ever_ready_peers && not (peer_connected remote g.peers)) in
    let replaces = has_peer remote g.peers && (is_hello && again) in
    let g' = if replaces then drop_peer remote g else g in
    record {
      started_new = not (has_peer remote g'.peers);
      delivered = true;
      replaced = replaces;
      group = add_peer remote g';
    }

unfoldable pub ignore_signal : PeerGroup → SignalOutcome
ignore_signal g = record { started_new = false; delivered = false; replaced = false; group = g }

unfoldable pub signal_from : Dict → Option String → PeerGroup → SignalOutcome
unfolding ignore_signal admit_peer new_restart store_restart has_text text_of Value.find Map.find
signal_from d none g = ignore_signal g
signal_from d (some remote) g =
    let is_hello = has_text (text_of (Value.find "type" d)) "hello" in
    let id = text_of (Value.find "restart_id" d) in
    let is_new = new_restart is_hello (Map.find remote g.restart_ids) id in
    if g.stopped
    then ignore_signal g
    else admit_peer is_hello is_new remote (store_restart is_new remote id g)

-- Group::onSignal, with the signal as it is deserialized.
unfoldable pub on_signal : Result Value → PeerGroup → SignalOutcome
unfolding ignore_signal signal_from signal_sender
on_signal (ok (dict d)) g = signal_from d (signal_sender g d) g
on_signal _ g = ignore_signal g

-- onStateChange of a peer, with what isConnected() gives from then on.
unfoldable pub on_state_change : String → Bool → PeerGroup → PeerGroup
unfolding has_peer Map.set
on_state_change remote true g = record g {
  peers = if has_peer remote g.peers then Map.set remote true g.peers else g.peers;
  ever_connected = true;
  ever_ready_peers = Map.set remote true g.ever_ready_peers;
}
on_state_change remote false g = record g {
  peers = if has_peer remote g.peers then Map.set remote false g.peers else g.peers;
}

-- The pass of the discovery thread over the peers: those that were ready and are not is_connected go.
unfoldable pub sweep_peers : Map Bool → Map Bool → Map Bool × Map Bool
unfolding has_peer Map.erase
sweep_peers ready [] = ([], ready)
sweep_peers ready ((remote, is_connected) ∷ peers) =
    let stale = has_peer remote ready && not is_connected in
    let rest = sweep_peers (if stale then Map.erase remote ready else ready) peers in
    ((if stale then rest.0 else (remote, is_connected) ∷ rest.0), rest.1)

unfoldable pub sweep_stale : PeerGroup → PeerGroup
unfolding sweep_peers
sweep_stale g =
    let left_over = sweep_peers g.ever_ready_peers g.peers in
    record g { peers = left_over.0; ever_ready_peers = left_over.1 }

-- Group::stop
unfoldable pub stop_group : PeerGroup → PeerGroup
stop_group g =
    if g.stopped
    then g
    else record g { peers = []; rpc_origins = []; restart_ids = []; stopped = true }
