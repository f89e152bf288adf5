-- ===== src/Webrtc/Negotiation.antt =====
-- WebRtcConnection::Impl, src/transport/webrtc/webrtc_connection.cpp: how one peer of a group
-- negotiates its connection. What is asked of libdatachannel is a list of calls, of which the
-- parameter `accepts` says whether a remote description is taken or throws; its callbacks and the
-- signals that arrive are events. createDataChannel and setLocalDescription are taken to return.
pub mod Candidates
pub mod Offers
pub mod Signals
use magpie_cpp.Value
use magpie_cpp.Prelude.{
  ℕ, String, Bool, not, ◌||◌, ◌&&◌, List, ◌++◌, ◌==◌, ◌∷◌, if◌then◌else◌, Option, true, some, none,
  false, [], text_ltb,
}
use magpie_cpp.Prelude.Int.{ℤ, pos, to_int32}
use magpie_cpp.Value.{Dict, Value, dict, empty, string, int}
use magpie_cpp.Prelude.Result.{Result, ok}
use magpie_cpp.Mqtt.Requester.{text_of}

-- The calls of rtc::PeerConnection, its construction included.
pub data RtcCall : Type 0 where
  new_connection set_local_description close_connection : RtcCall
  create_data_channel : String → RtcCall
  set_remote_description : String → String → RtcCall
  add_remote_candidate : String → String → RtcCall

-- A buffered candidate: the candidate, its sdpMid and its sdpMLineIndex.
abbrev pub Candidate : Type 0
Candidate = String × String × ℤ

pub record Peer : Type 0 where
  pub peer_id : String
  pub target_remote : String
  pub role : String
  pub use_media_channels : Bool
  pub remote_peer_id : String
  pub role_decided : Bool
  pub remote_desc_set : Bool
  pub connected : Bool
  pub disconnecting : Bool
  -- pc, dc and media_dc are set
  pub pc : Bool
  pub dc : Bool
  pub media_dc : Bool
  pub pending_candidates : List Candidate
  pub calls : List RtcCall
  pub signals : List Dict

-- A peer as onSignal of the group makes it.
unfoldable pub new_peer : String → String → String → Bool → Peer
new_peer peer_id target_remote role use_media_channels = record {
  peer_id = peer_id;
  target_remote = target_remote;
  role = role;
  use_media_channels = use_media_channels;
  remote_peer_id = "";
  role_decided = false;
  remote_desc_set = false;
  connected = false;
  disconnecting = false;
  pc = false;
  dc = false;
  media_dc = false;
  pending_candidates = [];
  calls = [];
  signals = [];
}

-- sendSignal, up to what it hands to the serializer.
unfoldable pub addressed : Peer → Dict → Dict
unfolding Value.set
addressed p msg =
    Value.set "role" (string p.role)
      (if p.target_remote == "" then msg else Value.set "to_peer_id" (string p.target_remote) msg)

unfoldable pub send_signal : Dict → Peer → Peer
unfolding addressed
send_signal msg p = record p { signals = p.signals ++ (addressed p msg ∷ []) }

unfoldable pub hello_message : String → Dict
unfolding Value.set
hello_message peer_id =
    Value.set "peer_id" (string peer_id) (Value.set "type" (string "hello") empty)

unfoldable pub send_hello : Peer → Peer
unfolding hello_message send_signal
send_hello p = send_signal (hello_message p.peer_id) p

unfoldable pub call_rtc : List RtcCall → Peer → Peer
call_rtc calls p = record p { calls = p.calls ++ calls }

unfoldable pub setup_peer_connection : Peer → Peer
unfolding call_rtc
setup_peer_connection p = record (call_rtc (new_connection ∷ []) p) { pc = true }

unfoldable pub offer_calls : Bool → List RtcCall
offer_calls use_media =
    create_data_channel "magpie"
    ∷ ((if use_media then create_data_channel "magpie-media" ∷ [] else [])
        ++ (set_local_description ∷ []))

unfoldable pub create_offer : Peer → Peer
unfolding call_rtc offer_calls
create_offer p = record (call_rtc (offer_calls p.use_media_channels) p) {
  dc = true;
  media_dc = p.use_media_channels || p.media_dc;
}

-- The part of a hello that holds roleMutex: whom this peer talks to.
unfoldable pub note_remote : String → Peer → Peer
note_remote remote p = if p.remote_peer_id == "" then record p { remote_peer_id = remote } else p

-- The role, for a peer that has not decided it: the greater identifier offers.
unfoldable pub decide_role : Peer → Peer
unfolding text_ltb setup_peer_connection create_offer send_hello
decide_role p =
    let decided = record p { role_decided = true } in
    if text_ltb p.remote_peer_id p.peer_id
    then create_offer (setup_peer_connection decided)
    else setup_peer_connection (send_hello decided)

unfoldable pub on_hello : Option String → Peer → Peer
unfolding note_remote decide_role
on_hello none p = p
on_hello (some remote) p =
    let noted = note_remote remote p in if noted.role_decided then noted else decide_role noted

unfoldable pub candidate_calls : List Candidate → List RtcCall
candidate_calls [] = []
candidate_calls ((cand, mid, idx) ∷ rest) = add_remote_candidate cand mid ∷ candidate_calls rest

-- A candidate that addRemoteCandidate throws for is only logged.
unfoldable pub apply_pending_candidates : Peer → Peer
unfolding call_rtc candidate_calls
apply_pending_candidates p = record (call_rtc (candidate_calls p.pending_candidates) p) {
  pending_candidates = [];
}

-- Whether setRemoteDescription, behind these calls, takes a description.
abbrev pub Accepts : Type 0
Accepts = List RtcCall → String → String → Bool

unfoldable pub take_description : Accepts → String → String → Peer → Peer
unfolding call_rtc apply_pending_candidates
take_description accepts sdp type p =
    let called = call_rtc (set_remote_description sdp type ∷ []) p in
    if accepts p.calls sdp type
    then apply_pending_candidates (record called { remote_desc_set = true })
    else called

unfoldable pub on_offer : Accepts → Option String → Peer → Peer
unfolding setup_peer_connection take_description
on_offer accepts none p = p
on_offer accepts (some sdp) p =
    if p.connected
    then p
    else take_description accepts sdp "offer" (if p.pc then p else setup_peer_connection p)

unfoldable pub on_answer : Accepts → Option String → Peer → Peer
unfolding take_description
on_answer accepts none p = p
on_answer accepts (some sdp) p =
    if p.connected || not p.pc then p else take_description accepts sdp "answer" p

unfoldable pub mid_or_zero : Option String → String
mid_or_zero none = "0"
mid_or_zero (some mid) = mid

unfoldable pub index_of : Option Value → ℤ
unfolding to_int32
index_of (some (int idx)) = to_int32 idx
index_of _ = pos 0

unfoldable pub on_candidate : Option String → String → ℤ → Peer → Peer
unfolding call_rtc
on_candidate none mid idx p = p
on_candidate (some cand) mid idx p =
    if cand == ""
    then p
    else if p.remote_desc_set && p.pc
    then call_rtc (add_remote_candidate cand mid ∷ []) p
    else record p { pending_candidates = p.pending_candidates ++ ((cand, mid, idx) ∷ []) }

unfoldable pub by_type : Accepts → String → Dict → Peer → Peer
unfolding on_hello on_offer on_answer on_candidate mid_or_zero index_of text_of Value.find
by_type accepts type d p =
    if type == "hello"
    then on_hello (text_of (Value.find "peer_id" d)) p
    else if type == "offer"
    then on_offer accepts (text_of (Value.find "sdp" d)) p
    else if type == "answer"
    then on_answer accepts (text_of (Value.find "sdp" d)) p
    else if type == "candidate"
    then on_candidate (text_of (Value.find "candidate" d))
        (mid_or_zero (text_of (Value.find "sdpMid" d))) (index_of (Value.find "sdpMLineIndex" d)) p
    else p

-- itPeer != end() && it is a string && it is our own
unfoldable pub is_own : String → Option String → Bool
is_own own none = false
is_own own (some remote) = remote == own

unfoldable pub typed_signal : Accepts → Option String → Dict → Peer → Peer
unfolding is_own by_type text_of Value.find
typed_signal accepts none d p = p
typed_signal accepts (some type) d p =
    if is_own p.peer_id (text_of (Value.find "peer_id" d)) then p else by_type accepts type d p

-- onSignalMessage, with the signal as it is deserialized.
unfoldable pub on_signal_message : Accepts → Result Value → Peer → Peer
unfolding typed_signal text_of Value.find
on_signal_message accepts (ok (dict d)) p =
    if p.disconnecting then p else typed_signal accepts (text_of (Value.find "type" d)) d p
on_signal_message accepts _ p = p

unfoldable pub description_message : String → String → String → Dict
unfolding Value.set
description_message type peer_id sdp =
    Value.set "sdp" (string sdp)
      (Value.set "peer_id" (string peer_id) (Value.set "type" (string type) empty))

unfoldable pub on_local_description : String → String → Peer → Peer
unfolding send_signal description_message
on_local_description type sdp p =
    if p.disconnecting then p else send_signal (description_message type p.peer_id sdp) p

unfoldable pub candidate_message : String → String → String → Dict
unfolding Value.set
candidate_message peer_id cand mid = Value.set "sdpMLineIndex" (int (pos 0)) (
    Value.set "sdpMid" (string mid) (
      Value.set "candidate" (string cand)
        (Value.set "peer_id" (string peer_id) (Value.set "type" (string "candidate") empty))))

unfoldable pub on_local_candidate : String → String → Peer → Peer
unfolding send_signal candidate_message
on_local_candidate cand mid p =
    if p.disconnecting then p else send_signal (candidate_message p.peer_id cand mid) p

-- onDataChannel: the channels that the other peer created.
unfoldable pub on_data_channel : String → Peer → Peer
on_data_channel label p =
    if label == "magpie"
    then record p { dc = true }
    else if label == "magpie-media" && p.use_media_channels
    then record p { media_dc = true }
    else p

-- disconnect of a peer
unfoldable pub disconnect_peer : Peer → Peer
unfolding call_rtc
disconnect_peer p =
    let closed = record p {
      disconnecting = true;
      connected = false;
      dc = false;
      media_dc = false;
    } in
    if p.disconnecting
    then p
    else if p.pc
    then record (call_rtc (close_connection ∷ []) closed) { pc = false }
    else closed

-- What happens to a peer: a signal, the callbacks of libdatachannel (`link_lost` is a state of
-- failure), and a disconnect. A peer of a group does not reconnect by itself.
pub data PeerEvent : Type 0 where
  signal : Result Value → PeerEvent
  local_description local_candidate : String → String → PeerEvent
  channel_offered : String → PeerEvent
  channel_open channel_closed link_lost disconnected : PeerEvent

unfoldable pub peer_step : Accepts → PeerEvent → Peer → Peer
unfolding on_signal_message on_local_description on_local_candidate on_data_channel disconnect_peer
peer_step accepts (signal s) p = on_signal_message accepts s p
peer_step accepts (local_description type sdp) p = on_local_description type sdp p
peer_step accepts (local_candidate cand mid) p = on_local_candidate cand mid p
peer_step accepts (channel_offered label) p = on_data_channel label p
peer_step accepts channel_open p = record p { connected = true }
peer_step accepts channel_closed p = record p { connected = false }
peer_step accepts link_lost p = if p.disconnecting then p else record p { connected = false }
peer_step accepts disconnected p = disconnect_peer p

-- Events in the order in which they happen.
unfoldable pub peer_run : Accepts → List PeerEvent → Peer → Peer
unfolding peer_step
peer_run accepts [] p = p
peer_run accepts (e ∷ es) p = peer_run accepts es (peer_step accepts e p)
