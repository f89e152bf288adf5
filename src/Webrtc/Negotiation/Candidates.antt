-- ===== src/Webrtc/Negotiation/Candidates.antt =====
-- The remote candidates of a peer, src/transport/webrtc/webrtc_connection.cpp: what is buffered and
-- what libdatachannel gets.
pub mod Handled
pub mod Single
pub mod Runs
pub mod Order
use mathlib.Core.List.{append_assoc, append-nil}
use magpie_cpp.Value
use magpie_cpp.Prelude.{
  String, Bool, List, ◌++◌, ◌==◌, ◌∷◌, if◌then◌else◌, Option, true, some, none, false, [], ◌≡◌,
  refl, ap, ◌∙◌, Bool-cases, inl, inr, eq_iff, arith, All, sym, text_ltb, if_rule, ◌||◌, ◌&&◌, not,
}
use mathlib.Core.Bool.{false≢true}
use magpie_cpp.Prelude.Result.{Result, ok, throw}
use magpie_cpp.Prelude.Int.{ℤ}
use magpie_cpp.Value.{Dict, Value, dict, null, bool, int, double, string, binary, list}
use magpie_cpp.Mqtt.Requester.{text_of}
use magpie_cpp.Webrtc.Negotiation.{
  Accepts, Candidate, Peer, PeerEvent, RtcCall, add_remote_candidate, call_rtc, channel_closed,
  channel_offered, channel_open, close_connection, create_data_channel, disconnected, link_lost,
  local_candidate, local_description, new_connection, set_local_description, set_remote_description,
  signal, candidate_calls, setup_peer_connection, create_offer, offer_calls, send_hello,
  send_signal, on_hello, note_remote, decide_role, apply_pending_candidates, take_description,
  on_offer, on_answer, on_candidate, by_type, typed_signal, is_own, on_signal_message, mid_or_zero,
  index_of, on_local_description, on_local_candidate, on_data_channel, peer_step, peer_run,
}

-- The candidates that libdatachannel was given, in order.
unfoldable pub given : List RtcCall → List (String × String)
given [] = []
given (add_remote_candidate cand mid ∷ calls) = (cand, mid) ∷ given calls
given (new_connection ∷ calls) = given calls
given (set_local_description ∷ calls) = given calls
given (close_connection ∷ calls) = given calls
given (create_data_channel label ∷ calls) = given calls
given (set_remote_description sdp type ∷ calls) = given calls

-- The buffered ones.
unfoldable pub waiting : List Candidate → List (String × String)
waiting [] = []
waiting ((cand, mid, idx) ∷ rest) = (cand, mid) ∷ waiting rest

unfoldable pub candidate_pair : Option String → String → List (String × String)
candidate_pair none mid = []
candidate_pair (some cand) mid = if cand == "" then [] else (cand, mid) ∷ []

unfoldable pub candidate_of : String → Dict → List (String × String)
unfolding candidate_pair mid_or_zero text_of Value.find
candidate_of type d =
    if type == "candidate"
    then candidate_pair (text_of (Value.find "candidate" d))
        (mid_or_zero (text_of (Value.find "sdpMid" d)))
    else []

unfoldable pub candidate_from : String → Option String → Dict → List (String × String)
unfolding candidate_of is_own text_of Value.find
candidate_from own none d = []
candidate_from own (some type) d =
    if is_own own (text_of (Value.find "peer_id" d)) then [] else candidate_of type d

-- The candidate that an event brings from another peer.
unfoldable pub heard_candidate : String → PeerEvent → List (String × String)
unfolding candidate_from text_of Value.find
heard_candidate own (signal (ok (dict d))) = candidate_from own (text_of (Value.find "type" d)) d
heard_candidate own _ = []

unfoldable pub heard_candidates : String → List PeerEvent → List (String × String)
unfolding heard_candidate
heard_candidates own [] = []
heard_candidates own (e ∷ es) = heard_candidate own e ++ heard_candidates own es

pub given-append : (cs ds : List RtcCall) → given (cs ++ ds) ≡ given cs ++ given ds
unfolding given
given-append [] ds = refl
given-append (add_remote_candidate cand mid ∷ cs) ds =
    ap (λ r. (cand, mid) ∷ r) (given-append cs ds)
given-append (new_connection ∷ cs) ds = given-append cs ds
given-append (set_local_description ∷ cs) ds = given-append cs ds
given-append (close_connection ∷ cs) ds = given-append cs ds
given-append (create_data_channel label ∷ cs) ds = given-append cs ds
given-append (set_remote_description sdp type ∷ cs) ds = given-append cs ds

pub waiting-append : (cs ds : List Candidate) → waiting (cs ++ ds) ≡ waiting cs ++ waiting ds
unfolding waiting
waiting-append [] ds = refl
waiting-append ((cand, mid, idx) ∷ cs) ds = ap (λ r. (cand, mid) ∷ r) (waiting-append cs ds)

pub given-candidate_calls : (cs : List Candidate) → given (candidate_calls cs) ≡ waiting cs
unfolding given candidate_calls waiting
given-candidate_calls [] = refl
given-candidate_calls ((cand, mid, idx) ∷ cs) = ap (λ r. (cand, mid) ∷ r) (given-candidate_calls cs)

-- Of the candidates that were heard, those given to libdatachannel, and behind them those that
-- wait: for a remote description, without which none is given.
pub record IsInOrder (own : String) (heard : List (String × String)) (p : Peer) : Type 0 where
  pub none_lost : given p.calls ++ waiting p.pending_candidates ≡ heard
  pub none_early : p.remote_desc_set ≡ false → given p.calls ≡ []
  pub none_late : p.remote_desc_set ≡ true → p.pending_candidates ≡ []
  pub has_connection : p.remote_desc_set ≡ true → p.pc ≡ true
  pub not_disconnecting : p.disconnecting ≡ false
  pub named : p.peer_id ≡ own
