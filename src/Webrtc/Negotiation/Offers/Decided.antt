-- ===== src/Webrtc/Negotiation/Offers/Decided.antt =====
-- A hello decides the role of a peer, src/transport/webrtc/webrtc_connection.cpp, and of two peers
-- that hear each other one offers.
use magpie_cpp.Value
use magpie_cpp.Prelude.{
  ◌+◌, String, Bool, List, ◌++◌, ◌==◌, ◌∷◌, if◌then◌else◌, Option, true, some, none, false, [],
  text_ltb, ◌≡◌, ◌≢◌, refl, inl, inr, sym, ap, ◌∙◌, if_rule, arith, All, eq_iff, Bool-cases,
}
use mathlib.Core.Bool.{false≢true}
use magpie_cpp.Prelude.Texts.{text_ltb-not}
use magpie_cpp.Prelude.Result.{Result, ok, throw}
use magpie_cpp.Value.{Dict, Value, dict, null, bool, int, double, string, binary, list}
use magpie_cpp.Mqtt.Requester.{text_of}
use magpie_cpp.Webrtc.Negotiation.{
  Accepts, Peer, PeerEvent, call_rtc, new_peer, signal, setup_peer_connection, create_offer,
  send_hello, send_signal, on_hello, note_remote, decide_role, by_type, typed_signal, is_own,
  on_signal_message, peer_step, peer_run,
}
use magpie_cpp.Webrtc.Negotiation.Offers.{offers}
use magpie_cpp.Webrtc.Negotiation.Offers.Roles.{
  HasRole, IsFrom, by_type-SameRole, callback-SameRole, peer_run-HasRole,
}
use magpie_cpp.Webrtc.Negotiation.Candidates.Order.{peer_run-new_peer}
use magpie_cpp.Webrtc.Negotiation.Candidates.Runs.{Stays}

abbrev IsDecided : Peer → Type 0
IsDecided p = p.role_decided ≡ true

decide_role-IsDecided : (p : Peer) → IsDecided (decide_role p)
unfolding decide_role setup_peer_connection create_offer send_hello send_signal call_rtc
decide_role-IsDecided p =
    if_rule IsDecided (text_ltb p.remote_peer_id p.peer_id) _ _ (λ e. refl) (λ e. refl)

-- A hello that names its sender, whatever was decided before.
on_hello-IsDecided : (remote : String) (p : Peer) → IsDecided (on_hello (some remote) p)
unfolding on_hello
on_hello-IsDecided remote p =
    if_rule IsDecided ((note_remote remote p).role_decided) _ _ (λ e. e)
      (λ e. decide_role-IsDecided (note_remote remote p))

on_hello-keeps : (remote : Option String) (p : Peer) → IsDecided p → IsDecided (on_hello remote p)
on_hello-keeps none p h = unfold on_hello in h
on_hello-keeps (some remote) p h = on_hello-IsDecided remote p

by_type-keeps :
    (accepts : Accepts) (type : String) (d : Dict) (p : Peer)
    → IsDecided p
    → IsDecided (by_type accepts type d p)
by_type-keeps accepts type d p h = elim (Bool-cases (type == "hello")) [
  | inl t ↦ unfold by_type in rw t (on_hello-keeps (text_of (Value.find "peer_id" d)) p h)
  | inr t ↦ (by_type-SameRole accepts type d p t).same_decided ∙ h
]

typed_signal-keeps :
    (accepts : Accepts) (type : Option String) (d : Dict) (p : Peer)
    → IsDecided p
    → IsDecided (typed_signal accepts type d p)
unfolding typed_signal
typed_signal-keeps accepts none d p h = h
typed_signal-keeps accepts (some type) d p h =
    if_rule IsDecided (is_own p.peer_id (text_of (Value.find "peer_id" d))) _ _ (λ e. h)
      (λ e. by_type-keeps accepts type d p h)

signal-keeps :
    (accepts : Accepts) (s : Result Value) (p : Peer)
    → IsDecided p
    → IsDecided (on_signal_message accepts s p)
unfolding on_signal_message
signal-keeps accepts (ok (dict d)) p h =
    if_rule IsDecided p.disconnecting _ _ (λ e. h)
      (λ e. typed_signal-keeps accepts (text_of (Value.find "type" d)) d p h)
signal-keeps accepts (ok null) p h = h
signal-keeps accepts (ok (bool b)) p h = h
signal-keeps accepts (ok (int z)) p h = h
signal-keeps accepts (ok (double x)) p h = h
signal-keeps accepts (ok (string s)) p h = h
signal-keeps accepts (ok (binary b)) p h = h
signal-keeps accepts (ok (list l)) p h = h
signal-keeps accepts (throw e) p h = h

peer_step-keeps :
    (accepts : Accepts) (e : PeerEvent) (p : Peer) → IsDecided p → IsDecided (peer_step accepts e p)
peer_step-keeps accepts (signal s) p h = unfold peer_step in signal-keeps accepts s p h
peer_step-keeps accepts e p h = (callback-SameRole accepts e p (λ x. x)).same_decided ∙ h

peer_run-keeps :
    (accepts : Accepts) (es : List PeerEvent) (p : Peer)
    → IsDecided p
    → IsDecided (peer_run accepts es p)
unfolding peer_run
peer_run-keeps accepts [] p h = h
peer_run-keeps accepts (e ∷ es) p h =
    peer_run-keeps accepts es (peer_step accepts e p) (peer_step-keeps accepts e p h)

peer_run-append :
    (accepts : Accepts) (es fs : List PeerEvent) (p : Peer)
    → peer_run accepts (es ++ fs) p ≡ peer_run accepts fs (peer_run accepts es p)
unfolding peer_run
peer_run-append accepts [] fs p = refl
peer_run-append accepts (e ∷ es) fs p = peer_run-append accepts es fs (peer_step accepts e p)

-- A hello of another peer.
pub record IsHello (remote : String) (d : Dict) : Type 0 where
  pub of_hello : text_of (Value.find "type" d) ≡ some "hello"
  pub of_remote : text_of (Value.find "peer_id" d) ≡ some remote

hello-IsDecided :
    (accepts : Accepts) (remote : String) (d : Dict) (p : Peer)
    → IsHello remote d
    → (remote == p.peer_id) ≡ false
    → p.disconnecting ≡ false
    → IsDecided (peer_step accepts (signal (ok (dict d))) p)
hello-IsDecided accepts remote d p hello other stays =
    unfold peer_step on_signal_message in
    if_rule IsDecided p.disconnecting _ _ (λ e. absurd (false≢true (sym stays ∙ e)))
      (λ e. rw (hello.of_hello) (
        unfold typed_signal by_type is_own in
        rw (hello.of_remote, other) (on_hello-IsDecided remote p)))

-- What a peer `own` was through: events that end in a hello of `remote`, and further ones.
pub record Meets (own remote : String) (es : List PeerEvent) : Type 0 where
  pub earlier : List PeerEvent
  pub hello : Dict
  pub later : List PeerEvent
  pub in_order : es ≡ earlier ++ (signal (ok (dict hello)) ∷ later)
  pub is_hello : IsHello remote hello
  pub all_from : All (IsFrom remote) es
  pub all_stay : All Stays earlier

Meets-IsDecided :
    (accepts : Accepts) (own remote target role : String) (use_media : Bool) (es : List PeerEvent)
    → (remote == own) ≡ false
    → Meets own remote es
    → IsDecided (peer_run accepts es (new_peer own target role use_media))
Meets-IsDecided accepts own remote target role use_media es other m =
    let start = new_peer own target role use_media in
    let o = peer_run-new_peer accepts own target role use_media m.earlier m.all_stay in
    let p = peer_run accepts m.earlier start in
    rw (m.in_order, peer_run-append accepts m.earlier (signal (ok (dict m.hello)) ∷ m.later) start)
      (unfold peer_run in
        peer_run-keeps accepts m.later _ (
          hello-IsDecided accepts remote m.hello p m.is_hello
            (ap (λ i. remote == i) o.named ∙ other) o.not_disconnecting))

new_peer-HasRole :
    (own remote target role : String) (use_media : Bool)
    → HasRole own remote (new_peer own target role use_media)
unfolding new_peer offers
new_peer-HasRole own remote target role use_media = record {
  named = refl;
  noted = inl refl;
  before = λ e. refl;
  behind = λ e. absurd (false≢true e);
}

own_offers :
    (accepts : Accepts) (own remote target role : String) (use_media : Bool) (es : List PeerEvent)
    → (remote == "") ≡ false
    → (remote == own) ≡ false
    → Meets own remote es
    → offers (peer_run accepts es (new_peer own target role use_media)).calls
      ≡ (if text_ltb remote own then 1 else 0)
own_offers accepts own remote target role use_media es named other m =
    (peer_run-HasRole accepts own remote es (new_peer own target role use_media) named m.all_from
        (new_peer-HasRole own remote target role use_media)).behind
      (Meets-IsDecided accepts own remote target role use_media es other m)

-- Two new peers with different identifiers that are not empty, each of which hears signals of the
-- other alone, and among them a hello before it is disconnected: whatever else happens to them, in
-- whatever order, together they ask libdatachannel for exactly one offer, and it is the peer with
-- the greater identifier that does.
pub peers_run-one_offer :
    (accepts : Accepts) (a b role_a role_b : String) (media_a media_b : Bool)
    (es fs : List PeerEvent)
    → (a == "") ≡ false
    → (b == "") ≡ false
    → a ≢ b
    → Meets a b es
    → Meets b a fs
    → let p = peer_run accepts es (new_peer a b role_a media_a) in
      let q = peer_run accepts fs (new_peer b a role_b media_b) in
      (offers p.calls + offers q.calls ≡ 1) × (offers p.calls ≡ (if text_ltb b a then 1 else 0))
peers_run-one_offer accepts a b role_a role_b media_a media_b es fs some_a some_b differ m n =
    let ab : (a == b) ≡ false = ground (arith, eq_iff a b, differ) in
    let ba : (b == a) ≡ false = ground (arith, eq_iff b a, differ) in
    let mine = own_offers accepts a b b role_a media_a es some_b ba m in
    let theirs = own_offers accepts b a a role_b media_b fs some_a ab n in
    (rw (mine, theirs) (ground (arith, text_ltb-not b a (λ e. differ (sym e)))), mine)
