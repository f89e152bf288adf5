-- ===== src/Webrtc/Group/Signals.antt =====
-- What a signal does to the origins of the requests: src/transport/webrtc/webrtc_connection.cpp.
use magpie_cpp.Prelude.Map
use magpie_cpp.Value
use magpie_cpp.Prelude.{
  eq_iff, ◌&&◌, arith, ◌∷◌, if◌then◌else◌, ◌||◌, Bool-cases, ◌≡◌, not, Option, ◌==◌, Bool, String,
  true, some, refl, none, inr, inl, false, [],
}
use magpie_cpp.Value.{Value, Dict, dict}
use magpie_cpp.Prelude.Result.{ok}
use magpie_cpp.Webrtc.Group.Events.{Origin, spares, signalled}
use magpie_cpp.Webrtc.Group.{
  peer_connected, new_restart, has_peer, text_field, SignalOutcome, has_text, ignore_signal,
  PeerGroup, on_signal, signal_sender, check_role, check_target, check_from, signal_from,
  admit_peer, drop_peer, store_restart, add_peer, erase_origins,
}
use magpie_cpp.Prelude.Map.{Map}
use magpie_cpp.Mqtt.Requester.{text_of}

find-erase_origins :
    (rid remote other : String) (m : Map String)
    → (other == remote) ≡ false
    → Map.find rid m ≡ some remote
    → Map.find rid (erase_origins other m) ≡ some remote
unfolding Map.find erase_origins
find-erase_origins rid remote other [] d f = f
find-erase_origins rid remote other ((k, origin) ∷ m) d f = ground (
  arith,
  find-erase_origins rid remote other m d,
  eq_iff origin other,
  eq_iff other remote,
  eq_iff k rid,
)

add_peer-Origin :
    (remote rid other : String) (g : PeerGroup)
    → Origin remote rid g
    → Origin remote rid (add_peer other g)
unfolding add_peer
add_peer-Origin remote rid other g o = elim (Bool-cases (has_peer other g.peers)) [
  | inl e ↦ simp e o
  | inr e ↦ simp e o
]

store_restart-Origin :
    (remote rid other : String) (b : Bool) (id : Option String) (g : PeerGroup)
    → Origin remote rid g
    → Origin remote rid (store_restart b other id g)
unfolding store_restart
store_restart-Origin remote rid other true id g o = o
store_restart-Origin remote rid other false id g o = o

drop_if-Origin :
    (remote rid other : String) (b : Bool) (g : PeerGroup)
    → (not b || not (other == remote)) ≡ true
    → Origin remote rid g
    → Origin remote rid (if b then drop_peer other g else g)
unfolding drop_peer
drop_if-Origin remote rid other false g s o = o
drop_if-Origin remote rid other true g s o =
    find-erase_origins rid remote other g.rpc_origins (ground arith) o

admit_peer-Origin :
    (remote rid other : String) (is_hello is_new : Bool) (g : PeerGroup)
    → (not is_hello || not (other == remote)) ≡ true
    → Origin remote rid g
    → Origin remote rid (admit_peer is_hello is_new other g).group
unfolding admit_peer
admit_peer-Origin remote rid other is_hello is_new g s o =
    let again =
      is_new || (has_peer other g.ever_ready_peers && not (peer_connected other g.peers)) in
    let replaces = has_peer other g.peers && (is_hello && again) in
    add_peer-Origin remote rid other (if replaces then drop_peer other g else g)
      (drop_if-Origin remote rid other replaces g (ground arith) o)

if-Origin :
    (remote rid : String) (b : Bool) (x y : SignalOutcome)
    → Origin remote rid x.group
    → Origin remote rid y.group
    → Origin remote rid (if b then x else y).group
if-Origin remote rid true x y ox oy = ox
if-Origin remote rid false x y ox oy = oy

signal_from-Origin :
    (remote rid : String) (d : Dict) (from : Option String) (g : PeerGroup)
    → (not (has_text (text_of (Value.find "type" d)) "hello") || not (has_text from remote)) ≡ true
    → Origin remote rid g
    → Origin remote rid (signal_from d from g).group
unfolding signal_from ignore_signal has_text
signal_from-Origin remote rid d none g s o = o
signal_from-Origin remote rid d (some other) g s o =
    let is_hello = has_text (text_of (Value.find "type" d)) "hello" in
    let id = text_of (Value.find "restart_id" d) in
    let is_new = new_restart is_hello (Map.find other g.restart_ids) id in
    let stored = store_restart is_new other id g in
    if-Origin remote rid g.stopped (ignore_signal g) (admit_peer is_hello is_new other stored) o (
      admit_peer-Origin remote rid other is_hello is_new stored s
        (store_restart-Origin remote rid other is_new id g o))

-- The sender of a signal is what its peer_id says, or there is none.
check_from-has_text :
    (own remote : String) (t : Option String)
    → has_text t remote ≡ false
    → has_text (check_from own t) remote ≡ false
unfolding check_from has_text
check_from-has_text own remote none e = refl
check_from-has_text own remote (some t) e = elim (Bool-cases (t == "" || t == own)) [
  | inl b ↦ simp b refl
  | inr b ↦ simp b e
]

check_target-has_text :
    (own remote : String) (target : Option Value) (from : Option String)
    → has_text from remote ≡ false
    → has_text (check_target own target from) remote ≡ false
unfolding check_target has_text
check_target-has_text own remote none from e = e
check_target-has_text own remote (some target) from e =
    elim (Bool-cases (has_text (text_of (some target)) own)) [
      | inl b ↦ simp b e
      | inr b ↦ simp b refl
    ]

check_role-has_text :
    (own remote : String) (role : Option String) (from : Option String)
    → has_text from remote ≡ false
    → has_text (check_role own role from) remote ≡ false
unfolding check_role has_text
check_role-has_text own remote none from e = e
check_role-has_text own remote (some role) from e =
    elim (Bool-cases ((own == "client" && role == "client") || (own == "host" && role == "host"))) [
      | inl b ↦ simp b refl
      | inr b ↦ simp b e
    ]

signal_sender-has_text :
    (g : PeerGroup) (d : Dict) (remote : String)
    → has_text (text_of (Value.find "peer_id" d)) remote ≡ false
    → has_text (signal_sender g d) remote ≡ false
unfolding signal_sender
signal_sender-has_text g d remote e =
    let from = check_from g.peer_id (text_of (Value.find "peer_id" d)) in
    check_role-has_text g.role remote (text_of (Value.find "role" d))
      (check_target g.peer_id (Value.find "to_peer_id" d) from)
      (check_target-has_text g.peer_id remote (Value.find "to_peer_id" d) from
        (check_from-has_text g.peer_id remote (text_of (Value.find "peer_id" d)) e))

pub on_signal-Origin :
    (remote rid : String) (v : Value) (g : PeerGroup)
    → spares remote rid (signalled (ok v)) ≡ true
    → Origin remote rid g
    → Origin remote rid (on_signal (ok v) g).group
unfolding on_signal spares text_field
on_signal-Origin remote rid (dict d) g s o =
    signal_from-Origin remote rid d (signal_sender g d) g
      (elim (Bool-cases (has_text (text_of (Value.find "peer_id" d)) remote)) [
        | inl e ↦ ground arith
        | inr e ↦ simp (signal_sender-has_text g d remote e) (ground arith)
      ])
      o
on_signal-Origin remote rid v g s o = unfold ignore_signal in o
