-- ===== src/Webrtc/Callbacks.antt =====
-- Adding and removing callbacks, src/transport/webrtc/webrtc_connection.cpp. A WebRtcConnection is one
-- peer, or a group that keeps the callbacks and gives each of its peers a copy.
mod Laws
pub mod Joined
pub mod Copies
use magpie_cpp.Prelude.Map
use magpie_cpp.Prelude.{
  ◌^◌, ◌&&◌, ◌%◌, not, ◌+◌, Option, if◌then◌else◌, ◌∷◌, List, ℕ, Bool, String, true, some, none, [],
}
use magpie_cpp.Mqtt.Connection.{has_none, erase_handle}
use magpie_cpp.Webrtc.Routing.{Callbacks, held}
use magpie_cpp.Prelude.Map.{Map}

-- The ten operations, without the handle that adding gives out.
pub data Change (C : Type 0) : Type 0 where
  add_pub add_request add_reply : String → C → Change C
  remove_pub remove_request : String → ℕ → Change C
  remove_reply : String → Change C
  add_video add_audio : C → Change C
  remove_video remove_audio : ℕ → Change C

-- callbacks[handle] = callback
unfoldable pub put_handle : {C : Type 0} → ℕ → C → List (ℕ × C) → List (ℕ × C)
unfolding erase_handle
put_handle handle cb callbacks = (handle, cb) ∷ erase_handle handle callbacks

-- callbacks[key][handle] = callback
unfoldable pub put_under : {C : Type 0} → String → ℕ → C → Map (List (ℕ × C)) → Map (List (ℕ × C))
unfolding put_handle held Map.find Map.set
put_under key handle cb m = Map.set key (put_handle handle cb (held (Map.find key m))) m

-- One peer drops a key that has no callbacks left; a group keeps it.
unfoldable pub store_kept :
    {C : Type 0} → Bool → String → List (ℕ × C) → Map (List (ℕ × C)) → Map (List (ℕ × C))
unfolding has_none Map.set Map.erase
store_kept in_group key kept m =
    if not in_group && has_none kept then Map.erase key m else Map.set key kept m

unfoldable pub drop_found :
    {C : Type 0}
    → Bool
    → String
    → ℕ
    → Option (List (ℕ × C))
    → Map (List (ℕ × C))
    → Map (List (ℕ × C))
unfolding store_kept erase_handle
drop_found in_group key handle none m = m
drop_found in_group key handle (some callbacks) m =
    store_kept in_group key (erase_handle handle callbacks) m

unfoldable pub drop_under :
    {C : Type 0} → Bool → String → ℕ → Map (List (ℕ × C)) → Map (List (ℕ × C))
unfolding drop_found Map.find
drop_under in_group key handle m = drop_found in_group key handle (Map.find key m) m

unfoldable pub change_callbacks : {C : Type 0} → Bool → ℕ → Change C → Callbacks C → Callbacks C
unfolding put_under drop_under put_handle erase_handle Map.set Map.erase
change_callbacks in_group handle (add_pub topic cb) c = record c {
  pub_callbacks = put_under topic handle cb c.pub_callbacks;
}
change_callbacks in_group handle (remove_pub topic h) c = record c {
  pub_callbacks = drop_under in_group topic h c.pub_callbacks;
}
change_callbacks in_group handle (add_request service cb) c = record c {
  rpc_req_callbacks = put_under service handle cb c.rpc_req_callbacks;
}
change_callbacks in_group handle (remove_request service h) c = record c {
  rpc_req_callbacks = drop_under in_group service h c.rpc_req_callbacks;
}
change_callbacks in_group handle (add_reply rid cb) c = record c {
  rpc_rep_callbacks = Map.set rid cb c.rpc_rep_callbacks;
}
change_callbacks in_group handle (remove_reply rid) c = record c {
  rpc_rep_callbacks = Map.erase rid c.rpc_rep_callbacks;
}
change_callbacks in_group handle (add_video cb) c = record c {
  video_callbacks = put_handle handle cb c.video_callbacks;
}
change_callbacks in_group handle (remove_video h) c = record c {
  video_callbacks = erase_handle h c.video_callbacks;
}
change_callbacks in_group handle (add_audio cb) c = record c {
  audio_callbacks = put_handle handle cb c.audio_callbacks;
}
change_callbacks in_group handle (remove_audio h) c = record c {
  audio_callbacks = erase_handle h c.audio_callbacks;
}

-- What a peer of a group runs: the callback, or the one that notes the peer as the origin first.
pub data Routed (C : Type 0) : Type 0 where
  plain : C → Routed C
  noting : String → C → Routed C

unfoldable pub routed : {C : Type 0} → String → Change C → Change (Routed C)
routed remote (add_pub topic cb) = add_pub topic (plain cb)
routed remote (remove_pub topic h) = remove_pub topic h
routed remote (add_request service cb) = add_request service (noting remote cb)
routed remote (remove_request service h) = remove_request service h
routed remote (add_reply rid cb) = add_reply rid (plain cb)
routed remote (remove_reply rid) = remove_reply rid
routed remote (add_video cb) = add_video (plain cb)
routed remote (remove_video h) = remove_video h
routed remote (add_audio cb) = add_audio (plain cb)
routed remote (remove_audio h) = remove_audio h

unfoldable pub next_after : {C : Type 0} → Change C → ℕ → ℕ
next_after (add_pub topic cb) n = (n + 1) % 2 ^ 64
next_after (add_request service cb) n = (n + 1) % 2 ^ 64
next_after (add_video cb) n = (n + 1) % 2 ^ 64
next_after (add_audio cb) n = (n + 1) % 2 ^ 64
next_after _ n = n

-- The callbacks of a group, and the copies of its peers.
pub record GroupCallbacks (C : Type 0) : Type 0 where
  pub own : Callbacks C
  pub copies : Map (Callbacks (Routed C))
  pub next_handle : ℕ

unfoldable pub change_copies :
    {C : Type 0} → ℕ → Change C → Map (Callbacks (Routed C)) → Map (Callbacks (Routed C))
unfolding change_callbacks routed
change_copies handle ch [] = []
change_copies handle ch ((remote, c) ∷ rest) =
    (remote, change_callbacks true handle (routed remote ch) c) ∷ change_copies handle ch rest

-- The operations of a group: addPubCallback … removeAudioCallback.
unfoldable pub change_group : {C : Type 0} → Change C → GroupCallbacks C → GroupCallbacks C
unfolding change_callbacks change_copies next_after
change_group ch g = record {
  own = change_callbacks true g.next_handle ch g.own;
  copies = change_copies g.next_handle ch g.copies;
  next_handle = next_after ch g.next_handle;
}

unfoldable pub map_values : {A B : Type 0} → (A → B) → Map A → Map B
map_values f [] = []
map_values f ((k, a) ∷ m) = (k, f a) ∷ map_values f m

unfoldable pub map_handles : {A B : Type 0} → (A → B) → List (ℕ × A) → List (ℕ × B)
map_handles f [] = []
map_handles f ((h, a) ∷ rest) = (h, f a) ∷ map_handles f rest

-- The keys with a callback.
unfoldable pub with_handlers : {A : Type 0} → Map (List (ℕ × A)) → Map (List (ℕ × A))
unfolding has_none
with_handlers [] = []
with_handlers ((key, callbacks) ∷ m) =
    let rest = with_handlers m in if has_none callbacks then rest else (key, callbacks) ∷ rest

-- Group::registerCallbacks: the requests are copied callback by callback, so that a service without
-- any gets no entry.
unfoldable pub register_callbacks : {C : Type 0} → String → Callbacks C → Callbacks (Routed C)
unfolding map_values map_handles with_handlers
register_callbacks remote c = record {
  pub_callbacks = map_values (map_handles plain) c.pub_callbacks;
  rpc_req_callbacks = map_values (map_handles (noting remote)) (with_handlers c.rpc_req_callbacks);
  rpc_rep_callbacks = map_values plain c.rpc_rep_callbacks;
  video_callbacks = map_handles plain c.video_callbacks;
  audio_callbacks = map_handles plain c.audio_callbacks;
}

-- A peer joins the group, or leaves it.
unfoldable pub copy_to : {C : Type 0} → String → GroupCallbacks C → GroupCallbacks C
unfolding register_callbacks Map.set
copy_to remote g = record g { copies = Map.set remote (register_callbacks remote g.own) g.copies }

unfoldable pub forget_copy : {C : Type 0} → String → GroupCallbacks C → GroupCallbacks C
unfolding Map.erase
forget_copy remote g = record g { copies = Map.erase remote g.copies }
