-- ===== src/Zconf.antt =====
-- ZconfDiscovery, src/discovery/zconf_discovery.cpp and include/magpie/discovery/zconf_discovery.hpp:
-- what one discovery knows of the other nodes. The mutexes make each step atomic. mdns.h, the
-- sockets, inet_pton and inet_ntop are parameters.
pub mod Text
pub mod Records
pub mod Known
pub mod Advertise
pub mod Wire
pub mod Announced
pub mod Handled
pub mod Entries
pub mod EndToEnd
pub mod Goodbye
pub mod Queries
pub mod Questions
pub mod Interfaces
pub mod Lookup
pub mod Invariant
pub mod Worker
pub mod Resolved
use magpie_cpp.Prelude.{
  ℕ, Bool, true, false, not, ◌&&◌, ◌||◌, eqb, ltb, List, [], ◌∷◌, ◌++◌, Option, none, some,
  if◌then◌else◌,
}
use magpie_cpp.Prelude.Bytes.{Bytes, codes, same_bytes}
use magpie_cpp.Prelude.Table
use magpie_cpp.Prelude.Table.{Table}
use magpie_cpp.Zconf.Text.{ensure_trailing_dot}

unfoldable pub empty_list {ℓ} : {A : Type ℓ} → List A → Bool
empty_list [] = true
empty_list (x ∷ xs) = false

pub record NodeInfo : Type 0 where
  pub node_id : Bytes
  pub instance_name : Bytes
  pub host_qualified : Bytes
  pub port : ℕ
  pub payload_json : Bytes
  pub ips : List Bytes

-- NodeInfo{}
abbrev pub new_node_info : NodeInfo
new_node_info = record {
  node_id = [];
  instance_name = [];
  host_qualified = [];
  port = 0;
  payload_json = codes "{}";
  ips = [];
}

unfoldable pub is_resolved : NodeInfo → Bool
unfolding empty_list
is_resolved n = not (empty_list n.node_id) && not (eqb n.port 0) && not (empty_list n.ips)

-- The state that the receiving thread and the public operations share.
pub record Discovery : Type 0 where
  pub service_type : Bytes
  pub nodes : Table NodeInfo
  pub instance_to_node : Table Bytes
  pub host_to_node : Table Bytes
  pub pending_ips_by_host : Table (List Bytes)
  pub expire_ms_by_node : Table ℕ
  pub queried_instance : List Bytes
  pub queried_host : List Bytes

-- ZconfDiscovery::Impl::Impl
unfoldable pub new_discovery : Bytes → Discovery
new_discovery service_type = record {
  service_type = ensure_trailing_dot service_type;
  nodes = [];
  instance_to_node = [];
  host_to_node = [];
  pending_ips_by_host = [];
  expire_ms_by_node = [];
  queried_instance = [];
  queried_host = [];
}

-- itexp != end() && itexp->second != 0 && itexp->second < now
unfoldable pub is_expired : ℕ → Option ℕ → Bool
is_expired now none = false
is_expired now (some expire_ms) = not (eqb expire_ms 0) && ltb expire_ms now

unfoldable pub unexpired : ℕ → Table ℕ → Table NodeInfo → List NodeInfo
unfolding is_expired Table.find
unexpired now expire_ms_by_node [] = []
unexpired now expire_ms_by_node ((id, n) ∷ rest) =
    let later = unexpired now expire_ms_by_node rest in
    if is_expired now (Table.find id expire_ms_by_node) then later else n ∷ later

-- list_nodes, at the time `now`.
unfoldable pub list_nodes : ℕ → Discovery → List NodeInfo
unfolding unexpired
list_nodes now d = unexpired now d.expire_ms_by_node d.nodes

-- What resolve_node finds in the table.
unfoldable pub if_resolved : Option NodeInfo → Option NodeInfo
unfolding is_resolved
if_resolved none = none
if_resolved (some n) = if is_resolved n then some n else none

unfoldable pub look_up : Bytes → Discovery → Option NodeInfo
unfolding if_resolved Table.find
look_up id d = if_resolved (Table.find id d.nodes)

pub data Resolution : Type 0 where
  timed_out still_waiting : Resolution
  resolved : NodeInfo → Resolution

unfoldable pub resolution_step : Option NodeInfo → Bool → Resolution → Resolution
resolution_step (some n) past_deadline rest = resolved n
resolution_step none past_deadline rest = if past_deadline then timed_out else rest

-- resolve_node: the state each time the caller holds the mutex, and whether the deadline has passed
-- by then.
unfoldable pub resolve_node : Bytes → List (Discovery × Bool) → Resolution
unfolding look_up resolution_step
resolve_node id [] = still_waiting
resolve_node id ((d, past_deadline) ∷ later) =
    resolution_step (look_up id d) past_deadline (resolve_node id later)

-- s.rfind(prefix, 0) == 0
unfoldable pub starts_with : Bytes → Bytes → Bool
starts_with [] s = true
starts_with (c ∷ p) [] = false
starts_with (c ∷ p) (d ∷ s) = eqb c d && starts_with p s

unfoldable pub is_local_ip : Bytes → Bool
unfolding starts_with
is_local_ip ip = starts_with (codes "127.") ip || starts_with (codes "169.254.") ip

unfoldable pub first_routable : List Bytes → Option Bytes
unfolding is_local_ip
first_routable [] = none
first_routable (ip ∷ rest) = if is_local_ip ip then first_routable rest else some ip

unfoldable pub front_or_empty : List Bytes → Bytes
front_or_empty [] = []
front_or_empty (ip ∷ rest) = ip

unfoldable pub ip_or : Bytes → Option Bytes → Bytes
ip_or fallback none = fallback
ip_or fallback (some ip) = ip

-- pick_best_ip
unfoldable pub pick_best_ip : NodeInfo → Bytes
unfolding first_routable front_or_empty ip_or
pick_best_ip n = ip_or (front_or_empty n.ips) (first_routable n.ips)
