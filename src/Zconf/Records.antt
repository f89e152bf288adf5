-- ===== src/Zconf/Records.antt =====
-- handle_record of src/discovery/zconf_discovery.cpp for an answer, as mdns.h has parsed it.
use magpie_cpp.Prelude.{
  ℕ, ◌+◌, ◌*◌, ◌%◌, ◌^◌, not, ◌&&◌, eqb, List, [], ◌∷◌, Option, none, some, if◌then◌else◌,
}
use magpie_cpp.Prelude.Bytes.{Bytes, codes, same_bytes}
use magpie_cpp.Prelude.Table
use magpie_cpp.Prelude.Table.{push_new, push_each_new, remove_text}
use magpie_cpp.Zconf.Text.{
  to_lower, ensure_trailing_dot, ends_with_case_insensitive, norm_host, node_id_from_instance,
}
use magpie_cpp.Zconf.{Discovery, NodeInfo, new_node_info, empty_list}

-- What mdns_record_parse_ptr, _srv, _txt, _a and _aaaa give, an address as inet_ntop prints it.
pub data RecordData : Type 0 where
  ptr_data : Bytes → RecordData
  srv_data : Bytes → ℕ → RecordData
  txt_data : List (Bytes × Bytes) → RecordData
  address_data : Bytes → RecordData
  other_data : RecordData

pub record ResourceRecord : Type 0 where
  pub owner_name : Bytes
  pub ttl : ℕ
  pub rdata : RecordData

unfoldable pub expire_at : ℕ → ℕ → ℕ
expire_at now ttl = if eqb ttl 0 then 0 else (now + ttl * 1000) % 2 ^ 64

unfoldable pub or_new : Option NodeInfo → NodeInfo
or_new none = new_node_info
or_new (some n) = n

-- nodes_[id]
unfoldable pub node_entry : Bytes → Discovery → NodeInfo
unfolding or_new Table.find
node_entry id d = or_new (Table.find id d.nodes)

-- A goodbye.
unfoldable pub forget_node : Bytes → Bytes → Discovery → Discovery
unfolding Table.erase
forget_node id instance_name d = record d {
  nodes = Table.erase id d.nodes;
  instance_to_node = Table.erase instance_name d.instance_to_node;
  expire_ms_by_node = Table.erase id d.expire_ms_by_node;
}

unfoldable pub learn_instance : Bytes → Bytes → ℕ → Discovery → Discovery
unfolding node_entry Table.set remove_text
learn_instance id instance_name expire_ms d = record d {
  nodes =
      Table.set id (record (node_entry id d) { node_id = id; instance_name = instance_name })
        d.nodes;
  instance_to_node = Table.set instance_name id d.instance_to_node;
  expire_ms_by_node = Table.set id expire_ms d.expire_ms_by_node;
  queried_instance = remove_text instance_name d.queried_instance;
}

-- The branch MDNS_RECORDTYPE_PTR.
unfoldable pub take_ptr : ℕ → Bytes → ℕ → Bytes → Discovery → Discovery
unfolding empty_list forget_node learn_instance
take_ptr now owner ttl instance_name d =
    let id = node_id_from_instance d.service_type instance_name in
    if empty_list instance_name
    then d
    else if not (ends_with_case_insensitive owner d.service_type)
    then d
    else if not (ends_with_case_insensitive instance_name d.service_type)
    then d
    else if empty_list id
    then d
    else if eqb ttl 0
    then forget_node id instance_name d
    else learn_instance id instance_name (expire_at now ttl) d

unfoldable pub known_or : Bytes → Option Bytes → Bytes
known_or computed none = computed
known_or computed (some id) = id

unfoldable pub or_no_ips : Option (List Bytes) → List Bytes
or_no_ips none = []
or_no_ips (some ips) = ips

unfoldable pub learn_service : Bytes → Bytes → Bytes → ℕ → ℕ → Discovery → Discovery
unfolding node_entry Table.set Table.erase Table.find push_each_new remove_text or_no_ips
learn_service id instance_name host port expire_ms d =
    let host_norm = norm_host host in
    let entry = node_entry id d in
    record d {
      nodes =
          Table.set id
            (record entry {
              node_id = id;
              instance_name = instance_name;
              host_qualified = host;
              port = port % 2 ^ 16;
              ips =
                  push_each_new (or_no_ips (Table.find host_norm d.pending_ips_by_host)) entry.ips;
            })
            d.nodes;
      host_to_node = Table.set host_norm id d.host_to_node;
      pending_ips_by_host = Table.erase host_norm d.pending_ips_by_host;
      expire_ms_by_node = Table.set id expire_ms d.expire_ms_by_node;
      queried_host = remove_text host_norm d.queried_host;
    }

-- The node that an SRV record is about.
unfoldable pub node_of_instance : Bytes → Discovery → Bytes
unfolding known_or Table.find
node_of_instance instance_name d =
    known_or (node_id_from_instance d.service_type instance_name)
      (Table.find instance_name d.instance_to_node)

-- The branch MDNS_RECORDTYPE_SRV.
unfoldable pub take_srv : ℕ → Bytes → ℕ → Bytes → ℕ → Discovery → Discovery
unfolding empty_list node_of_instance forget_node learn_service
take_srv now owner ttl host port d =
    let instance_name = ensure_trailing_dot owner in
    let id = node_of_instance instance_name d in
    if empty_list host
    then d
    else if not (ends_with_case_insensitive instance_name d.service_type)
    then d
    else if empty_list id
    then d
    else if eqb ttl 0
    then forget_node id instance_name d
    else learn_service id instance_name host port (expire_at now ttl) d

-- The loop over the key-value pairs, for one of its two keys.
unfoldable pub last_value : Bytes → Bytes → List (Bytes × Bytes) → Bytes
unfolding empty_list same_bytes
last_value key value [] = value
last_value key value ((k, v) ∷ rest) =
    last_value key (if same_bytes k key && not (empty_list v) then v else value) rest

unfoldable pub learn_text : Bytes → Bytes → Bytes → ℕ → Discovery → Discovery
unfolding node_entry Table.set
learn_text id instance_name payload expire_ms d = record d {
  nodes =
      Table.set id
        (record (node_entry id d) {
          node_id = id;
          instance_name = instance_name;
          payload_json = payload;
        })
        d.nodes;
  expire_ms_by_node = Table.set id expire_ms d.expire_ms_by_node;
}

-- The node that a TXT record is about.
unfoldable pub node_of_text : Bytes → Bytes → Bytes → Bytes
unfolding empty_list to_lower
node_of_text service_type instance_name raw =
    if empty_list raw then node_id_from_instance service_type instance_name else to_lower raw

-- The branch MDNS_RECORDTYPE_TXT.
unfoldable pub take_txt : ℕ → Bytes → ℕ → List (Bytes × Bytes) → Discovery → Discovery
unfolding empty_list last_value node_of_text forget_node learn_text
take_txt now owner ttl pairs d =
    let instance_name = ensure_trailing_dot owner in
    let id = node_of_text d.service_type instance_name (last_value (codes "node_id") [] pairs) in
    if not (ends_with_case_insensitive instance_name d.service_type)
    then d
    else if empty_list id
    then d
    else if eqb ttl 0
    then forget_node id instance_name d
    else learn_text id instance_name (last_value (codes "payload") (codes "{}") pairs)
        (expire_at now ttl) d

unfoldable pub hold_address : Bytes → Bytes → Discovery → Discovery
unfolding Table.set Table.find push_new or_no_ips
hold_address host ip d = record d {
  pending_ips_by_host =
      Table.set host (push_new ip (or_no_ips (Table.find host d.pending_ips_by_host)))
        d.pending_ips_by_host;
}

unfoldable pub drop_address : Bytes → Bytes → NodeInfo → Discovery → Discovery
unfolding Table.set remove_text
drop_address id ip n d = record d {
  nodes = Table.set id (record n { ips = remove_text ip n.ips }) d.nodes;
}

unfoldable pub add_address : Bytes → Bytes → ℕ → NodeInfo → Discovery → Discovery
unfolding Table.set push_new
add_address id ip expire_ms n d = record d {
  nodes = Table.set id (record n { ips = push_new ip n.ips }) d.nodes;
  expire_ms_by_node = Table.set id expire_ms d.expire_ms_by_node;
}

unfoldable pub address_of_node : Bytes → ℕ → Bytes → ℕ → Option NodeInfo → Discovery → Discovery
unfolding drop_address add_address
address_of_node ip ttl id expire_ms none d = d
address_of_node ip ttl id expire_ms (some n) d =
    if eqb ttl 0 then drop_address id ip n d else add_address id ip expire_ms n d

unfoldable pub address_of_host : Bytes → Bytes → ℕ → ℕ → Option Bytes → Discovery → Discovery
unfolding hold_address address_of_node Table.find
address_of_host host ip ttl expire_ms none d = hold_address host ip d
address_of_host host ip ttl expire_ms (some id) d =
    address_of_node ip ttl id expire_ms (Table.find id d.nodes) d

-- The branches MDNS_RECORDTYPE_A and MDNS_RECORDTYPE_AAAA.
unfoldable pub take_address : ℕ → Bytes → ℕ → Bytes → Discovery → Discovery
unfolding empty_list address_of_host Table.find
take_address now owner ttl ip d =
    if empty_list ip
    then d
    else address_of_host (norm_host owner) ip ttl (expire_at now ttl)
        (Table.find (norm_host owner) d.host_to_node) d

unfoldable pub take_data : ℕ → Bytes → ℕ → RecordData → Discovery → Discovery
unfolding take_ptr take_srv take_txt take_address
take_data now owner ttl (ptr_data instance_name) d = take_ptr now owner ttl instance_name d
take_data now owner ttl (srv_data host port) d = take_srv now owner ttl host port d
take_data now owner ttl (txt_data pairs) d = take_txt now owner ttl pairs d
take_data now owner ttl (address_data ip) d = take_address now owner ttl ip d
take_data now owner ttl other_data d = d

-- handle_record, for an answer, authority or additional entry.
unfoldable pub handle_record : ℕ → ResourceRecord → Discovery → Discovery
unfolding empty_list take_data
handle_record now r d =
    if empty_list r.owner_name then d else take_data now r.owner_name r.ttl r.rdata d

-- mdns_callback over what a socket delivers, each record with the time at which it is handled.
unfoldable pub handle_records : List (ℕ × ResourceRecord) → Discovery → Discovery
unfolding handle_record
handle_records [] d = d
handle_records ((now, r) ∷ rest) d = handle_records rest (handle_record now r d)
