-- ===== src/Zconf/Known.antt =====
-- What holds of the tables of ZconfDiscovery, src/discovery/zconf_discovery.cpp, between records:
-- the keys are lower-case node ids, and no address stands twice.
use magpie_cpp.Prelude.Table
use magpie_cpp.Prelude.Bytes.{Bytes}
use magpie_cpp.Zconf.Text.{
  norm_host, to_lower, node_id_from_instance, to_lower-node_id_from_instance,
}
use magpie_cpp.Prelude.{ℕ, Option, ◌≡◌, List, some, refl, none, false}
use magpie_cpp.Zconf.{empty_list, new_discovery, Discovery, NodeInfo}
use magpie_cpp.Zconf.Records.{
  learn_text, learn_service, learn_instance, forget_node, or_no_ips, node_entry, or_new,
}
use magpie_cpp.Prelude.Table.{
  push_each_new-NoDuplicate, find-AllEntries, set-AllEntries, Table, erase-AllEntries, AllEntries,
  NoDuplicate,
}

-- A node id in the form in which the tables keep it.
abbrev pub IsKey : Bytes → Type 0
IsKey id = (empty_list id ≡ false) × (to_lower id ≡ id)

abbrev pub IsEntry : Bytes → NodeInfo → Type 0
IsEntry id n = IsKey id × (n.node_id ≡ id) × NoDuplicate n.ips

abbrev pub IsNodeOf : Bytes → Bytes → Bytes → Type 0
IsNodeOf service_type instance_name id =
    (empty_list id ≡ false) × (id ≡ node_id_from_instance service_type instance_name)

abbrev pub IsHostNode : Bytes → Bytes → Type 0
IsHostNode host id = IsKey id

abbrev pub IsPending : Bytes → List Bytes → Type 0
IsPending host waiting = NoDuplicate waiting

pub record IsWellFormed (d : Discovery) : Type 0 where
  pub keyed_nodes : AllEntries IsEntry d.nodes
  pub instances : AllEntries (IsNodeOf d.service_type) d.instance_to_node
  pub hosts : AllEntries IsHostNode d.host_to_node
  pub pending : AllEntries IsPending d.pending_ips_by_host

pub new_discovery-IsWellFormed : (service_type : Bytes) → IsWellFormed (new_discovery service_type)
unfolding new_discovery
new_discovery-IsWellFormed service_type = record {
  keyed_nodes = tt;
  instances = tt;
  hosts = tt;
  pending = tt;
}

or_new-NoDuplicate :
    (id : Bytes) (o : Option NodeInfo) (m : Table NodeInfo)
    → AllEntries IsEntry m
    → Table.find id m ≡ o
    → NoDuplicate (or_new o).ips
unfolding or_new
or_new-NoDuplicate id none m a e = tt
or_new-NoDuplicate id (some n) m a e = (find-AllEntries IsEntry id n m a e).2

node_entry-NoDuplicate :
    (id : Bytes) (d : Discovery) → IsWellFormed d → NoDuplicate (node_entry id d).ips
unfolding node_entry
node_entry-NoDuplicate id d w =
    or_new-NoDuplicate id (Table.find id d.nodes) d.nodes w.keyed_nodes refl

pub or_no_ips-NoDuplicate :
    (host : Bytes) (o : Option (List Bytes)) (m : Table (List Bytes))
    → AllEntries IsPending m
    → Table.find host m ≡ o
    → NoDuplicate (or_no_ips o)
unfolding or_no_ips
or_no_ips-NoDuplicate host none m a e = tt
or_no_ips-NoDuplicate host (some l) m a e = find-AllEntries IsPending host l m a e

pub forget_node-IsWellFormed :
    (id instance_name : Bytes) (d : Discovery)
    → IsWellFormed d
    → IsWellFormed (forget_node id instance_name d)
unfolding forget_node
forget_node-IsWellFormed id i d w = record {
  keyed_nodes = erase-AllEntries IsEntry id d.nodes w.keyed_nodes;
  instances = erase-AllEntries (IsNodeOf d.service_type) i d.instance_to_node w.instances;
  hosts = w.hosts;
  pending = w.pending;
}

-- The id that the instance's own name gives is a key.
pub IsNodeOf-IsKey : (service_type i id : Bytes) → IsNodeOf service_type i id → IsKey id
IsNodeOf-IsKey service_type i id k = (k.0, rw k.1 (to_lower-node_id_from_instance service_type i))

pub learn_instance-IsWellFormed :
    (id i : Bytes) (expire_ms : ℕ) (d : Discovery)
    → IsNodeOf d.service_type i id
    → IsWellFormed d
    → IsWellFormed (learn_instance id i expire_ms d)
unfolding learn_instance
learn_instance-IsWellFormed id i expire_ms d k w = record {
  keyed_nodes =
      set-AllEntries IsEntry id _ d.nodes
        (IsNodeOf-IsKey d.service_type i id k, refl, node_entry-NoDuplicate id d w) w.keyed_nodes;
  instances = set-AllEntries (IsNodeOf d.service_type) i id d.instance_to_node k w.instances;
  hosts = w.hosts;
  pending = w.pending;
}

pub learn_service-IsWellFormed :
    (id i host : Bytes) (port expire_ms : ℕ) (d : Discovery)
    → IsKey id
    → IsWellFormed d
    → IsWellFormed (learn_service id i host port expire_ms d)
unfolding learn_service
learn_service-IsWellFormed id i host port expire_ms d k w = record {
  keyed_nodes =
      set-AllEntries IsEntry id _ d.nodes
        (
          k,
          refl,
          push_each_new-NoDuplicate (or_no_ips (Table.find (norm_host host) d.pending_ips_by_host))
              (node_entry id d).ips (node_entry-NoDuplicate id d w),
        )
        w.keyed_nodes;
  instances = w.instances;
  hosts = set-AllEntries IsHostNode (norm_host host) id d.host_to_node k w.hosts;
  pending = erase-AllEntries IsPending (norm_host host) d.pending_ips_by_host w.pending;
}

pub learn_text-IsWellFormed :
    (id i payload : Bytes) (expire_ms : ℕ) (d : Discovery)
    → IsKey id
    → IsWellFormed d
    → IsWellFormed (learn_text id i payload expire_ms d)
unfolding learn_text
learn_text-IsWellFormed id i payload expire_ms d k w = record {
  keyed_nodes =
      set-AllEntries IsEntry id _ d.nodes (k, refl, node_entry-NoDuplicate id d w) w.keyed_nodes;
  instances = w.instances;
  hosts = w.hosts;
  pending = w.pending;
}
