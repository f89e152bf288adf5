-- ===== src/Zconf/Entries.antt =====
-- The entry that the updates of src/discovery/zconf_discovery.cpp leave for a node.
use magpie_cpp.Prelude.Table
use magpie_cpp.Prelude.{ap, ◌∙◌, ◌^◌, Option, ◌%◌, List, none, ◌≡◌, ◌++◌, ℕ, some, refl, []}
use magpie_cpp.Zconf.Advertise.{address_records, Message, AddressCodec}
use magpie_cpp.Zconf.Records.{
  or_no_ips, or_new, ResourceRecord, node_entry, learn_text, learn_service, learn_instance,
}
use magpie_cpp.Zconf.{NodeInfo, Discovery}
use magpie_cpp.Prelude.Bytes.{codes, Bytes}
use magpie_cpp.Zconf.Text.{norm_host, to_lower}
use magpie_cpp.Zconf.Announced.{add_printed, Knows}
use magpie_cpp.Prelude.Table.{find-set_self, push_each_new}
use magpie_cpp.Zconf.Handled.{instance_of}

-- What a transport hands to a listener of a message, if one was sent.
unfoldable pub received : (Message → List ResourceRecord) → Option Message → List ResourceRecord
received hear none = []
received hear (some m) = hear m

-- The addresses that a discovery holds for a host before it hears from the node.
unfoldable pub held_ips : Bytes → Bytes → Discovery → List Bytes
held_ips id host d =
    push_each_new (or_no_ips (Table.find (norm_host host) d.pending_ips_by_host))
      (node_entry id d).ips

-- The entry of a node that has announced itself.
unfoldable pub announced_entry :
    AddressCodec → Bytes → ℕ → Bytes → List Bytes → Discovery → NodeInfo
announced_entry codec id port payload ips d =
    let host = id ++ codes ".local." in
    record {
      node_id = to_lower id;
      instance_name = instance_of d.service_type id;
      host_qualified = host;
      port = port % 2 ^ 16;
      payload_json = payload;
      ips = add_printed codec (address_records codec host 3 ips) (held_ips (to_lower id) host d);
    }

pub node_entry-known :
    (id : Bytes) (n : NodeInfo) (d : Discovery)
    → Table.find id d.nodes ≡ some n
    → node_entry id d ≡ n
unfolding node_entry or_new
node_entry-known id n d e = rw e refl

pub node_entry-learn_instance :
    (id i : Bytes) (expire_ms : ℕ) (d : Discovery)
    → node_entry id (learn_instance id i expire_ms d)
      ≡ record (node_entry id d) { node_id = id; instance_name = i }
node_entry-learn_instance id i expire_ms d =
    node_entry-known id (record (node_entry id d) { node_id = id; instance_name = i })
      (learn_instance id i expire_ms d)
      (unfold learn_instance in
        find-set_self id (record (node_entry id d) { node_id = id; instance_name = i }) d.nodes)

pub learn_service-Knows :
    (id i host : Bytes) (port expire_ms : ℕ) (d : Discovery)
    → Knows host id
        (record (node_entry id d) {
          node_id = id;
          instance_name = i;
          host_qualified = host;
          port = port % 2 ^ 16;
          ips = held_ips id host d;
        })
        (learn_service id i host port expire_ms d)
unfolding learn_service held_ips
learn_service-Knows id i host port expire_ms d = record {
  host_known = find-set_self (norm_host host) id d.host_to_node;
  node_known = find-set_self id _ d.nodes;
}

pub learn_text-entry :
    (id i payload : Bytes) (expire_ms : ℕ) (n : NodeInfo) (d : Discovery)
    → Table.find id d.nodes ≡ some n
    → Table.find id (learn_text id i payload expire_ms d).nodes
      ≡ some (record n { node_id = id; instance_name = i; payload_json = payload })
unfolding learn_text
learn_text-entry id i payload expire_ms n d e =
    find-set_self id _ d.nodes
    ∙ ap
        (λ (m : NodeInfo).
          some (record m { node_id = id; instance_name = i; payload_json = payload }))
        (node_entry-known id n d e)

pub held_ips-learn_instance :
    (id i host : Bytes) (expire_ms : ℕ) (d : Discovery)
    → held_ips id host (learn_instance id i expire_ms d) ≡ held_ips id host d
unfolding held_ips
held_ips-learn_instance id i host expire_ms d =
    rw (node_entry-learn_instance id i expire_ms d) (unfold learn_instance in refl)
