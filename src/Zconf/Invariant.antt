-- ===== src/Zconf/Invariant.antt =====
-- handle_record, src/discovery/zconf_discovery.cpp, keeps what Known states of the tables.
use magpie_cpp.Prelude.Table
use magpie_cpp.Prelude.{eqb, Bool-cases, inr, inl, ◌∷◌, List, Option, ◌≡◌, ℕ, some, refl, none, []}
use magpie_cpp.Zconf.Records.{
  or_no_ips, expire_at, last_value, ResourceRecord, RecordData, add_address, handle_record,
  take_address, hold_address, drop_address, node_of_instance, handle_records, take_data,
  address_of_host, address_of_node, take_txt, node_of_text, take_srv, known_or, take_ptr, txt_data,
  srv_data, ptr_data, other_data, address_data,
}
use magpie_cpp.Zconf.{empty_list, NodeInfo, Discovery}
use magpie_cpp.Prelude.Bytes.{codes, Bytes}
use magpie_cpp.Zconf.Known.{
  or_no_ips-NoDuplicate, learn_text-IsWellFormed, IsEntry, IsNodeOf, IsPending,
  learn_service-IsWellFormed, IsNodeOf-IsKey, learn_instance-IsWellFormed, forget_node-IsWellFormed,
  IsWellFormed,
}
use magpie_cpp.Zconf.Text.{
  ends_with_case_insensitive, to_lower_idem, norm_host, to_lower-node_id_from_instance,
  ensure_trailing_dot, node_id_from_instance, to_lower,
}
use magpie_cpp.Prelude.Table.{
  remove_text, push_new, NoDuplicate, Table, remove_text-NoDuplicate, push_new-NoDuplicate,
  find-AllEntries, set-AllEntries,
}

take_ptr-IsWellFormed :
    (now : ℕ) (owner : Bytes) (ttl : ℕ) (i : Bytes) (d : Discovery)
    → IsWellFormed d
    → IsWellFormed (take_ptr now owner ttl i d)
unfolding take_ptr
take_ptr-IsWellFormed now owner ttl i d w =
    let id = node_id_from_instance d.service_type i in
    elim (Bool-cases (empty_list i)) [
      | inl a ↦ rw a w
      | inr a ↦ rw a (elim (Bool-cases (ends_with_case_insensitive owner d.service_type)) [
        | inr b ↦ rw b w
        | inl b ↦ rw b (elim (Bool-cases (ends_with_case_insensitive i d.service_type)) [
          | inr c ↦ rw c w
          | inl c ↦ rw c (elim (Bool-cases (empty_list id)) [
            | inl e ↦ rw e w
            | inr e ↦ rw e (elim (Bool-cases (eqb ttl 0)) [
              | inl z ↦ rw z (forget_node-IsWellFormed id i d w)
              | inr z ↦ rw z (learn_instance-IsWellFormed id i (expire_at now ttl) d (e, refl) w)
            ])
          ])
        ])
      ])
    ]

known_or-lower :
    (i : Bytes) (o : Option Bytes) (d : Discovery)
    → IsWellFormed d
    → Table.find i d.instance_to_node ≡ o
    → to_lower (known_or (node_id_from_instance d.service_type i) o)
      ≡ known_or (node_id_from_instance d.service_type i) o
unfolding known_or
known_or-lower i none d w e = to_lower-node_id_from_instance d.service_type i
known_or-lower i (some id) d w e =
    (IsNodeOf-IsKey d.service_type i id
      (find-AllEntries (IsNodeOf d.service_type) i id d.instance_to_node w.instances e)).1

node_of_instance-lower :
    (i : Bytes) (d : Discovery)
    → IsWellFormed d
    → to_lower (node_of_instance i d) ≡ node_of_instance i d
unfolding node_of_instance
node_of_instance-lower i d w = known_or-lower i (Table.find i d.instance_to_node) d w refl

take_srv-IsWellFormed :
    (now : ℕ) (owner : Bytes) (ttl : ℕ) (host : Bytes) (port : ℕ) (d : Discovery)
    → IsWellFormed d
    → IsWellFormed (take_srv now owner ttl host port d)
unfolding take_srv
take_srv-IsWellFormed now owner ttl host port d w =
    let i = ensure_trailing_dot owner in
    let id = node_of_instance i d in
    elim (Bool-cases (empty_list host)) [
      | inl a ↦ rw a w
      | inr a ↦ rw a (elim (Bool-cases (ends_with_case_insensitive i d.service_type)) [
        | inr b ↦ rw b w
        | inl b ↦ rw b (elim (Bool-cases (empty_list id)) [
          | inl e ↦ rw e w
          | inr e ↦ rw e (elim (Bool-cases (eqb ttl 0)) [
            | inl z ↦ rw z (forget_node-IsWellFormed id i d w)
            | inr z ↦ rw z (
                learn_service-IsWellFormed id i host port (expire_at now ttl) d
                  (e, node_of_instance-lower i d w) w)
          ])
        ])
      ])
    ]

to_lower-node_of_text :
    (service_type i raw : Bytes)
    → to_lower (node_of_text service_type i raw) ≡ node_of_text service_type i raw
unfolding node_of_text
to_lower-node_of_text service_type i [] = to_lower-node_id_from_instance service_type i
to_lower-node_of_text service_type i (c ∷ raw) = to_lower_idem (c ∷ raw)

take_txt-IsWellFormed :
    (now : ℕ) (owner : Bytes) (ttl : ℕ) (pairs : List (Bytes × Bytes)) (d : Discovery)
    → IsWellFormed d
    → IsWellFormed (take_txt now owner ttl pairs d)
unfolding take_txt
take_txt-IsWellFormed now owner ttl pairs d w =
    let i = ensure_trailing_dot owner in
    let raw = last_value (codes "node_id") [] pairs in
    let id = node_of_text d.service_type i raw in
    elim (Bool-cases (ends_with_case_insensitive i d.service_type)) [
      | inr b ↦ rw b w
      | inl b ↦ rw b (elim (Bool-cases (empty_list id)) [
        | inl e ↦ rw e w
        | inr e ↦ rw e (elim (Bool-cases (eqb ttl 0)) [
          | inl z ↦ rw z (forget_node-IsWellFormed id i d w)
          | inr z ↦ rw z (
              learn_text-IsWellFormed id i (last_value (codes "payload") (codes "{}") pairs)
                (expire_at now ttl) d (e, to_lower-node_of_text d.service_type i raw) w)
        ])
      ])
    ]

set_ips-IsWellFormed :
    (id : Bytes) (n : NodeInfo) (d : Discovery) (ips : List Bytes) (expire_ms : Table ℕ)
    → IsWellFormed d
    → Table.find id d.nodes ≡ some n
    → NoDuplicate ips
    → IsWellFormed (record d {
      nodes = Table.set id (record n { ips = ips }) d.nodes;
      expire_ms_by_node = expire_ms;
    })
set_ips-IsWellFormed id n d ips expire_ms w e distinct =
    let known = find-AllEntries IsEntry id n d.nodes w.keyed_nodes e in
    record {
      keyed_nodes = set-AllEntries IsEntry id _ d.nodes (known.0, known.1, distinct) w.keyed_nodes;
      instances = w.instances;
      hosts = w.hosts;
      pending = w.pending;
    }

address_of_node-IsWellFormed :
    (ip : Bytes) (ttl : ℕ) (id : Bytes) (expire_ms : ℕ) (o : Option NodeInfo) (d : Discovery)
    → IsWellFormed d
    → Table.find id d.nodes ≡ o
    → IsWellFormed (address_of_node ip ttl id expire_ms o d)
unfolding address_of_node drop_address add_address
address_of_node-IsWellFormed ip ttl id expire_ms none d w e = w
address_of_node-IsWellFormed ip ttl id expire_ms (some n) d w e =
    let known = find-AllEntries IsEntry id n d.nodes w.keyed_nodes e in
    elim (Bool-cases (eqb ttl 0)) [
      | inl z ↦ rw z (
          set_ips-IsWellFormed id n d (remove_text ip n.ips) d.expire_ms_by_node w e
            (remove_text-NoDuplicate ip n.ips known.2))
      | inr z ↦ rw z (
          set_ips-IsWellFormed id n d (push_new ip n.ips)
            (Table.set id expire_ms d.expire_ms_by_node) w e
            (push_new-NoDuplicate ip n.ips known.2))
    ]

address_of_host-IsWellFormed :
    (host ip : Bytes) (ttl expire_ms : ℕ) (o : Option Bytes) (d : Discovery)
    → IsWellFormed d
    → IsWellFormed (address_of_host host ip ttl expire_ms o d)
unfolding address_of_host hold_address
address_of_host-IsWellFormed host ip ttl expire_ms none d w =
    let waiting = Table.find host d.pending_ips_by_host in
    record {
      keyed_nodes = w.keyed_nodes;
      instances = w.instances;
      hosts = w.hosts;
      pending =
          set-AllEntries IsPending host _ d.pending_ips_by_host
            (push_new-NoDuplicate ip (or_no_ips waiting)
              (or_no_ips-NoDuplicate host waiting d.pending_ips_by_host w.pending refl))
            w.pending;
    }
address_of_host-IsWellFormed host ip ttl expire_ms (some id) d w =
    address_of_node-IsWellFormed ip ttl id expire_ms (Table.find id d.nodes) d w refl

take_data-IsWellFormed :
    (now : ℕ) (owner : Bytes) (ttl : ℕ) (body : RecordData) (d : Discovery)
    → IsWellFormed d
    → IsWellFormed (take_data now owner ttl body d)
unfolding take_data take_address
take_data-IsWellFormed now owner ttl (ptr_data i) d w = take_ptr-IsWellFormed now owner ttl i d w
take_data-IsWellFormed now owner ttl (srv_data host port) d w =
    take_srv-IsWellFormed now owner ttl host port d w
take_data-IsWellFormed now owner ttl (txt_data pairs) d w =
    take_txt-IsWellFormed now owner ttl pairs d w
take_data-IsWellFormed now owner ttl (address_data ip) d w = elim (Bool-cases (empty_list ip)) [
  | inl e ↦ rw e w
  | inr e ↦ rw e (
      address_of_host-IsWellFormed (norm_host owner) ip ttl (expire_at now ttl)
        (Table.find (norm_host owner) d.host_to_node) d w)
]
take_data-IsWellFormed now owner ttl other_data d w = w

handle_record-IsWellFormed :
    (now : ℕ) (r : ResourceRecord) (d : Discovery)
    → IsWellFormed d
    → IsWellFormed (handle_record now r d)
unfolding handle_record
handle_record-IsWellFormed now r d w = elim (Bool-cases (empty_list r.owner_name)) [
  | inl e ↦ rw e w
  | inr e ↦ rw e (take_data-IsWellFormed now r.owner_name r.ttl r.rdata d w)
]

-- Whatever records arrive, at whatever times, a discovery whose tables are well-formed keeps them
-- so: every node stands under its own id, which is not empty and has no upper-case letter, with no
-- address twice; an instance belongs to the node that its name gives; hosts belong to such ids too;
-- and no address waits twice for its host.
pub handle_records-IsWellFormed :
    (rs : List (ℕ × ResourceRecord)) (d : Discovery)
    → IsWellFormed d
    → IsWellFormed (handle_records rs d)
unfolding handle_records
handle_records-IsWellFormed [] d w = w
handle_records-IsWellFormed ((now, r) ∷ rest) d w =
    handle_records-IsWellFormed rest (handle_record now r d) (handle_record-IsWellFormed now r d w)
