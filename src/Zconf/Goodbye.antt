-- ===== src/Zconf/Goodbye.antt =====
-- stop_advertising against handle_record and list_nodes, src/discovery/zconf_discovery.cpp.
use magpie_cpp.Prelude.{◌≡◌, List, ℕ, some, refl, none, inl, false, []}
use magpie_cpp.Zconf.Advertise.{
  Message, AddressCodec, Advertiser, advertise, stop_advertising, sent_ptr,
}
use magpie_cpp.Zconf.Records.{
  ResourceRecord, take_ptr, forget_node, take_data, handle_records, handle_record,
}
use magpie_cpp.Zconf.Entries.{received}
use magpie_cpp.Prelude.Bytes.{same_bytes_refl, Bytes}
use magpie_cpp.Zconf.Wire.{FitsWire, Delivers, stamp, heard_data, heard}
use magpie_cpp.Zconf.{list_nodes, empty_list, Discovery}
use magpie_cpp.Zconf.EndToEnd.{find_node}
use magpie_cpp.Zconf.Known.{forget_node-IsWellFormed, IsWellFormed}
use magpie_cpp.Zconf.Lookup.{list_nodes-unexpired, Unlisted}
use magpie_cpp.Prelude.Table.{find-erase}
use magpie_cpp.Zconf.Text.{
  node_id_from_instance-append, ends_with-append, to_lower, ensure_trailing_dot-append,
  ensure_trailing_dot,
}
use magpie_cpp.Zconf.Handled.{
  empty_list-to_lower, ends_with-instance_of, not_empty-append, instance_of,
}

-- A node is out of the table, and not listed.
abbrev pub IsForgotten : ℕ → Bytes → Discovery → Type 0
IsForgotten now id d = (find_node id d ≡ none) × Unlisted id (list_nodes now d)

forget_node-IsForgotten :
    (now : ℕ) (id i : Bytes) (d : Discovery)
    → IsWellFormed d
    → IsForgotten now id (forget_node id i d)
forget_node-IsForgotten now id i d w =
    let gone : find_node id (forget_node id i d) ≡ none =
      unfold forget_node in rw (find-erase id id d.nodes, same_bytes_refl id) refl in
    (
      gone,
      (list_nodes-unexpired now id (forget_node id i d) (forget_node-IsWellFormed id i d w)).1
          (inl gone),
    )

goodbye_sent :
    (id : Bytes) (port : ℕ) (payload : Bytes) (ips enumerated : List Bytes) (st : Bytes)
    (a : Advertiser)
    → a.service_type ≡ st
    → ensure_trailing_dot st ≡ st
    → (stop_advertising (advertise id port payload ips enumerated a)).0
      ≡ some (record { name = st; sent = sent_ptr (instance_of st id) }, [])
unfolding stop_advertising advertise
goodbye_sent id port payload ips enumerated st a same dotted =
    simp (same, ensure_trailing_dot-append id st dotted) refl

handle_record-goodbye :
    (codec : AddressCodec) (now : ℕ) (id : Bytes) (d : Discovery)
    → empty_list id ≡ false
    → ensure_trailing_dot d.service_type ≡ d.service_type
    → empty_list d.service_type ≡ false
    → handle_record now
        (heard codec 0
          (record { name = d.service_type; sent = sent_ptr (instance_of d.service_type id) }))
        d
      ≡ forget_node (to_lower id) (instance_of d.service_type id) d
unfolding handle_record heard heard_data take_data take_ptr
handle_record-goodbye codec now id d named dotted typed =
    let st = d.service_type in
    simp
      (
        typed,
        not_empty-append id b'.' st,
        ends_with-append [] st st refl,
        ends_with-instance_of st id,
        node_id_from_instance-append st id dotted,
        empty_list-to_lower id,
        named,
      )
      refl

-- A node that advertised and stops is forgotten by every discovery of its service type that takes
-- its goodbye in, whatever well-formed tables it had, if its service type and its instance name
-- have at most 64 labels of 1 to 63 bytes and fit the buffers for names: the id is no longer
-- found, and no entry with it is listed at any time.
pub goodbye-IsForgotten :
    (codec : AddressCodec) (deliver : ℕ → Message → List ResourceRecord)
    (wire : Delivers codec deliver) (times : ℕ → ℕ) (id : Bytes) (port : ℕ) (payload : Bytes)
    (ips enumerated : List Bytes) (a : Advertiser) (d : Discovery) (now : ℕ)
    → empty_list id ≡ false
    → a.service_type ≡ d.service_type
    → ensure_trailing_dot d.service_type ≡ d.service_type
    → empty_list d.service_type ≡ false
    → IsWellFormed d
    → FitsWire (stop_advertising (advertise id port payload ips enumerated a)).0
    → IsForgotten now (to_lower id) (
        handle_records
          (stamp times (
            received (deliver 0) (stop_advertising (advertise id port payload ips enumerated a)).0))
          d)
unfolding received handle_records stamp
goodbye-IsForgotten codec deliver wire times id port payload ips enumerated a d now named same
      dotted typed w fits =
    let st = d.service_type in
    let sent = goodbye_sent id port payload ips enumerated st a same dotted in
    rw (sent, wire.answer_first 0 st (instance_of st id) (rw sent at fits))
      (rw (handle_record-goodbye codec (times 0) id d named dotted typed)
        (forget_node-IsForgotten now (to_lower id) (instance_of st id) d w))
