-- ===== src/Zconf/Resolved.antt =====
-- resolve_node of src/discovery/zconf_discovery.cpp: what it returns for a node that announced
-- itself, and what it can return at all.
use magpie_cpp.Prelude.{◌≡◌, ℕ, eqb, Bool, List, ◌∷◌, false, true, some, refl, All, []}
use magpie_cpp.Prelude.Bytes.{Bytes}
use magpie_cpp.Zconf.{
  Discovery, empty_list, is_resolved, new_discovery, resolve_node, resolved, NodeInfo, look_up,
  if_resolved, resolution_step,
}
use magpie_cpp.Zconf.Text.{ensure_trailing_dot, to_lower}
use magpie_cpp.Zconf.Records.{ResourceRecord, handle_records}
use magpie_cpp.Zconf.Advertise.{
  AddressCodec, Advertiser, Message, advertise, chosen_ips, payload_or_braces, send_announce,
}
use magpie_cpp.Zconf.Wire.{Delivers, FitsWire, stamp}
use magpie_cpp.Zconf.Entries.{announced_entry, received}
use magpie_cpp.Zconf.EndToEnd.{announce-found, find_node}
use magpie_cpp.Zconf.Known.{IsWellFormed, new_discovery-IsWellFormed}
use magpie_cpp.Zconf.Invariant.{handle_records-IsWellFormed}
use magpie_cpp.Zconf.Lookup.{IsResolution, resolve_node-IsResolution}

found-resolved :
    (id : Bytes) (n : NodeInfo) (d : Discovery) (past : Bool) (later : List (Discovery × Bool))
    → find_node id d ≡ some n
    → is_resolved n ≡ true
    → resolve_node id ((d, past) ∷ later) ≡ resolved n
unfolding resolve_node look_up if_resolved resolution_step
found-resolved id n d past later e r = rw e (rw r refl)

-- A node with an id that is not empty advertises, and a discovery of its service type, whatever it
-- knew before, takes the announcement in as mdns.h delivers it with a lifetime above zero; the
-- announcement fits, that is, its names have at most 64 labels of 1 to 63 bytes and less than 255,
-- its TXT strings at most 255, so that the id has at most 247 bytes and so has the payload, and
-- the whole, without compression, at most 2048: then resolve_node finds under the id in lower case
-- the entry with the host, the port, the payload and the addresses that were announced behind
-- those already known, if the port is not 0 and there is an address.
pub announce-resolved :
    (codec : AddressCodec) (deliver : ℕ → Message → List ResourceRecord)
    (wire : Delivers codec deliver) (ttl : ℕ) (times : ℕ → ℕ) (id : Bytes) (port : ℕ)
    (payload : Bytes) (ips enumerated : List Bytes) (a : Advertiser) (d : Discovery) (past : Bool)
    (later : List (Discovery × Bool))
    → eqb ttl 0 ≡ false
    → empty_list id ≡ false
    → a.service_type ≡ d.service_type
    → ensure_trailing_dot d.service_type ≡ d.service_type
    → empty_list d.service_type ≡ false
    → FitsWire (send_announce codec (advertise id port payload ips enumerated a))
    → let entry =
        announced_entry codec id port (payload_or_braces payload) (chosen_ips ips enumerated) d in
      is_resolved entry ≡ true
      → resolve_node (to_lower id) (
          (
            handle_records
                (stamp times (
                  received
                    (deliver ttl)
                    (send_announce codec (advertise id port payload ips enumerated a))))
                d,
            past,
          )
          ∷ later)
        ≡ resolved entry
announce-resolved codec deliver wire ttl times id port payload ips enumerated a d past later lives
      named same dotted typed fits whole =
    found-resolved (to_lower id) _ _ past later
      (announce-found codec deliver wire ttl lives times id port payload ips enumerated a d named
        same dotted typed fits)
      whole

-- The states of a discovery that has taken records in, with the tests of the deadline.
abbrev pub looks_after : Bytes → List (List (ℕ × ResourceRecord) × Bool) → List (Discovery × Bool)
looks_after service_type [] = []
looks_after service_type ((rs, past) ∷ rest) =
    (handle_records rs (new_discovery service_type), past) ∷ looks_after service_type rest

looks-IsWellFormed :
    (service_type : Bytes) (looks : List (List (ℕ × ResourceRecord) × Bool))
    → All (λ l. IsWellFormed l.0) (looks_after service_type looks)
looks-IsWellFormed service_type [] = tt
looks-IsWellFormed service_type ((rs, past) ∷ rest) = (
  handle_records-IsWellFormed rs (new_discovery service_type)
      (new_discovery-IsWellFormed service_type),
  looks-IsWellFormed service_type rest,
)

-- Whatever records, well-meant or not, a discovery has taken in each time that it looks:
-- resolve_node returns an entry only for an id that is not empty and has no upper-case letter, the
-- entry has that id, a port that is not 0, and at least one address, and no address stands twice.
pub resolve_node-valid :
    (service_type id : Bytes) (looks : List (List (ℕ × ResourceRecord) × Bool)) (n : NodeInfo)
    → resolve_node id (looks_after service_type looks) ≡ resolved n
    → IsResolution id n
resolve_node-valid service_type id looks n e =
    resolve_node-IsResolution id (looks_after service_type looks) n
      (looks-IsWellFormed service_type looks) e
