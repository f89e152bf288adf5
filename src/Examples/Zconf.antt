-- ===== src/Examples/Zconf.antt =====
-- Discovery at concrete inputs. The addresses of these examples print with their family in front.
use magpie_cpp.Prelude.{ℕ, List, ◌∷◌, ◌++◌, map, ◌≡◌, refl, some, none, false, true, []}
use magpie_cpp.Prelude.Table
use magpie_cpp.Prelude.Bytes.{Bytes, codes, same_bytes}
use magpie_cpp.Zconf.{
  Discovery, NodeInfo, empty_list, is_local_ip, is_resolved, new_discovery, new_node_info,
  pick_best_ip, resolve_node, resolved,
}
use magpie_cpp.Zconf.Text.{
  ends_with_case_insensitive, ensure_trailing_dot, lower_byte, node_id_from_instance, pop_dot,
  to_lower,
}
use magpie_cpp.Zconf.Advertise.{
  AddressCodec, Advertiser, Message, SentData, SentRecord, address_records, advertise, ask_ptr,
  asks_ptr, chosen_ips, handle_question, payload_or_braces, send_announce, send_goodbye, sent_txt,
  stop_advertising,
}
use magpie_cpp.Zconf.Records.{
  ResourceRecord, handle_records, node_entry, learn_instance, txt_data, or_no_ips,
}
use magpie_cpp.Zconf.Wire.{message_fits, Delivers, heard, stamp}
use magpie_cpp.Zconf.Entries.{announced_entry, held_ips, received}
use magpie_cpp.Zconf.Announced.{add_printed}
use magpie_cpp.Zconf.Resolved.{announce-resolved, resolve_node-valid}
use magpie_cpp.Zconf.Goodbye.{IsForgotten, goodbye-IsForgotten}
use magpie_cpp.Zconf.Known.{IsWellFormed, learn_instance-IsWellFormed, new_discovery-IsWellFormed}
use magpie_cpp.Zconf.Invariant.{handle_records-IsWellFormed}
use magpie_cpp.Zconf.Lookup.{IsResolution, pick_best_ip_lem, all_local}
use magpie_cpp.Zconf.Queries.{refresh, refresh-again, instance_queries}
use magpie_cpp.Zconf.Questions.{handle_question-announces}
use magpie_cpp.Zconf.Interfaces.{
  Ascending, Interface, enumerated_ips, enumerated_ips_lem, host_ips, ipv4_address,
}
use magpie_cpp.Zconf.Worker.{ZconfImpl, closes, looping, stops, zconf_run, to_sockets}
use magpie_cpp.Zconf.Worker.Close.{close-last_goodbye, closing_steps}

abbrev codec : AddressCodec
codec = record {
  pton4 = λ ip. some ip;
  pton6 = λ ip. none;
  ntop4 = λ addr. b'4' ∷ addr;
  ntop6 = λ addr. b'6' ∷ addr;
}

-- An answer, and the additional records with two TXT records behind the first as one record.
abbrev join_texts :
    ℕ
    → SentRecord
    → SentRecord
    → Bytes
    → SentData
    → SentData
    → List SentRecord
    → List ResourceRecord
join_texts ttl answer service name (sent_txt k v) (sent_txt l w) others =
    heard codec ttl answer
    ∷ heard codec ttl service
    ∷ (map (heard codec ttl) others
        ++ (record { owner_name = name; ttl = ttl; rdata = txt_data ((k, v) ∷ (l, w) ∷ []) } ∷ []))
join_texts ttl answer service name t u others = heard codec ttl answer ∷ []

abbrev deliver_all : ℕ → Message → List ResourceRecord
deliver_all ttl (answer, service ∷ t ∷ u ∷ others) =
    join_texts ttl answer service t.name t.sent u.sent others
deliver_all ttl (answer, _) = heard codec ttl answer ∷ []

deliver_all-Delivers : Delivers codec deliver_all
deliver_all-Delivers = record {
  answer_first = λ ttl name i fits. refl;
  texts_last = λ ttl name i host n k v l w port others plain fits. refl;
  ntop4_prints = λ addr. unfold empty_list in refl;
  ntop6_prints = λ addr. unfold empty_list in refl;
}

abbrev service_type : Bytes
service_type = codes "_m._tcp.local."

abbrev advertiser : Advertiser
advertiser = record {
  service_type = service_type;
  advertising = false;
  adv_node_id = [];
  adv_port = 0;
  adv_payload_json = [];
  adv_ips = [];
  adv_instance = [];
  adv_host_qualified = [];
}

-- The announcement of a node, as a listener takes it in.
abbrev bot_heard : List (ℕ × ResourceRecord)
bot_heard =
    stamp (λ n. n)
      (received (deliver_all 60) (
        send_announce codec
          (advertise (codes "Bot") 5555 [] (codes "10.0.0.7" ∷ []) [] advertiser)))

abbrev bot : NodeInfo
bot =
    announced_entry codec (codes "Bot") 5555 (payload_or_braces [])
      (chosen_ips (codes "10.0.0.7" ∷ []) []) (new_discovery service_type)

announce-resolved_example :
    resolve_node
      (to_lower (codes "Bot"))
      ((handle_records bot_heard (new_discovery service_type), false) ∷ [])
    ≡ resolved bot
unfolding new_discovery empty_list ensure_trailing_dot is_resolved announced_entry chosen_ips
    held_ips to_lower add_printed address_records node_entry Table.find or_no_ips
    Table.push_each_new Table.has lower_byte send_announce advertise message_fits
announce-resolved_example =
    announce-resolved codec deliver_all deliver_all-Delivers 60 (λ n. n) (codes "Bot") 5555 []
      (codes "10.0.0.7" ∷ []) [] advertiser (new_discovery service_type) false [] refl refl refl
      refl refl refl refl

resolve_node-valid_example : IsResolution (to_lower (codes "Bot")) bot
unfolding new_discovery empty_list ensure_trailing_dot is_resolved announced_entry chosen_ips
    held_ips to_lower add_printed address_records node_entry Table.find or_no_ips
    Table.push_each_new Table.has lower_byte send_announce advertise message_fits
resolve_node-valid_example =
    resolve_node-valid service_type (to_lower (codes "Bot")) ((bot_heard, false) ∷ []) bot (
      announce-resolved codec deliver_all deliver_all-Delivers 60 (λ n. n) (codes "Bot") 5555 []
        (codes "10.0.0.7" ∷ []) [] advertiser (new_discovery service_type) false [] refl refl refl
        refl refl refl refl)

-- A listener that has heard of the instance of a node.
abbrev knows_bot : Discovery
knows_bot =
    learn_instance (codes "bot") (codes "bot._m._tcp.local.") 60000 (new_discovery service_type)

knows_bot-IsWellFormed : IsWellFormed knows_bot
unfolding new_discovery ensure_trailing_dot node_id_from_instance ends_with_case_insensitive
    to_lower lower_byte same_bytes pop_dot empty_list
knows_bot-IsWellFormed =
    learn_instance-IsWellFormed (codes "bot") (codes "bot._m._tcp.local.") 60000
      (new_discovery service_type) (refl, refl) (new_discovery-IsWellFormed service_type)

goodbye-IsForgotten_example : IsForgotten 7 (to_lower (codes "Bot")) (
    handle_records
      (stamp
        (λ n. n)
        (received
          (deliver_all 0)
          (stop_advertising
            (advertise (codes "Bot") 5555 [] (codes "10.0.0.7" ∷ []) [] advertiser)).0))
      knows_bot)
unfolding learn_instance new_discovery ensure_trailing_dot empty_list stop_advertising advertise
    message_fits
goodbye-IsForgotten_example =
    goodbye-IsForgotten codec deliver_all deliver_all-Delivers (λ n. n) (codes "Bot") 5555 []
      (codes "10.0.0.7" ∷ []) [] advertiser knows_bot 7 refl refl refl refl knows_bot-IsWellFormed
      refl

handle_records-IsWellFormed_example : IsWellFormed (handle_records bot_heard knows_bot)
handle_records-IsWellFormed_example =
    handle_records-IsWellFormed bot_heard knows_bot knows_bot-IsWellFormed

refresh-again_example : (refresh (refresh knows_bot).1).0 ≡ []
refresh-again_example = refresh-again knows_bot

-- The listener asks once, about the instance.
bot_asked : (refresh knows_bot).0 ≡ instance_queries (codes "bot._m._tcp.local.") ∷ []
unfolding refresh learn_instance new_discovery node_entry Table.find Table.set Table.has
    Table.remove_text ensure_trailing_dot empty_list
bot_asked = refl

abbrev announced : Advertiser
announced = advertise (codes "bot") 80 (codes "{}") (codes "a" ∷ codes "b" ∷ []) [] advertiser

handle_question-announces_example :
    handle_question codec (codes "_M._tcp.LOCAL.") ask_ptr announced ≡ send_announce codec announced
unfolding asks_ptr empty_list ends_with_case_insensitive to_lower lower_byte same_bytes advertise
handle_question-announces_example =
    handle_question-announces codec (codes "_M._tcp.LOCAL.") ask_ptr announced refl refl refl

abbrev two_interfaces : List Interface
two_interfaces =
    record {
      ifa_name = codes "eth0";
      up = true;
      multicast = true;
      point_to_point = false;
      loopback = false;
      ifa_addr = ipv4_address (codes "b");
    }
    ∷ record {
      ifa_name = codes "veth1";
      up = true;
      multicast = true;
      point_to_point = false;
      loopback = false;
      ifa_addr = ipv4_address (codes "a");
    }
    ∷ []

enumerated_ips_lem_example :
    Ascending (enumerated_ips codec two_interfaces)
    × ((ip : Bytes)
        → Table.has ip (enumerated_ips codec two_interfaces)
          ≡ Table.has ip (host_ips codec two_interfaces))
enumerated_ips_lem_example = enumerated_ips_lem codec two_interfaces

pick_best_ip_lem_example :
    let n = record new_node_info { ips = codes "127.0.0.1" ∷ codes "10.0.0.7" ∷ [] } in
    (empty_list n.ips ≡ false → Table.has (pick_best_ip n) n.ips ≡ true)
    × (all_local n.ips ≡ false → is_local_ip (pick_best_ip n) ≡ false)
    × (n.ips ≡ [] → pick_best_ip n ≡ [])
pick_best_ip_lem_example =
    pick_best_ip_lem (record new_node_info { ips = codes "127.0.0.1" ∷ codes "10.0.0.7" ∷ [] })

-- A discovery whose thread runs, with two sockets of each kind.
abbrev running_zconf : ZconfImpl
running_zconf = record {
  discovery = new_discovery service_type;
  advertiser = record advertiser { advertising = true };
  pacing = record { last_ptr_query_ms = 0; last_refresh_ms = 0; last_announce = 0 };
  running = true;
  closing = false;
  worker = looping;
  n_service = 2;
  n_client = 2;
  sent = [];
  asked = [];
}

close-last_goodbye_example :
    let closed = zconf_run codec (closing_steps 100 []) running_zconf in
    let afterwards = zconf_run codec (stops ∷ closes ∷ []) closed in
    (closed.running ≡ false)
    × (closed.sent ≡ [] ++ to_sockets 2 (send_goodbye (record advertiser { advertising = true })))
    × (afterwards.sent ≡ closed.sent)
    × (afterwards.asked ≡ [])
close-last_goodbye_example =
    close-last_goodbye codec 100 [] (stops ∷ closes ∷ []) running_zconf refl refl (tt, (tt, tt))
