-- ===== src/Zconf/Handled.antt =====
-- handle_record, src/discovery/zconf_discovery.cpp, on the records of an announcement: which update
-- of the tables each is.
use mathlib.Core.List.{append_assoc}
use magpie_cpp.Prelude.Table
use magpie_cpp.Prelude.{eqb, ◌≡◌, ◌∷◌, ◌++◌, ℕ, true, some, refl, false, []}
use magpie_cpp.Zconf.Advertise.{AddressCodec, sent_srv, sent_ptr}
use magpie_cpp.Zconf.Records.{
  learn_text, expire_at, learn_service, learn_instance, known_or, last_value, node_of_instance,
  node_of_text, take_srv, take_ptr, take_txt, take_data, handle_record, txt_data,
}
use magpie_cpp.Zconf.{Discovery, empty_list}
use magpie_cpp.Prelude.Bytes.{same_bytes, codes, Bytes}
use magpie_cpp.Zconf.Text.{
  ensure_trailing_dot-append, node_id_from_instance-append, ensure_trailing_dot, ends_with-append,
  ends_with_case_insensitive, to_lower,
}
use magpie_cpp.Zconf.Wire.{heard_data, heard}
use magpie_cpp.Prelude.Table.{find-set_self, push_each_new}

pub not_empty-append : (s : Bytes) (c : ℕ) (t : Bytes) → empty_list (s ++ (c ∷ t)) ≡ false
unfolding empty_list
not_empty-append [] c t = refl
not_empty-append (x ∷ s) c t = refl

pub empty_list-to_lower : (s : Bytes) → empty_list (to_lower s) ≡ empty_list s
unfolding empty_list to_lower
empty_list-to_lower [] = refl
empty_list-to_lower (c ∷ s) = refl

-- "<id>.<service_type>"
abbrev pub instance_of : Bytes → Bytes → Bytes
instance_of service_type id = id ++ (b'.' ∷ service_type)

pub ends_with-instance_of :
    (service_type id : Bytes)
    → ends_with_case_insensitive (instance_of service_type id) service_type ≡ true
ends_with-instance_of service_type id =
    rw (append_assoc id (b'.' ∷ []) service_type) at
      (ends_with-append (id ++ (b'.' ∷ [])) service_type service_type refl)

module _ (codec : AddressCodec) (ttl : ℕ) (lives : eqb ttl 0 ≡ false) (id : Bytes)
    (named : empty_list id ≡ false) where
  pub handle_record-ptr :
      (now : ℕ) (d : Discovery)
      → ensure_trailing_dot d.service_type ≡ d.service_type
      → empty_list d.service_type ≡ false
      → handle_record now
          (heard codec ttl
            (record { name = d.service_type; sent = sent_ptr (instance_of d.service_type id) }))
          d
        ≡ learn_instance (to_lower id) (instance_of d.service_type id) (expire_at now ttl) d
  unfolding handle_record heard heard_data take_data take_ptr
  handle_record-ptr now d dotted typed =
      let st = d.service_type in
      simp
        (
          typed,
          not_empty-append id b'.' st,
          ends_with-append [] st st refl,
          ends_with-instance_of st id,
          node_id_from_instance-append st id dotted,
          empty_list-to_lower id,
          named,
          lives,
        )
        refl

  pub handle_record-srv :
      (now : ℕ) (host : Bytes) (port : ℕ) (st : Bytes) (d : Discovery)
      → d.service_type ≡ st
      → ensure_trailing_dot st ≡ st
      → empty_list host ≡ false
      → Table.find (instance_of st id) d.instance_to_node ≡ some (to_lower id)
      → handle_record now
          (heard codec ttl (record { name = instance_of st id; sent = sent_srv host port }))
          d
        ≡ learn_service (to_lower id) (instance_of st id) host port (expire_at now ttl) d
  unfolding handle_record heard heard_data take_data take_srv node_of_instance known_or
  handle_record-srv now host port st d same dotted hosted known =
      simp
        (
          same,
          hosted,
          not_empty-append id b'.' st,
          ensure_trailing_dot-append id st dotted,
          ends_with-instance_of st id,
          known,
          empty_list-to_lower id,
          named,
          lives,
        )
        refl

  pub handle_record-txt :
      (now : ℕ) (payload : Bytes) (st : Bytes) (d : Discovery)
      → d.service_type ≡ st
      → ensure_trailing_dot st ≡ st
      → empty_list payload ≡ false
      → handle_record now
          (record {
            owner_name = instance_of st id;
            ttl = ttl;
            rdata = txt_data ((codes "node_id", id) ∷ (codes "payload", payload) ∷ []);
          })
          d
        ≡ learn_text (to_lower id) (instance_of st id) payload (expire_at now ttl) d
  unfolding handle_record take_data take_txt node_of_text last_value same_bytes
  handle_record-txt now payload st d same dotted paid =
      simp
        (
          same,
          paid,
          not_empty-append id b'.' st,
          ensure_trailing_dot-append id st dotted,
          ends_with-instance_of st id,
          empty_list-to_lower id,
          named,
          lives,
        )
        refl
