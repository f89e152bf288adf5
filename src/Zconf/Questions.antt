-- ===== src/Zconf/Questions.antt =====
-- handle_question_ of src/discovery/zconf_discovery.cpp: who is answered, and with what.
use magpie_cpp.Prelude.Bytes.{same_bytes_iff, same_bytes, Bytes}
use magpie_cpp.Prelude.{
  ℕ, List, [], ◌∷◌, arith, ◌&&◌, Bool, ◌≢◌, ◌≡◌, true, some, refl, none, false, Bool-cases, inl,
  inr,
}
use magpie_cpp.Zconf.Advertise.{
  answer_addresses, answer_records, answer_ptr, address_records, count_after, parse_ip, txt_record,
  first_answer, with_additional, srv_record, asks_srv, additional_records, ptr_record, asks_ptr,
  Advertiser, QuestionType, send_announce, AddressCodec, answer_host, answer_instance,
  handle_question,
}
use magpie_cpp.Zconf.{empty_list}
use magpie_cpp.Zconf.Text.{ensure_trailing_dot, to_lower, ends_with_case_insensitive}

and_false : (b : Bool) → (b && false) ≡ false
and_false true = refl
and_false false = refl

same_bytes_ne : (s t : Bytes) → s ≢ t → same_bytes s t ≡ false
same_bytes_ne s t n = ground (arith, same_bytes_iff s t, n)

answer_addresses-address_records :
    (codec : AddressCodec) (host : Bytes) (n : ℕ) (ips : List Bytes)
    → answer_addresses codec host n ips ≡ address_records codec host n ips
unfolding answer_addresses address_records
answer_addresses-address_records codec host n [] = refl
answer_addresses-address_records codec host n (ip ∷ ips) =
    rw (answer_addresses-address_records codec host (count_after n (parse_ip codec ip)) ips) refl

answer_records-additional_records :
    (codec : AddressCodec) (a : Advertiser) → answer_records codec a ≡ additional_records codec a
unfolding answer_records additional_records srv_record txt_record
answer_records-additional_records codec a =
    rw (answer_addresses-address_records codec a.adv_host_qualified 3 a.adv_ips) refl

-- A question for the service type, or for any record of an instance of it, is answered with what an
-- announcement sends, and with nothing where nothing is announced.
pub handle_question-announces :
    (codec : AddressCodec) (qname : Bytes) (rtype : QuestionType) (a : Advertiser)
    → asks_ptr rtype ≡ true
    → empty_list qname ≡ false
    → ends_with_case_insensitive qname a.service_type ≡ true
    → handle_question codec qname rtype a ≡ send_announce codec a
unfolding handle_question send_announce answer_ptr ptr_record
handle_question-announces codec qname rtype a p named e = elim (Bool-cases a.advertising) [
  | inl on ↦ simp (on, named, p, e, answer_records-additional_records codec a) refl
  | inr off ↦ simp (off) refl
]

-- What each branch answers, for a question about the service type, the instance or the host in any
-- letter case.
pub handle_question-answers :
    (codec : AddressCodec) (qname : Bytes) (rtype : QuestionType) (a : Advertiser)
    → a.advertising ≡ true
    → empty_list qname ≡ false
    → (asks_ptr rtype ≡ true
        → ends_with_case_insensitive qname a.service_type ≡ true
        → handle_question codec qname rtype a ≡ some (answer_ptr a, answer_records codec a))
      × (asks_ptr rtype ≡ false
          → asks_srv rtype ≡ true
          → ends_with_case_insensitive qname a.service_type ≡ true
          → to_lower qname ≡ to_lower a.adv_instance
          → handle_question codec qname rtype a ≡ some (srv_record a, answer_records codec a))
      × (ends_with_case_insensitive qname a.service_type ≡ false
          → to_lower (ensure_trailing_dot qname) ≡ to_lower a.adv_host_qualified
          → handle_question codec qname rtype a
            ≡ with_additional
                (answer_records codec a)
                (first_answer rtype (answer_records codec a)))
      × (ends_with_case_insensitive qname a.service_type ≡ false
          → to_lower (ensure_trailing_dot qname) ≢ to_lower a.adv_host_qualified
          → handle_question codec qname rtype a ≡ none)
unfolding handle_question answer_instance answer_host
handle_question-answers codec qname rtype a on named = (
  λ p e. simp (on, named, p, e) refl,
  λ p s e i.
      simp (on, named, p, s, e, (same_bytes_iff (to_lower qname) (to_lower a.adv_instance)).1 i)
        refl,
  λ e h.
      simp
        (
          on,
          named,
          e,
          and_false,
          (same_bytes_iff (to_lower (ensure_trailing_dot qname)) (to_lower a.adv_host_qualified)).1
              h,
        )
        refl,
  λ e h.
      simp
        (
          on,
          named,
          e,
          and_false,
          same_bytes_ne (to_lower (ensure_trailing_dot qname)) (to_lower a.adv_host_qualified) h,
        )
        refl,
)
