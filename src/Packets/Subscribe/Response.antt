-- ===== src/Packets/Subscribe/Response.antt =====
-- common/packets/src/subscribe/mod.rs: the answer to a SUBSCRIBE packet.
use t1_tp.Common.{ℕ, ◌≡◌, refl, List, [], ◌∷◌, arith, length}
use t1_tp.Packets.Error.{ok}
use t1_tp.Packets.Header.{QosLevel, qos_level0, qos_level1, qos_byte}
use t1_tp.Packets.Filter
use t1_tp.Packets.Filter.{TopicFilter}
use t1_tp.Packets.Suback.{
  Suback, verify_return_codes_from_vec, verify_return_code, is_return_code_valid, new_from_vec,
}
use t1_tp.Packets.Subscribe.{Subscribe, return_codes, response, lower_all, set_max_qos}

lowered_qos :
    (name : List ℕ) (q : QosLevel)
    → verify_return_code
        (qos_byte (Filter.set_max_qos (record { name = name; qos = q }) qos_level1).qos)
      ≡ ok tt
unfolding Filter.set_max_qos verify_return_code is_return_code_valid
lowered_qos name qos_level0 = refl
lowered_qos name _ = refl

lowered_code :
    (t : TopicFilter) → verify_return_code (qos_byte (Filter.set_max_qos t qos_level1).qos) ≡ ok tt
lowered_code t = lowered_qos t.name t.qos

lowered_codes :
    (topics : List TopicFilter)
    → verify_return_codes_from_vec (return_codes (lower_all topics qos_level1)) ≡ ok tt
unfolding verify_return_codes_from_vec
lowered_codes [] = refl
lowered_codes (t ∷ topics) = rw (lowered_code t) (lowered_codes topics)

return_codes-length :
    (topics : List TopicFilter)
    → length (return_codes (lower_all topics qos_level1)) ≡ length topics
return_codes-length [] = refl
return_codes-length (t ∷ topics) = omega (arith, return_codes-length topics)

-- Lowered to level 1, as the server does, a SUBSCRIBE packet is answered with its identifier and one
-- code for each of its filters.
pub response-set_max_qos :
    (p : Subscribe)
    → (answer : Suback) × (response (set_max_qos p qos_level1) ≡ ok answer)
      × (answer.subscribe_packet_id ≡ p.packet_identifier)
      × (length answer.return_codes ≡ length p.topics)
unfolding response set_max_qos new_from_vec
response-set_max_qos p =
    let answer : Suback = record {
      return_codes = return_codes (lower_all p.topics qos_level1);
      subscribe_packet_id = p.packet_identifier;
      topics = [];
    } in
    (answer, rw (lowered_codes p.topics), refl, return_codes-length p.topics)
