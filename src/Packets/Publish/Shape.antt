-- ===== src/Packets/Publish/Shape.antt =====
-- common/packets/src/publish: the flags of a PUBLISH packet in its first byte, and the shape of a
-- packet that can be sent.
use t1_tp.Common.{
  ℕ, ◌+◌, ◌≤◌, ◌<◌, ◌≡◌, refl, Bool, true, false, List, length, Option, none, some, is_empty,
  contains, ◌&&◌, ◌||◌,
}
use t1_tp.Packets.Error.{ok}
use t1_tp.Packets.Header.{
  PacketType, QosLevel, qos_level0, check_packet_type, build_control_byte, same_qos, to_bits,
  qos_of_byte, type_of_byte, type_of_bits, same_type,
}
use t1_tp.Packets.Length.{max_variable_length}
use t1_tp.Packets.Field.{is_utf8}
use t1_tp.Packets.Field.Laws.{IsField}
use t1_tp.Packets.Publish.{Publish}
use t1_tp.Packets.Publish.Encoding.{reserved_bits, id_bytes}
use t1_tp.Packets.Publish.Decoding.{verify_retain_flag, verify_qos_level_flag, verify_dup_flag}

-- Above level 0 there is an identifier, which is not zero and fits 16 bits.
abbrev pub IsIdentified : QosLevel → Option ℕ → Type 0
IsIdentified qos_level0 id = Unit
IsIdentified _ none = ⊥
IsIdentified _ (some n) = (0 < n) × (n < 65536)

-- A packet that can be sent: what the other end will not refuse.
pub record IsSendable (p : Publish) : Type 0 where
  pub topic : IsField p.topic_name
  pub named : is_empty p.topic_name ≡ false
  pub plain : contains b'+' p.topic_name || contains b'#' p.topic_name ≡ false
  pub text : is_utf8 p.payload ≡ true
  pub first : p.dup_flag && same_qos p.qos qos_level0 ≡ false
  pub identified : IsIdentified p.qos p.packet_id
  pub fits :
      2 + length p.topic_name + length (id_bytes p.packet_id p.qos) + length p.payload
      ≤ max_variable_length

-- The packet that arrives: at level 0 the identifier is not sent.
abbrev pub arriving_id : QosLevel → Option ℕ → Option ℕ
arriving_id qos_level0 id = none
arriving_id _ id = id

abbrev pub arriving : Publish → Publish
arriving p = record p { packet_id = arriving_id p.qos p.packet_id }

abbrev pub control : Publish → ℕ
control p = build_control_byte PacketType.publish (reserved_bits p)

-- What is read from the first byte of a packet with the given flags.
pub record IsRead (p : Publish) : Type 0 where
  pub retain : verify_retain_flag (control p) ≡ p.retain_flag
  pub qos : verify_qos_level_flag (control p) ≡ ok p.qos
  pub dup :
      p.dup_flag && same_qos p.qos qos_level0 ≡ false
      → verify_dup_flag (control p) p.qos ≡ ok p.dup_flag
  pub type : check_packet_type (control p) PacketType.publish ≡ ok tt

flags_read :
    (dup retain : Bool) (q : QosLevel) (id : Option ℕ) (topic payload : List ℕ)
    → IsRead (record {
      packet_id = id;
      topic_name = topic;
      qos = q;
      retain_flag = retain;
      dup_flag = dup;
      payload = payload;
    })
unfolding verify_retain_flag verify_qos_level_flag verify_dup_flag check_packet_type reserved_bits
    build_control_byte to_bits qos_of_byte type_of_byte type_of_bits same_type
flags_read true true qos_level0 id t pl = record {
  retain = refl;
  qos = refl;
  dup = λ h. cc;
  type = refl;
}
flags_read true false qos_level0 id t pl = record {
  retain = refl;
  qos = refl;
  dup = λ h. cc;
  type = refl;
}
flags_read false true qos_level0 id t pl = record {
  retain = refl;
  qos = refl;
  dup = λ h. refl;
  type = refl;
}
flags_read false false qos_level0 id t pl = record {
  retain = refl;
  qos = refl;
  dup = λ h. refl;
  type = refl;
}
flags_read _ _ _ id t pl = record { retain = refl; qos = refl; dup = λ h. refl; type = refl }

pub flags : (p : Publish) → IsRead p
flags p = flags_read p.dup_flag p.retain_flag p.qos p.packet_id p.topic_name p.payload
