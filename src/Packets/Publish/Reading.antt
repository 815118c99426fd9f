-- ===== src/Packets/Publish/Reading.antt =====
-- common/packets/src/publish/decoding.rs: the shape of what is read.
use t1_tp.Common.{
  ℕ, ◌≤◌, ◌≡◌, ap, All-behind, Bool, true, false, ◌&&◌, ◌||◌, List, [], ◌∷◌, ◌++◌, length, Option,
  none, some, arith, is_empty, contains, IsByte, All, Option-cases, inl, inr,
}
use mathlib.Core.Path.{subst}
use t1_tp.Packets.Error.{IoError, ok, bind-eq-ok, ok-injective}
use t1_tp.Packets.Stream.{read_u16_or_zero}
use t1_tp.Packets.Header.{
  PacketType, QosLevel, qos_level0, qos_level1, qos_level2, same_qos, check_packet_type,
}
use t1_tp.Packets.Length.{max_variable_length, read_remaining_bytes}
use t1_tp.Packets.Length.Framing.{read_remaining_bytes_bounds}
use t1_tp.Packets.Field
use t1_tp.Packets.Field.{is_utf8, new_from_stream}
use t1_tp.Packets.Field.Laws.{IsField, new_from_stream_sound}
use t1_tp.Packets.Publish.{Publish}
use t1_tp.Packets.Publish.Encoding.{id_bytes}
use t1_tp.Packets.Publish.Decoding.{
  verify_retain_flag, verify_qos_level_flag, verify_dup_flag, verify_topic_name, verify_packet_id,
  read_payload, read_from,
}
use t1_tp.Packets.Publish.Shape.{IsSendable, IsIdentified, arriving, arriving_id}
use t1_tp.Packets.Publish.RoundTrip.{body, length-body}

verify_dup_flag_sound :
    (c : ℕ) (q : QosLevel) (dup : Bool)
    → verify_dup_flag c q ≡ ok dup
    → dup && same_qos q qos_level0 ≡ false
unfolding verify_dup_flag
verify_dup_flag_sound c q dup h = ground arith

record IsTopic (bytes topic rest : List ℕ) : Type 0 where
  field : IsField topic
  named : is_empty topic ≡ false
  plain : contains b'+' topic || contains b'#' topic ≡ false
  written : bytes ≡ Field.encode topic ++ rest

verify_topic_name_sound :
    (bytes topic rest : List ℕ)
    → All IsByte bytes
    → verify_topic_name bytes ≡ ok (topic, rest)
    → IsTopic bytes topic rest
unfolding verify_topic_name
verify_topic_name_sound bytes topic rest hb h = elim (Option-cases (new_from_stream bytes)) [
  | inl e ↦ cc (rw (e, verify_topic_name) at h)
  | inr ((t, r), e) ↦
      let h' = rw (e, verify_topic_name) at h in
      let (field, written) = new_from_stream_sound bytes t r hb e in ground arith
]

verify_packet_id_sound :
    (bytes : List ℕ) (q : QosLevel) (id : Option ℕ) (rest : List ℕ)
    → All IsByte bytes
    → verify_packet_id bytes q ≡ ok (id, rest)
    → IsIdentified q id × (arriving_id q id ≡ id) × (bytes ≡ id_bytes id q ++ rest)
unfolding verify_packet_id read_u16_or_zero
verify_packet_id_sound bytes qos_level0 id rest hb h = ground arith
verify_packet_id_sound [] qos_level1 id rest hb h = cc
verify_packet_id_sound (a ∷ []) qos_level1 id rest hb h = cc
verify_packet_id_sound (a ∷ b ∷ bytes) qos_level1 none rest hb h = ground arith
verify_packet_id_sound (a ∷ b ∷ bytes) qos_level1 (some n) rest hb h = ground arith
verify_packet_id_sound [] qos_level2 id rest hb h = cc
verify_packet_id_sound (a ∷ []) qos_level2 id rest hb h = cc
verify_packet_id_sound (a ∷ b ∷ bytes) qos_level2 none rest hb h = ground arith
verify_packet_id_sound (a ∷ b ∷ bytes) qos_level2 (some n) rest hb h = ground arith

read_payload_sound :
    (bytes payload : List ℕ)
    → read_payload bytes ≡ ok payload
    → (bytes ≡ payload) × (is_utf8 payload ≡ true)
unfolding read_payload
read_payload_sound bytes payload h = ground arith

-- The body of a packet, part by part.
body_read :
    (bytes : List ℕ) (p : Publish) (r1 r2 : List ℕ)
    → All IsByte bytes
    → length bytes ≤ max_variable_length
    → p.dup_flag && same_qos p.qos qos_level0 ≡ false
    → verify_topic_name bytes ≡ ok (p.topic_name, r1)
    → verify_packet_id r1 p.qos ≡ ok (p.packet_id, r2)
    → read_payload r2 ≡ ok p.payload
    → IsSendable p × (arriving p ≡ p)
body_read bytes p r1 r2 hb small first named identified loaded =
    let t = verify_topic_name_sound bytes p.topic_name r1 hb named in
    let after_topic : All IsByte r1 =
      All-behind IsByte (Field.encode p.topic_name) r1 (subst (All IsByte) t.written hb) in
    let (id, arrives, written) =
      verify_packet_id_sound r1 p.qos p.packet_id r2 after_topic identified in
    let (text, utf8) = read_payload_sound r2 p.payload loaded in
    let whole : bytes ≡ body p = cc (t.written, written, text) in
    let size : length (body p) ≤ max_variable_length = rw (← whole) small in
    (
      record {
        topic = t.field;
        named = t.named;
        plain = t.plain;
        text = utf8;
        first = first;
        identified = id;
        fits = omega (arith, length-body p, size);
      },
      ap (λ (i : Option ℕ). record p { packet_id = i }) arrives,
    )

-- Whatever the bytes of the stream and the control byte, a PUBLISH packet that is read can be sent
-- on as it is: its topic is not empty and has no wildcards, its texts are UTF-8, it has an
-- identifier that is not zero exactly above level 0, and it is no duplicate at level 0.
pub read_from-IsSendable :
    (e : IoError) (stream : List ℕ) (control_byte : ℕ) (p : Publish) (rest : List ℕ)
    → All IsByte stream
    → read_from e stream control_byte ≡ ok (p, rest)
    → IsSendable p × (arriving p ≡ p)
unfolding read_from
read_from-IsSendable e stream c p rest hb h =
    let (q, hq, h1) = bind-eq-ok (verify_qos_level_flag c) _ h in
    let (dup, hd, h2) = bind-eq-ok (verify_dup_flag c q) _ h1 in
    let (u, ht, h3) = bind-eq-ok (check_packet_type c PacketType.publish) _ h2 in
    let ((bytes, after), hr, h4) = bind-eq-ok (read_remaining_bytes e stream) _ h3 in
    let ((topic, r1), hn, h5) = bind-eq-ok (verify_topic_name bytes) _ h4 in
    let ((id, r2), hi, h6) = bind-eq-ok (verify_packet_id r1 q) _ h5 in
    let (payload, hp, h7) = bind-eq-ok (read_payload r2) _ h6 in
    let (hbytes, small) = read_remaining_bytes_bounds e stream bytes after hb hr in
    let p' : Publish = record {
      packet_id = id;
      topic_name = topic;
      qos = q;
      retain_flag = verify_retain_flag c;
      dup_flag = dup;
      payload = payload;
    } in
    let same : p' ≡ p = ap (λ (t : Publish × List ℕ). t.0) (ok-injective h7) in
    subst (λ (t : Publish). IsSendable t × (arriving t ≡ t)) same
      (body_read bytes p' r1 r2 hbytes small (verify_dup_flag_sound c q dup hd) hn hi hp)
