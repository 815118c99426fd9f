-- ===== src/Packets/Connect/Flags.antt =====
-- common/packets/src/connect: the byte of the flags, written and read.
use t1_tp.Common.{ℕ, ◌≡◌, Bool, List, [], Option, none, some, arith}
use t1_tp.Packets.Error.{ok}
use t1_tp.Packets.Header.{QosLevel, qos_level0, qos_level1, qos_level2, qos_of_byte}
use t1_tp.Packets.Field.{new_from_string}
use t1_tp.Packets.Filter
use t1_tp.Packets.Filter.{TopicFilter}
use t1_tp.Packets.Connect.{Connect, LastWill}
use t1_tp.Packets.Connect.Encoding.{flags}
use t1_tp.Packets.Connect.Decoding.{get_will, connect_of_flags, placeholder}

-- The packet that the flags alone say of: its texts are not read yet.
abbrev pub blank_will : Option LastWill → Option LastWill
blank_will none = none
blank_will (some will) = some (record {
  retain_flag = will.retain_flag;
  topic = record { name = placeholder; qos = will.topic.qos };
  topic_message = [];
})

abbrev pub blank_text : Option (List ℕ) → Option (List ℕ)
blank_text none = none
blank_text (some text) = some []

abbrev pub blank : Connect → Connect
blank c = record {
  client_id = [];
  clean_session = c.clean_session;
  user_name = blank_text c.user_name;
  password = blank_text c.password;
  last_will = blank_will c.last_will;
  keep_alive = 0;
}

will_read :
    (clean : Bool) (u p : Option (List ℕ)) (retain : Bool) (q : QosLevel) (name message id : List ℕ)
    (alive : ℕ)
    → let c : Connect = record {
      client_id = id;
      clean_session = clean;
      user_name = u;
      password = p;
      last_will = some (record {
        retain_flag = retain;
        topic = record { name = name; qos = q };
        topic_message = message;
      });
      keep_alive = alive;
    } in
      connect_of_flags (flags c) ≡ ok (blank c)
unfolding flags connect_of_flags get_will qos_of_byte Filter.new Filter.check_valid_topic_name
    new_from_string
will_read clean none none retain qos_level0 name message id alive = ground arith
will_read clean none none retain qos_level1 name message id alive = ground arith
will_read clean none none retain qos_level2 name message id alive = ground arith
will_read clean none (some p) retain qos_level0 name message id alive = ground arith
will_read clean none (some p) retain qos_level1 name message id alive = ground arith
will_read clean none (some p) retain qos_level2 name message id alive = ground arith
will_read clean (some u) none retain qos_level0 name message id alive = ground arith
will_read clean (some u) none retain qos_level1 name message id alive = ground arith
will_read clean (some u) none retain qos_level2 name message id alive = ground arith
will_read clean (some u) (some p) retain qos_level0 name message id alive = ground arith
will_read clean (some u) (some p) retain qos_level1 name message id alive = ground arith
will_read clean (some u) (some p) retain qos_level2 name message id alive = ground arith

no_will_read :
    (clean : Bool) (u p : Option (List ℕ)) (id : List ℕ) (alive : ℕ)
    → let c : Connect = record {
      client_id = id;
      clean_session = clean;
      user_name = u;
      password = p;
      last_will = none;
      keep_alive = alive;
    } in
      connect_of_flags (flags c) ≡ ok (blank c)
unfolding flags connect_of_flags get_will qos_of_byte
no_will_read clean none none id alive = ground arith
no_will_read clean none (some p) id alive = ground arith
no_will_read clean (some u) none id alive = ground arith
no_will_read clean (some u) (some p) id alive = ground arith

flags_split :
    (clean : Bool) (u p : Option (List ℕ)) (w : Option LastWill) (id : List ℕ) (alive : ℕ)
    → let c : Connect = record {
      client_id = id;
      clean_session = clean;
      user_name = u;
      password = p;
      last_will = w;
      keep_alive = alive;
    } in
      connect_of_flags (flags c) ≡ ok (blank c)
flags_split clean u p none id alive = no_will_read clean u p id alive
flags_split clean u p (some w) id alive =
    will_read clean u p w.retain_flag w.topic.qos w.topic.name w.topic_message id alive

-- The byte of the flags says which parts a packet has, and the level and the retain flag of its will.
pub connect_of_flags-flags : (c : Connect) → connect_of_flags (flags c) ≡ ok (blank c)
connect_of_flags-flags c =
    flags_split c.clean_session c.user_name c.password c.last_will c.client_id c.keep_alive
