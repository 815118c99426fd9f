-- ===== src/Packets/Connect.antt =====
-- common/packets/src/connect: the CONNECT packet.
pub mod Encoding
pub mod Decoding
pub mod Flags
pub mod RoundTrip
use t1_tp.Common.{
  ℕ, Bool, true, false, not, ◌&&◌, List, [], ◌∷◌, Option, none, some, is_empty, if◌then◌else◌,
}
use t1_tp.Packets.Error.{PacketResult, ok, err, ◌>>=◌, ◌>>◌, other}
use t1_tp.Packets.Publish.{is_some}
use t1_tp.Packets.Filter.{TopicFilter}

pub record LastWill : Type 0 where
  pub retain_flag : Bool
  pub topic : TopicFilter
  pub topic_message : List ℕ

pub record Connect : Type 0 where
  pub client_id : List ℕ
  pub clean_session : Bool
  pub user_name : Option (List ℕ)
  pub password : Option (List ℕ)
  pub last_will : Option LastWill
  pub keep_alive : ℕ

-- `Connect::take_last_will`: the will, and the packet without it.
unfoldable pub take_last_will : Connect → Option LastWill × Connect
take_last_will c = (c.last_will, record c { last_will = none })

-- `Connect::set_id`
unfoldable pub set_id : Connect → List ℕ → Connect
set_id c id = if is_empty c.client_id then record c { client_id = id } else c

-- `ConnectBuilder::new`; the builder is the packet that it builds.
unfoldable pub new : List ℕ → ℕ → Bool → PacketResult Connect
new client_id keep_alive clean_session = ok (record {
  client_id = client_id;
  clean_session = clean_session;
  user_name = none;
  password = none;
  last_will = none;
  keep_alive = keep_alive;
})

-- `with_user_name`, `with_password` and `with_last_will`
unfoldable pub with_user_name : Connect → List ℕ → PacketResult Connect
with_user_name c user_name = ok (record c { user_name = some user_name })

unfoldable pub with_password : Connect → List ℕ → PacketResult Connect
with_password c password = ok (record c { password = some password })

unfoldable pub with_last_will : Connect → LastWill → Connect
with_last_will c last_will = record c { last_will = some last_will }

-- `ConnectBuilder::build`
unfoldable pub build : Connect → PacketResult Connect
build c = if is_some c.password && not (is_some c.user_name) then err other else ok c
