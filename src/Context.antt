-- ===== src/Context.antt =====
-- The context of a connection: session_state, credentials and mqtt_ctx of
-- include/boost/mqtt5/detail/internal_types.hpp.
pub mod Session
use async_mqtt.Base.{
  ℕ, ◌-◌, Bool, true, false, not, List, [], ◌∷◌, ◌==◌, if◌then◌else◌, Option, none, some,
}
use Prim.Native.Nat.{bit_or, bit_and}
use async_mqtt.Codec.Property.{Prop}
use async_mqtt.Codec.Messages.{Will}

abbrev pub session_present_flag : ℕ
session_present_flag = 1

abbrev pub subscriptions_present_flag : ℕ
subscriptions_present_flag = 2

-- `~flag` on a uint8_t.
unfoldable pub update_flag : Bool → ℕ → ℕ → ℕ
update_flag set flag flags = if set then bit_or flags flag else bit_and flags (255 - flag)

unfoldable pub set_session_present : Bool → ℕ → ℕ
set_session_present present flags = update_flag present session_present_flag flags

unfoldable pub session_present : ℕ → Bool
session_present flags = not (bit_and flags session_present_flag == 0)

unfoldable pub set_subscriptions_present : Bool → ℕ → ℕ
set_subscriptions_present present flags = update_flag present subscriptions_present_flag flags

unfoldable pub subscriptions_present : ℕ → Bool
subscriptions_present flags = not (bit_and flags subscriptions_present_flag == 0)

pub record Credentials : Type 0 where
  pub client_id : List ℕ
  pub username : Option (List ℕ)
  pub password : Option (List ℕ)

-- The constructor leaves out what is empty.
abbrev non_empty : List ℕ → Option (List ℕ)
non_empty [] = none
non_empty (b ∷ s) = some (b ∷ s)

unfoldable pub credentials_of : List ℕ → List ℕ → List ℕ → Credentials
credentials_of client_id username password = record {
  client_id = client_id;
  username = non_empty username;
  password = non_empty password;
}

-- `mqtt_ctx`; of the authenticator, which is the application's, there is its method, and the flags of
-- the session state are a byte.
pub record Context : Type 0 where
  pub creds : Credentials
  pub will_msg : Option Will
  pub keep_alive : ℕ
  pub co_props : List Prop
  pub ca_props : List Prop
  pub state : ℕ
  pub auth_method : List ℕ
