-- ===== src/Background/ReAuth.antt =====
-- include/boost/mqtt5/impl/re_auth_op.hpp: authentication on a connection that stands. The operation is
-- over when it has no call outstanding.
use async_mqtt.Base.{
  true, ◌&&◌, ℕ, Bool, false, not, List, [], ◌∷◌, same_text, if◌then◌else◌, ◌==◌, Option, none,
  some,
}
use async_mqtt.Codec.Library.{Boost}
use async_mqtt.Codec.Property.{
  Prop, single, text_value, authentication_method, authentication_data, auth_props,
}
use async_mqtt.Codec.Messages.{encode_auth}
use async_mqtt.Operation.{text_at, set_at}
use async_mqtt.ReasonCodes.{
  Category, uncategorised, ReasonCode, Lookup, found, nullopt, past_end, auth, to_reason_code,
}
use async_mqtt.ReasonCodes
use async_mqtt.Replies.{Error}
use async_mqtt.Errors.{failed}
use async_mqtt.Connect.{AuthStep, client_initial, server_challenge, server_final, text_or_empty}

-- `undefined` is the end of the table of reason codes.
pub data Call : Type 0 where
  async_auth : AuthStep → (data_in : List ℕ) → Call
  async_send : (wire_data : List ℕ) → Call
  async_disconnect : (reason : ℕ) → Call
  undefined : Call

abbrev pub on_auth_fail : ReasonCode → List Call
on_auth_fail reason = async_disconnect reason.code ∷ []

unfoldable pub perform_initial : (method : List ℕ) → List Call
perform_initial [] = []
perform_initial (b ∷ method) = async_auth client_initial [] ∷ []

abbrev pub same_method : Option (List ℕ) → List ℕ → Bool
same_method none method = false
same_method (some u) method = same_text u method

abbrev pub is_uncategorised : Category → Bool
is_uncategorised uncategorised = true
is_uncategorised _ = false

-- The reason code is compared with `success`, which has no category.
abbrev pub step_of : ReasonCode → AuthStep
step_of rc =
    if (rc.code == 0) && is_uncategorised rc.category then server_final else server_challenge

abbrev pub with_code : (method : List ℕ) → Lookup → List Prop → List Call
with_code method (found rc) props =
    if not (same_method (text_at authentication_method props) method)
    then on_auth_fail ReasonCodes.protocol_error
    else (async_auth (step_of rc) (text_or_empty (text_at authentication_data props)) ∷ [])
with_code method nullopt props = on_auth_fail ReasonCodes.malformed_packet
with_code method past_end props = undefined ∷ []

unfoldable pub perform_message : (method : List ℕ) → (code : ℕ) → List Prop → List Call
perform_message [] code props = on_auth_fail ReasonCodes.protocol_error
perform_message (b ∷ method) code props = with_code (b ∷ method) (to_reason_code auth code) props

abbrev pub answer_packet : Boost → ReasonCode → (method bytes : List ℕ) → List ℕ
answer_packet lib rc method bytes = encode_auth lib rc.code (
    set_at authentication_data (single (some (text_value bytes)))
      (set_at authentication_method (single (some (text_value method))) auth_props))

abbrev pub auth_given : Boost → (method : List ℕ) → AuthStep → List ℕ → List Call
auth_given lib method client_initial bytes =
    async_send (answer_packet lib ReasonCodes.reauthenticate method bytes) ∷ []
auth_given lib method server_challenge bytes =
    async_send (answer_packet lib ReasonCodes.continue_authentication method bytes) ∷ []
auth_given lib method server_final bytes = []

unfoldable pub handle_auth_data : Boost → (method : List ℕ) → AuthStep → Error → List ℕ → List Call
handle_auth_data lib method auth_step ec bytes =
    if failed ec
    then on_auth_fail ReasonCodes.unspecified_error
    else auth_given lib method auth_step bytes
