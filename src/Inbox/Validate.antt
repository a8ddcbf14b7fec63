-- ===== src/Inbox/Validate.antt =====
-- `validateEventSubMessageId` of eventsub-common.js, `eventSubDefinitionForSubscription` of
-- eventsub-registry.js and `validateMessage` of eventsub-inbox.js.
use Prim.Native.String.{len, ◌++◌ as text_append}
use elmybot.Base.{
  ℕ, ◌*◌, String, Bool, false, ◌||◌, not, List, [], ◌∷◌, Option, none, some, Result, ok, err, ◌>>=◌,
  ◌>>◌, throw_if, or_throw, or_else, text_eq, text_length, ltb, ◌==◌, if◌then◌else◌, first_some,
}
use elmybot.Inbox.Types.{
  Validated, Definition, Registry, Payload, Input, InboxError, schema_unsupported,
  invalid_message_id, invalid_message_type, invalid_timestamp, invalid_payload, payload_too_large,
  broadcaster_mismatch, subscription_unsupported, Externals,
}

abbrev pub eventsub_inbox_schema_version : ℕ
eventsub_inbox_schema_version = 1

abbrev pub max_payload_bytes : ℕ
max_payload_bytes = 256 * 1024

unfoldable pub validate_message_id : Option String → Result InboxError String
unfolding text_length
validate_message_id none = err invalid_message_id
validate_message_id (some id) =
    if text_eq id "" || ltb 512 (text_length id) then err invalid_message_id else ok id

-- A property of an object without a prototype.
unfoldable pub property : String → List (String × Definition) → Option Definition
property key [] = none
property key ((k, d) ∷ rest) = if text_eq k key then some d else property key rest

-- The template text `${type}:${version}`, where no type reads `undefined`.
unfoldable pub subscription_key : Option String → String → String
subscription_key type version = text_append (text_append (or_else type "undefined") ":") version

unfoldable pub definition_for_subscription : Registry → Option String → String → Option Definition
unfolding property subscription_key
definition_for_subscription registry type version =
    property (subscription_key type version) registry.by_subscription

unfoldable pub extract_broadcaster : Payload → Option (Option String)
extract_broadcaster payload =
    first_some payload.condition_broadcaster_user_id payload.event_broadcaster_user_id

unfoldable pub is_message_type : Option String → Bool
is_message_type none = false
is_message_type (some t) = text_eq t "notification" || text_eq t "revocation"

-- The payload names the inbox's broadcaster, and that is a text which is not empty.
unfoldable pub names_broadcaster : Option String → Payload → Bool
unfolding extract_broadcaster
names_broadcaster none payload = false
names_broadcaster (some id) payload =
    if text_eq id "" then false else elim (extract_broadcaster payload) [
      | none ↦ false
      | some none ↦ false
      | some (some found) ↦ text_eq found id
    ]

unfoldable pub is_version : Option ℕ → Bool
is_version none = false
is_version (some n) = n == eventsub_inbox_schema_version

unfoldable pub validate_message : Externals → Registry → Input → Result InboxError Validated
unfolding validate_message_id definition_for_subscription is_message_type names_broadcaster
    is_version
validate_message externals registry input = do
  throw_if (not (is_version input.schema_version)) schema_unsupported
  id ← validate_message_id input.message_id
  throw_if (not (is_message_type input.message_type)) invalid_message_type
  timestamp ← or_throw (externals.parse_date input.message_timestamp) invalid_timestamp
  payload ← or_throw input.payload invalid_payload
  throw_if (ltb max_payload_bytes (len payload.json)) payload_too_large
  throw_if (not (names_broadcaster input.broadcaster_user_id payload)) broadcaster_mismatch
  definition ←
      or_throw
        (definition_for_subscription registry payload.subscription_type
          (or_else payload.subscription_version "1"))
        subscription_unsupported
  ok (record {
    message_id = id;
    message_type = or_else input.message_type "";
    message_timestamp = timestamp;
    subscription_kind = definition.kind;
    payload_json = payload.json;
  })
