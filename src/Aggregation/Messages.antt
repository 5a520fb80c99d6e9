-- ===== src/Aggregation/Messages.antt =====
-- packages/aggregation/src/core/messages: the messages of the protocol and their factories. A field that
-- is absent from a body is `none`.
pub mod Adverts
use did_btcr2_js.Prelude.{
  Bool, List, Option, if◌then◌else◌, nat_beq, nat_eq, not, some, string_eq, true, ℕ, ◌&&◌, ◌==◌,
  ◌||◌, none,
}
use did_btcr2_js.Aggregation.Conditions.{
  CohortConditions, is_short, known_funding_models, max_recovery_sequence,
}
use Prim.Native.String.{String}
use did_btcr2_js.Smt.Proof.{SerializedSmtProof}
use did_btcr2_js.Common.Number.{Number, above}
use did_btcr2_js.Prelude.Dict.{Dict, includes}
use did_btcr2_js.Common.Json.{Json}
use did_btcr2_js.Smt.Hash.{Bytes}
use did_btcr2_js.Smt.Tree.{proof}

pub data MessageType : Type 0 where
  cohort_advert cohort_opt_in cohort_opt_in_accept cohort_ready : MessageType
  submit_update submit_nonincluded distribute_aggregated_data validation_ack : MessageType
  authorization_request nonce_contribution aggregated_nonce signature_authorization : MessageType
  fallback_authorization_request fallback_signature other : MessageType

-- `conditions` are the advertised cohort conditions, `none` where one that an advert must have is
-- missing or has another type.
pub record Body : Type 0 where
  pub cohort_id : Option String
  pub conditions : Option CohortConditions
  pub network : Option String
  pub participant_pk : Option Bytes
  pub communication_pk : Option Bytes
  pub genesis_document : Option Json
  pub beacon_address : Option String
  pub cohort_keys : Option (List Bytes)
  pub session_id : Option String
  pub nonce_contribution : Option Bytes
  pub aggregated_nonce : Option Bytes
  pub partial_signature : Option Bytes
  pub fallback_leaf_script_hex : Option String
  pub signer_pk : Option Bytes
  pub fallback_signature : Option Bytes
  pub pending_tx : Option String
  pub prev_out_script_hex : Option String
  pub prev_out_value : Option String
  pub signed_update : Option Json
  pub beacon_type : Option String
  pub cas_announcement : Option (Dict String String)
  pub smt_proof : Option (SerializedSmtProof String)
  pub signal_bytes_hex : Option String
  pub approved : Option Bool

pub record Message : Type 0 where
  pub kind : MessageType
  pub version : Option ℕ
  pub from : String
  pub to : Option String
  pub body : Body

abbrev pub aggregation_wire_version : ℕ
aggregation_wire_version = 1

-- A text that is there and not empty.
abbrev pub truthy : Option String → Option String
truthy none = none
truthy (some text) = if text == "" then none else some text

-- `message.version === undefined || message.version !== AGGREGATION_WIRE_VERSION`
abbrev pub is_foreign : Message → Bool
is_foreign m = elim m.version [ none ↦ true | some v ↦ not (nat_beq v aggregation_wire_version) ]

abbrev pub empty_body : Body
empty_body = record {
  cohort_id = none;
  conditions = none;
  network = none;
  participant_pk = none;
  communication_pk = none;
  genesis_document = none;
  beacon_address = none;
  cohort_keys = none;
  session_id = none;
  nonce_contribution = none;
  aggregated_nonce = none;
  partial_signature = none;
  fallback_leaf_script_hex = none;
  signer_pk = none;
  fallback_signature = none;
  pending_tx = none;
  prev_out_script_hex = none;
  prev_out_value = none;
  signed_update = none;
  beacon_type = none;
  cas_announcement = none;
  smt_proof = none;
  signal_bytes_hex = none;
  approved = none;
}

-- `new BaseMessage({ type, from, to, body })`
abbrev pub new_message : MessageType → String → Option String → Body → Message
new_message kind from to body = record {
  kind = kind;
  version = some aggregation_wire_version;
  from = from;
  to = to;
  body = body;
}

unfoldable pub create_cohort_advert_message :
    String → String → String → Bytes → CohortConditions → Message
create_cohort_advert_message from cohort_id network communication_pk conditions =
    new_message cohort_advert from none (record empty_body {
      cohort_id = some cohort_id;
      network = some network;
      communication_pk = some communication_pk;
      conditions = some conditions;
    })

unfoldable pub create_cohort_opt_in_message :
    String → String → String → Bytes → Bytes → Option Json → Message
create_cohort_opt_in_message from to cohort_id participant_pk communication_pk genesis =
    new_message cohort_opt_in from (some to) (record empty_body {
      cohort_id = some cohort_id;
      participant_pk = some participant_pk;
      communication_pk = some communication_pk;
      genesis_document = genesis;
    })

unfoldable pub create_cohort_opt_in_accept_message : String → String → String → Message
create_cohort_opt_in_accept_message from to cohort_id =
    new_message cohort_opt_in_accept from (some to)
      (record empty_body { cohort_id = some cohort_id })

unfoldable pub create_cohort_ready_message :
    String → String → String → String → List Bytes → Message
create_cohort_ready_message from to cohort_id beacon_address cohort_keys =
    new_message cohort_ready from (some to) (record empty_body {
      cohort_id = some cohort_id;
      beacon_address = some beacon_address;
      cohort_keys = some cohort_keys;
    })

unfoldable pub create_submit_update_message : String → String → String → Json → Message
create_submit_update_message from to cohort_id signed_update =
    new_message submit_update from (some to)
      (record empty_body { cohort_id = some cohort_id; signed_update = some signed_update })

unfoldable pub create_submit_non_included_message : String → String → String → Message
create_submit_non_included_message from to cohort_id =
    new_message submit_nonincluded from (some to) (record empty_body { cohort_id = some cohort_id })

unfoldable pub create_distribute_aggregated_data_message :
    String
    → String
    → String
    → String
    → String
    → Option (Dict String String)
    → Option (SerializedSmtProof String)
    → Message
create_distribute_aggregated_data_message from to cohort_id beacon_type signal announcement proof =
    new_message distribute_aggregated_data from (some to) (record empty_body {
      cohort_id = some cohort_id;
      beacon_type = some beacon_type;
      signal_bytes_hex = some signal;
      cas_announcement = announcement;
      smt_proof = proof;
    })

unfoldable pub create_validation_ack_message : String → String → String → Bool → Message
create_validation_ack_message from to cohort_id approved =
    new_message validation_ack from (some to)
      (record empty_body { cohort_id = some cohort_id; approved = some approved })

-- The request for a signature of the key path.
unfoldable pub create_authorization_request_message :
    String → String → String → String → String → String → String → Message
create_authorization_request_message from to cohort_id session_id pending_tx script value =
    new_message authorization_request from (some to) (record empty_body {
      cohort_id = some cohort_id;
      session_id = some session_id;
      pending_tx = some pending_tx;
      prev_out_script_hex = some script;
      prev_out_value = some value;
    })

unfoldable pub create_nonce_contribution_message :
    String → String → String → String → Bytes → Message
create_nonce_contribution_message from to cohort_id session_id nonce =
    new_message nonce_contribution from (some to) (record empty_body {
      cohort_id = some cohort_id;
      session_id = some session_id;
      nonce_contribution = some nonce;
    })

unfoldable pub create_aggregated_nonce_message : String → String → String → String → Bytes → Message
create_aggregated_nonce_message from to cohort_id session_id nonce =
    new_message aggregated_nonce from (some to) (record empty_body {
      cohort_id = some cohort_id;
      session_id = some session_id;
      aggregated_nonce = some nonce;
    })

unfoldable pub create_signature_authorization_message :
    String → String → String → String → Bytes → Message
create_signature_authorization_message from to cohort_id session_id partial_sig =
    new_message signature_authorization from (some to) (record empty_body {
      cohort_id = some cohort_id;
      session_id = some session_id;
      partial_signature = some partial_sig;
    })

unfoldable pub create_fallback_authorization_request_message :
    String → String → String → String → String → String → String → String → Message
create_fallback_authorization_request_message from to cohort_id session_id tx script value leaf =
    new_message fallback_authorization_request from (some to) (record empty_body {
      cohort_id = some cohort_id;
      session_id = some session_id;
      pending_tx = some tx;
      prev_out_script_hex = some script;
      prev_out_value = some value;
      fallback_leaf_script_hex = some leaf;
    })

unfoldable pub create_fallback_signature_message :
    String → String → String → String → Bytes → Bytes → Message
create_fallback_signature_message from to cohort_id session_id signer_pk signature =
    new_message fallback_signature from (some to) (record empty_body {
      cohort_id = some cohort_id;
      session_id = some session_id;
      signer_pk = some signer_pk;
      fallback_signature = some signature;
    })
