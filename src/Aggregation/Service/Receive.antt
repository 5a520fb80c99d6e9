-- ===== src/Aggregation/Service/Receive.antt =====
-- packages/aggregation/src/service/service.ts: `receive`.
use did_btcr2_js.Prelude.{Option, if◌then◌else◌, nat_eq, some, string_eq, none}
use did_btcr2_js.Aggregation.Service.{Action, Host, Service, ServiceError, run_found, wrong_version}
use did_btcr2_js.Aggregation.Messages.{
  Message, MessageType, aggregated_nonce, authorization_request, cohort_advert, cohort_opt_in,
  cohort_opt_in_accept, cohort_ready, distribute_aggregated_data, fallback_authorization_request,
  fallback_signature, is_foreign, nonce_contribution, other, signature_authorization,
  submit_nonincluded, submit_update, truthy, validation_ack,
}
use did_btcr2_js.Prelude.Dict.{get}
use did_btcr2_js.Prelude.Result.{Result, ok}
use did_btcr2_js.Prelude.Step.{skip}
use did_btcr2_js.Aggregation.Service.Handlers.{
  handle_nonce_contribution, handle_opt_in, handle_signature_authorization,
  handle_submit_non_inclusion, handle_submit_update, handle_validation_ack, reject,
}
use did_btcr2_js.Aggregation.Service.Fallback.{handle_fallback_signature}
use Prim.Native.String.{String}

-- `switch(message.type)`
unfoldable pub handle : Host → String → Message → MessageType → Action (Unit {0})
handle host id m cohort_opt_in = handle_opt_in id m
handle host id m submit_update = handle_submit_update host m
handle host id m submit_nonincluded = handle_submit_non_inclusion m
handle host id m validation_ack = handle_validation_ack m
handle host id m nonce_contribution = handle_nonce_contribution m
handle host id m signature_authorization = handle_signature_authorization host id m
handle host id m fallback_signature = handle_fallback_signature host id m
handle host id m cohort_advert = skip
handle host id m cohort_opt_in_accept = skip
handle host id m cohort_ready = skip
handle host id m distribute_aggregated_data = skip
handle host id m authorization_request = skip
handle host id m aggregated_nonce = skip
handle host id m fallback_authorization_request = skip
handle host id m other = skip

unfoldable pub receive_action : Host → String → Message → Action (Unit {0})
receive_action host id m =
    if is_foreign m then reject m.from wrong_version else handle host id m m.kind

-- A message that names no cohort, or none that is there, is dropped.
unfoldable pub receive_named :
    Host → Message → Service → Option String → Result ServiceError (Unit {0}) × Service
receive_named host m service none = (ok tt, service)
receive_named host m service (some id) =
    run_found id (receive_action host id m) (ok tt) service (get id service)

unfoldable pub receive : Host → Message → Service → Result ServiceError (Unit {0}) × Service
receive host m service = receive_named host m service (truthy m.body.cohort_id)
