-- ===== src/Api/StreamRoutes.antt =====
-- internal/api/v1/stream.go, and `TestNotification` of internal/api/v1/settings.go. The WebSocket is an
-- argument: the frame that is read, and whether a frame could be written.
use dnsmon.Base.{
  ℕ, List, [], ◌∷◌, Option, none, some, Bool, true, false, ◌||◌, Text, bytes, is_empty,
  if◌then◌else◌,
}
use dnsmon.Dns.{ResolverResult, CheckSummary}
use dnsmon.Settings.{NotificationChannel}
use dnsmon.Notify.{Delivery, send}
use dnsmon.World.{Result, ok, err, error_text, Action, ◌>>=◌, pure}
use dnsmon.Checker.Stream.{StreamRequest, Streamed, refused, started}
use dnsmon.Api.{Reply, refusal, value, invalid_input, bad_body}

pub record WsStreamRequest : Type 0 where
  pub name : Text
  pub type : Text
  pub resolvers : List Text

-- `wsMessage` with the data of its type.
pub data Message : Type 0 where
  total : ℕ → Message
  result : ResolverResult → Message
  done : CheckSummary → Text → Message
  error : Text → Text → Message

stream_request : WsStreamRequest → StreamRequest
stream_request req = record {
  name = req.name;
  type = req.type;
  resolver_ids = req.resolvers;
  custom_resolvers = [];
  allow_private = false;
}

module _ {W : Type 0} (write : Message → Action W Bool)
    (stream : StreamRequest → Bool → Action W Streamed) where
  -- `sendWSError`
  send_error : Text → Action W (Unit {0})
  unfolding bytes
  send_error message = do dropped ← write (error invalid_input message); pure tt

  send_done : Text → Option CheckSummary → Action W (Unit {0})
  send_done id none = pure tt
  send_done id (some summary) = do dropped ← write (done summary id); pure tt

  unfoldable pub when_written : Action W (Unit {0}) → Bool → Action W (Unit {0})
  when_written rest false = pure tt
  when_written rest true = rest

  -- The loop over the results, which ends at a frame that cannot be written.
  send_results : List ResolverResult → Text → Option CheckSummary → Action W (Unit {0})
  unfolding send_done when_written
  send_results [] id summary = send_done id summary
  send_results (x ∷ xs) id summary = do
    written ← write (result x)
    when_written (send_results xs id summary) written

  send_stream : Streamed → Action W (Unit {0})
  unfolding send_error send_results when_written
  send_stream (refused e) = send_error (error_text e)
  send_stream (started n id results summary) = do
    written ← write (total n)
    when_written (send_results results id summary) written

  -- `StreamCheck` on the frame that was read; the check is saved.
  unfoldable pub stream_check : Option WsStreamRequest → Action W (Unit {0})
  unfolding send_error send_stream stream_request bytes
  stream_check none = send_error (bytes "Failed to read request.")
  stream_check (some req) =
      if is_empty req.name || is_empty req.type
      then send_error (bytes "name and type are required.")
      else do s ← stream (stream_request req) true; send_stream s

unfoldable pub notified : Result (Unit {0}) → Reply Text
unfolding bytes
notified (ok u) = value 200 (bytes "sent")
notified (err e) = refusal 502 (bytes "NOTIFY_FAILED") (error_text e)

-- `TestNotification`
unfoldable pub test_notification :
    {W : Type 0} → Delivery W → Option NotificationChannel → Action W (Reply Text)
unfolding notified send bytes
test_notification net none = pure bad_body
test_notification net (some ch) =
    if is_empty ch.type
    then pure (refusal 400 invalid_input (bytes "Channel type is required."))
    else do
      r ← send net ch (bytes "dnsmon test notification — your channel is configured correctly.")
      pure (notified r)
