-- ===== src/Checker/Stream.antt =====
-- internal/checker/stream.go: the streamed check. As in Checker/Check.antt the resolvers are asked one
-- after the other; the order in which their results arrive is an argument. A context that is cancelled
-- is seen where the code looks at it behind the last result: then there is no summary.
use dnsmon.Base.{ℕ, List, length, Bool, true, false, Text, Option, none, some}
use dnsmon.Dns.{Resolver, ResolverResult, CheckSummary}
use dnsmon.World.{Result, ok, err, Error, Action, ◌>>=◌, pure}
use dnsmon.Checker.Request.{CheckRequest, validate_request}
use dnsmon.Checker.ResolverList.{build_resolver_list}
use dnsmon.Checker.Summary.{Iterate, build_summary}
use dnsmon.Checker.State.{Checker}
use dnsmon.Checker.Check.{fan_out}
use dnsmon.Checker.Permalink.{new_id}

pub record StreamRequest : Type 0 where
  pub name : Text
  pub type : Text
  pub resolver_ids : List Text
  pub custom_resolvers : List Resolver
  pub allow_private : Bool

unfoldable pub check_request : StreamRequest → CheckRequest
check_request req = record {
  name = req.name;
  type = req.type;
  resolver_ids = req.resolver_ids;
  custom_resolvers = req.custom_resolvers;
  save = false;
  allow_private = req.allow_private;
  no_cache = false;
}

-- What `Stream` returns, with what its channels carry until they are closed.
pub data Streamed : Type 0 where
  refused : Error → Streamed
  started : (total : ℕ) → (id : Text) → List ResolverResult → Option CheckSummary → Streamed

module _ {W : Type 0} (c : Checker W) (iterate : Iterate)
    (arrive : List ResolverResult → List ResolverResult) (is_done : Action W Bool) where
  -- A check that is saved under the id of the stream; an error of the storage is dropped.
  keep_stream :
      StreamRequest → Text → List ResolverResult → CheckSummary → Bool → Action W (Unit {0})
  keep_stream req id results summary false = pure tt
  keep_stream req id results summary true = do
    now ← c.machine.now
    dropped ← c.storage.save_check (record {
      id = id;
      name = req.name;
      type = req.type;
      created_at = now;
      results = results;
      summary = summary;
    })
    pure tt

  -- The end of the goroutine, behind the last result.
  finish : StreamRequest → Text → List ResolverResult → Bool → Bool → Action W (Option CheckSummary)
  unfolding keep_stream build_summary
  finish req id results save true = pure none
  finish req id results save false = do
    kept ← keep_stream req id results (build_summary iterate results) save
    pure (some (build_summary iterate results))

  run_stream : StreamRequest → Bool → List Resolver → Action W Streamed
  unfolding fan_out finish new_id
  run_stream req save rs = do
    id_time ← c.machine.now
    let id = new_id c.codec.sha256 req.name req.type id_time
    answers ← fan_out c req.name req.type true rs
    let results = arrive answers
    done ← is_done
    summary ← finish req id results save done
    pure (started (length rs) id results summary)

  stream_listed : StreamRequest → Bool → Result (List Resolver) → Action W Streamed
  unfolding run_stream
  stream_listed req save (err e) = pure (refused e)
  stream_listed req save (ok rs) = run_stream req save rs

  stream_valid : StreamRequest → Bool → Result (Unit {0}) → Action W Streamed
  unfolding stream_listed check_request
  stream_valid req save (err e) = pure (refused e)
  stream_valid req save (ok u) = do
    listed ← build_resolver_list c.registry c.storage (check_request req)
    stream_listed req save listed

  -- `Stream`
  unfoldable pub stream : StreamRequest → Bool → Action W Streamed
  unfolding stream_valid check_request
  stream req save = stream_valid req save (validate_request (check_request req))
