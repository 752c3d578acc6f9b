-- ===== src/Dns/Client.antt =====
-- internal/dnsclient/client.go, `Query`. The exchange with a server is an argument, as is the state of
-- the context: the text of its error once it is done. The number of retries is any integer, as in the
-- configuration; `none` is the panic at the nil response where no attempt is made.
pub mod Rounds
pub mod Attempts
use dnsmon.Base.{
  ℕ, zero, suc, ◌-◌, ◌/◌, List, [], ◌∷◌, ◌++◌, Option, none, some, Bool, true, false, not, ◌&&◌,
  Text, bytes, is_empty, has_suffix, text_eq, contains_text, decimal, ◌==◌, if◌then◌else◌, ℤ, pos,
  negsuc,
}
use dnsmon.Dns.{Resolver, ResolverResult, Status}
use dnsmon.Dns.Records.{Msg, answers_of, additional_of, rcode_to_status}
use dnsmon.World.{Action, ◌>>=◌, pure, Machine}

-- What `ExchangeContext` returns: a response, or an error with its text and whether it is a timeout;
-- and the round trip in nanoseconds.
pub data Exchanged : Type 0 where
  response : Msg → ℕ → Exchanged
  failure : Text → Bool → ℕ → Exchanged

pub record Question : Type 0 where
  pub name : Text
  pub qtype : ℕ
  pub recursion_desired : Bool

pub record Network (W : Type 0) : Type 0 where
  pub exchange : Text → Text → Question → W → Exchanged × W
  pub done : W → Option Text × W

pub record DnsConfig : Type 0 where
  pub default_protocol : Text
  pub retry : ℤ

-- `name` with a dot at its end
unfoldable pub fqdn : Text → Text
unfolding bytes
fqdn name = if has_suffix name (bytes ".") then name else name ++ bytes "."

-- `net.JoinHostPort(host, port)`
unfoldable pub join_host_port : Text → ℕ → Text
unfolding bytes decimal
join_host_port host port =
    if contains_text host (bytes ":")
    then bytes "[" ++ host ++ bytes "]:" ++ decimal port
    else host ++ bytes ":" ++ decimal port

protocol_of : DnsConfig → Resolver → Text
unfolding bytes
protocol_of cfg r =
    let proto = if is_empty r.protocol then cfg.default_protocol else r.protocol in
    if text_eq proto (bytes "dot") then bytes "tcp-tls" else proto

server_of : Resolver → Text
unfolding join_host_port
server_of r = join_host_port r.ip (if r.port == 0 then 53 else r.port)

question_of : Text → ℕ → Question
unfolding fqdn
question_of name qtype = record { name = fqdn name; qtype = qtype; recursion_desired = true }

-- `1 + retry` as the bound of the loop
unfoldable pub max_attempts : ℤ → ℕ
max_attempts (pos n) = suc n
max_attempts (negsuc n) = zero

-- How the loop ends: at a context that is done, or with what the last exchange gave, if there was one.
pub data Tried : Type 0 where
  stopped : Text → Tried
  ended : Option Exchanged → Tried

-- Whether there is another attempt behind this one, where `left` remain.
is_again : ℕ → Exchanged → Bool
is_again left (response m rtt) = false
is_again left (failure text timeout rtt) = timeout && not (left == 0)

unfoldable pub milliseconds : ℕ → ℕ
milliseconds t = t / 1000000

unfoldable pub result_of : (ℕ → Text) → Resolver → ℕ → Exchanged → ResolverResult
unfolding rcode_to_status answers_of additional_of milliseconds
result_of type_name r start (failure text timeout rtt) = record {
  resolver = r;
  status = if timeout then Status.timeout else Status.error;
  answers = [];
  authority = [];
  additional = [];
  dnssec = none;
  duration_ms = milliseconds rtt;
  error = text;
  queried_at = start;
}
result_of type_name r start (response m rtt) = record {
  resolver = r;
  status = rcode_to_status m.rcode;
  answers = answers_of type_name m.answer;
  authority = answers_of type_name m.ns;
  additional = additional_of type_name m.extra;
  dnssec = if m.authenticated_data then some true else none;
  duration_ms = milliseconds rtt;
  error = [];
  queried_at = start;
}

pub stopped_result : Resolver → ℕ → Text → ℕ → ResolverResult
unfolding milliseconds
stopped_result r start text now = record {
  resolver = r;
  status = Status.timeout;
  answers = [];
  authority = [];
  additional = [];
  dnssec = none;
  duration_ms = milliseconds (now - start);
  error = text;
  queried_at = start;
}

module _ {W : Type 0} (net : Network W) (machine : Machine W) (type_name : ℕ → Text) where
  -- The end of one round of the loop: the next rounds are `again`.
  follow : Bool → Exchanged → Action W Tried → Action W Tried
  follow true x again = again
  follow false x again = pure (ended (some x))

  -- One round of the loop, behind the look at the context.
  round : Action W Exchanged → ℕ → (Exchanged → Action W Tried) → Option Text → Action W Tried
  unfolding follow is_again
  round ask left again (some text) = pure (stopped text)
  round ask left again none = do x ← ask; follow (is_again left x) x (again x)

  -- The loop, with the number of the attempts that are left.
  pub attempts : Action W Exchanged → ℕ → Option Exchanged → Action W Tried
  unfolding round
  attempts ask zero last = pure (ended last)
  attempts ask (suc left) last = do d ← net.done; round ask left (λ x. attempts ask left (some x)) d

  -- What `Query` returns for each way in which the loop ends.
  unfoldable pub conclude : Resolver → ℕ → Tried → Action W (Option ResolverResult)
  unfolding result_of stopped_result
  conclude r start (stopped text) = do
    now ← machine.now
    pure (some (stopped_result r start text now))
  conclude r start (ended none) = pure none
  conclude r start (ended (some x)) = pure (some (result_of type_name r start x))

  unfoldable pub ask_of : DnsConfig → Resolver → Text → ℕ → Action W Exchanged
  unfolding protocol_of server_of question_of
  ask_of cfg r name qtype = net.exchange (protocol_of cfg r) (server_of r) (question_of name qtype)

  -- `Query`
  unfoldable pub query : DnsConfig → Resolver → Text → ℕ → Action W (Option ResolverResult)
  unfolding attempts conclude max_attempts ask_of
  query cfg r name qtype = do
    start ← machine.now
    tried ← attempts (ask_of cfg r name qtype) (max_attempts cfg.retry) none
    conclude r start tried
