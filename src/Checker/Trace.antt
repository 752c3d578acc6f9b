-- ===== src/Checker/Trace.antt =====
-- internal/checker/trace.go: the walk along the delegations, from a root server to the servers of the
-- name. The exchanges and the system's resolver are arguments.
pub mod Targets
pub mod Hops
use dnsmon.Base.{
  ℕ, zero, suc, ◌-◌, List, [], ◌∷◌, ◌++◌, Option, none, some, Bool, true, false, not, ◌&&◌, ◌||◌,
  Text, bytes, is_empty, trim_dot, to_lower, member, lookup, insert, if◌then◌else◌, ltb, length,
}
use dnsmon.Dns.{Status, Answer, TraceStep, TraceResult}
use dnsmon.Dns.RecordTypes.{is_supported}
use dnsmon.Dns.Records.{RrData, Rr, Msg, answers_of, additional_of, rcode_to_status}
use dnsmon.Dns.Records as Records
use dnsmon.Dns.Client.{
  Exchanged, response, failure, Question, Network, fqdn, join_host_port, milliseconds,
}
use dnsmon.World.{Result, ok, err, failed, Action, ◌>>=◌, pure, Machine}
use dnsmon.Checker.Request.{is_private_or_local}
use dnsmon.Checker.Check.{type_number}

-- An address of `LookupIPAddr`: whether it has four bytes, and its text.
pub record IpAddr : Type 0 where
  is_v4 : Bool
  pub text : Text

-- `LookupIPAddr`, which is `none` on an error.
pub record NameService (W : Type 0) : Type 0 where
  pub lookup_ip_addr : Text → W → Option (List IpAddr) × W

unfoldable pub root_servers : List Text
unfolding bytes
root_servers =
    bytes "198.41.0.4" ∷ bytes "199.9.14.201" ∷ bytes "192.33.4.12" ∷ bytes "199.7.91.13" ∷ []

abbrev pub max_trace_steps : ℕ
max_trace_steps = 24

-- `strings.ToLower(strings.TrimSuffix(name, "."))`
key_of : Text → Text
unfolding to_lower trim_dot
key_of name = to_lower (trim_dot name)

pub record Glue : Type 0 where
  pub v4 : List (Text × Text)
  pub v6 : List (Text × Text)

-- An address of the additional section, unless it is private or local.
add_if_open : Text → Text → List (Text × Text) → List (Text × Text)
unfolding key_of insert
add_if_open name ip m = if is_private_or_local ip then m else insert (key_of name) ip m

glue_one : Text → RrData → Glue → Glue
unfolding add_if_open
glue_one name (RrData.a ip) g = record g { v4 = add_if_open name ip g.v4 }
glue_one name (RrData.aaaa ip) g = record g { v6 = add_if_open name ip g.v6 }
glue_one name _ g = g

unfoldable pub glue_all : Glue → List Rr → Glue
unfolding glue_one
glue_all g [] = g
glue_all g (rr ∷ rrs) = glue_all (glue_one rr.name rr.body g) rrs

-- `seen` and `next`
pub record Servers : Type 0 where
  pub seen : List Text
  pub next : List Text

unfoldable pub push : Text → Servers → Servers
push ip s = record { seen = ip ∷ s.seen; next = s.next ++ ip ∷ [] }

-- The address that a map has for a name, unless it has been seen.
unfoldable pub fresh_glue : Text → List (Text × Text) → Servers → Option Text
unfolding lookup member
fresh_glue name m s = elim (lookup name m) [
  | none ↦ none
  | some ip ↦ if member ip s.seen then none else some ip
]

-- The first address of the system's resolver that will do.
first_open : List IpAddr → Servers → Option Text
unfolding member
first_open [] s = none
first_open (a ∷ rest) s =
    if a.is_v4 && not (is_private_or_local a.text) && not (member a.text s.seen)
    then some a.text
    else first_open rest s

push_some : Option Text → Servers → Servers
unfolding push
push_some none s = s
push_some (some ip) s = push ip s

-- What follows the lookup: after a lookup without an error the IPv6 glue is left out, if there is some
-- server already.
unfoldable pub after_lookup : Text → List (Text × Text) → Servers → Option (List IpAddr) → Servers
unfolding push_some fresh_glue first_open
after_lookup name v6 s none = push_some (fresh_glue name v6 s) s
after_lookup name v6 s (some addrs) =
    let t = push_some (first_open addrs s) s in
    if ltb 0 (length t.next) then t else push_some (fresh_glue name v6 t) t

-- The zone and the name server of a step.
ns_name : RrData → Text
unfolding trim_dot
ns_name (RrData.ns s) = trim_dot s
ns_name _ = []

zone_of : Text → Msg → Text × Text
unfolding ns_name trim_dot bytes
zone_of ip m = zone_from ip m.ns m.answer
  where
    zone_from : Text → List Rr → List Rr → Text × Text
    zone_from ip (rr ∷ rrs) answer = (trim_dot rr.name, ns_name rr.body)
    zone_from ip [] (rr ∷ rrs) = (trim_dot rr.name, ip)
    zone_from ip [] [] = (bytes ".", ip)

failed_step : Text → Text → ℕ → Text → TraceStep
failed_step ip qtype duration text = record {
  zone = [];
  nameserver = [];
  ip = ip;
  query_type = qtype;
  answers = [];
  authority = [];
  additional = [];
  authoritative = false;
  duration_ms = duration;
  status = some Status.error;
  error = text;
}

answered_step : (ℕ → Text) → Text → Text → ℕ → Msg → TraceStep
unfolding zone_of rcode_to_status answers_of additional_of
answered_step type_name ip qtype duration m = record {
  zone = (zone_of ip m).0;
  nameserver = (zone_of ip m).1;
  ip = ip;
  query_type = qtype;
  answers = answers_of type_name m.answer;
  authority = answers_of type_name m.ns;
  additional = additional_of type_name m.extra;
  authoritative = m.authoritative;
  duration_ms = duration;
  status = some (rcode_to_status m.rcode);
  error = [];
}

-- What `traceStep` returns; `last` where there was an error or an authoritative answer.
pub record Hop : Type 0 where
  step : TraceStep
  pub next : List Text
  pub last : Bool

module _ {W : Type 0} (net : Network W) (names : NameService W) (machine : Machine W)
    (type_name : ℕ → Text) where
  next_by : Text → Glue → Servers → Option Text → Action W Servers
  unfolding push after_lookup
  next_by name g s (some ip) = pure (push ip s)
  next_by name g s none = do
    addrs ← names.lookup_ip_addr name
    pure (after_lookup name g.v6 s addrs)

  -- The round of the last loop for one record.
  next_of : Glue → Servers → RrData → Action W Servers
  unfolding next_by fresh_glue key_of
  next_of g s (RrData.ns name) = next_by (key_of name) g s (fresh_glue (key_of name) g.v4 s)
  next_of g s _ = pure s

  next_all : Glue → Servers → List Rr → Action W Servers
  unfolding next_of
  next_all g s [] = pure s
  next_all g s (rr ∷ rrs) = do t ← next_of g s rr.body; next_all g t rrs

  -- The part of `traceStep` behind the first exchange, or the second where the first failed.
  hop_by : Text → Text → ℕ → Bool → Msg → Action W Hop
  unfolding answered_step next_all glue_all
  hop_by ip qtype duration true m =
      pure (record { step = answered_step type_name ip qtype duration m; next = []; last = true })
  hop_by ip qtype duration false m = do
    s ←
        next_all (glue_all (record { v4 = []; v6 = [] }) m.extra) (record { seen = []; next = [] })
          m.ns
    pure
        (record { step = answered_step type_name ip qtype duration m; next = s.next; last = false })

  hop_of : Text → Text → ℕ → Exchanged → Action W Hop
  unfolding failed_step hop_by
  hop_of ip qtype duration (failure text timeout rtt) =
      pure (record { step = failed_step ip qtype duration text; next = []; last = true })
  hop_of ip qtype duration (response m rtt) = hop_by ip qtype duration m.authoritative m

  -- The second exchange, over TCP.
  retry_tcp : Text → Question → Exchanged → Action W Exchanged
  unfolding join_host_port bytes
  retry_tcp ip q (response m rtt) = pure (response m rtt)
  retry_tcp ip q (failure text timeout rtt) = net.exchange (bytes "tcp") (join_host_port ip 53) q

  -- `traceStep`
  trace_step : Text → Text → Text → Action W Hop
  unfolding hop_of retry_tcp join_host_port milliseconds type_number bytes
  trace_step ip name qtype = do
    start ← machine.now
    let q : Question = record { name = name; qtype = type_number qtype; recursion_desired = false }
    first ← net.exchange (bytes "udp") (join_host_port ip 53) q
    x ← retry_tcp ip q first
    now ← machine.now
    hop_of ip qtype (milliseconds (now - start)) x

  unfoldable pub go_on : Hop → Action W (List TraceStep) → Action W (List TraceStep)
  go_on h rest =
      if h.last || is_empty h.next
      then pure (h.step ∷ [])
      else do steps ← rest; pure (h.step ∷ steps)

  -- The loop, with the number of the steps that are left.
  walk : ℕ → List Text → Text → Text → Action W (List TraceStep)
  unfolding trace_step go_on
  walk zero servers name qtype = pure []
  walk (suc left) [] name qtype = pure []
  walk (suc left) (ip ∷ servers) name qtype = do
    h ← trace_step ip name qtype
    go_on h (walk left h.next name qtype)

  -- `Trace`
  unfoldable pub trace : Text → Text → Action W (Result TraceResult)
  unfolding walk root_servers fqdn bytes trim_dot
  trace name qtype =
      if is_empty name
      then pure (err (failed (bytes "name is required")))
      else if not (is_supported qtype)
      then pure (err (failed (bytes "unsupported record type: " ++ qtype)))
      else do
        steps ← walk max_trace_steps root_servers (fqdn name) qtype
        pure (ok (record { name = trim_dot (fqdn name); type = qtype; steps = steps }))
