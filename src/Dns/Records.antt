-- ===== src/Dns/Records.antt =====
-- internal/dnsclient/client.go: what the DNS library hands over, and how a record becomes an answer.
-- An address of a record is the text that `String()` gives, as is a record without a case of its own.
use dnsmon.Base.{
  ℕ, ◌+◌, ◌-◌, ◌/◌, ◌%◌, List, [], ◌∷◌, ◌++◌, map, Bool, not, ◌||◌, ◌==◌, Text, bytes, join,
  decimal, ltb, if◌then◌else◌, keep,
}
use dnsmon.Dns.{Status, Answer}

pub data RrData : Type 0 where
  a aaaa cname ns ptr other : Text → RrData
  mx : ℕ → Text → RrData
  soa : Text → Text → ℕ → ℕ → ℕ → ℕ → ℕ → RrData
  txt : List Text → RrData
  caa : ℕ → Text → Text → RrData
  srv : ℕ → ℕ → ℕ → Text → RrData
  ds dnskey tlsa : ℕ → ℕ → ℕ → Text → RrData
  naptr : ℕ → ℕ → Text → Text → Text → Text → RrData

-- The fields of the header, and the data.
pub record Rr : Type 0 where
  pub name : Text
  pub rrtype : ℕ
  pub ttl : ℕ
  pub body : RrData

-- The parts of a `dns.Msg` that the code reads.
pub record Msg : Type 0 where
  pub rcode : ℕ
  pub authoritative : Bool
  pub authenticated_data : Bool
  pub answer : List Rr
  pub ns : List Rr
  pub extra : List Rr

unfoldable pub hex_byte : ℕ → ℕ
hex_byte n = if ltb n 10 then b'0' + n else b'a' + (n - 10)

-- One byte of `strconv.Quote`; a byte above 127 is kept, as in valid UTF-8 that can be printed.
quote_byte : ℕ → Text
unfolding hex_byte bytes
quote_byte c =
    if c == 34 || c == 92
    then 92 ∷ c ∷ []
    else if c == 7
    then bytes "\\a"
    else if c == 8
    then bytes "\\b"
    else if c == 9
    then bytes "\\t"
    else if c == 10
    then bytes "\\n"
    else if c == 11
    then bytes "\\v"
    else if c == 12
    then bytes "\\f"
    else if c == 13
    then bytes "\\r"
    else if ltb c 32 || c == 127
    then bytes "\\x" ++ hex_byte (c / 16) ∷ hex_byte (c % 16) ∷ []
    else c ∷ []

quote_bytes : Text → Text
unfolding quote_byte
quote_bytes [] = []
quote_bytes (c ∷ s) = quote_byte c ++ quote_bytes s

-- `%q`
quote : Text → Text
unfolding quote_bytes
quote s = 34 ∷ quote_bytes s ++ 34 ∷ []

words : List Text → Text
unfolding bytes
words ws = join (bytes " ") ws

-- The value of a record in the `switch` of `rrToAnswer`.
unfoldable pub value_of : RrData → Text
unfolding words decimal quote
value_of (a s) = s
value_of (aaaa s) = s
value_of (cname s) = s
value_of (mx preference s) = words (decimal preference ∷ s ∷ [])
value_of (ns s) = s
value_of (ptr s) = s
value_of (soa s mbox serial refresh retry expire minttl) = words (
    s
    ∷ mbox
    ∷ decimal serial
    ∷ decimal refresh
    ∷ decimal retry
    ∷ decimal expire
    ∷ decimal minttl
    ∷ [])
value_of (txt ts) = words ts
value_of (caa flag tag v) = words (decimal flag ∷ tag ∷ quote v ∷ [])
value_of (srv priority weight port target) =
    words (decimal priority ∷ decimal weight ∷ decimal port ∷ target ∷ [])
value_of (ds key algorithm digest_type digest) =
    words (decimal key ∷ decimal algorithm ∷ decimal digest_type ∷ digest ∷ [])
value_of (dnskey flags protocol algorithm key) =
    words (decimal flags ∷ decimal protocol ∷ decimal algorithm ∷ key ∷ [])
value_of (naptr order preference flags service regexp replacement) = words (
    decimal order
    ∷ decimal preference
    ∷ quote flags
    ∷ quote service
    ∷ quote regexp
    ∷ replacement
    ∷ [])
value_of (tlsa usage selector matching certificate) =
    words (decimal usage ∷ decimal selector ∷ decimal matching ∷ certificate ∷ [])
value_of (other s) = s

-- `rrToAnswer(rr)`; the names of the types, `dns.TypeToString`, are an argument.
rr_to_answer : (ℕ → Text) → Rr → Answer
unfolding value_of
rr_to_answer type_name rr = record {
  name = rr.name;
  type = type_name rr.rrtype;
  ttl = rr.ttl;
  value = value_of rr.body;
}

unfoldable pub answers_of : (ℕ → Text) → List Rr → List Answer
unfolding rr_to_answer
answers_of type_name rrs = map (rr_to_answer type_name) rrs

-- The loop over `Extra`, which passes over the records of type OPT.
unfoldable pub additional_of : (ℕ → Text) → List Rr → List Answer
unfolding answers_of keep
additional_of type_name rrs = answers_of type_name (keep (λ (rr : Rr). not (rr.rrtype == 41)) rrs)

-- `rcodeToStatus(rcode)`
unfoldable pub rcode_to_status : ℕ → Status
rcode_to_status rcode =
    if rcode == 0
    then Status.ok
    else if rcode == 3
    then Status.nxdomain
    else if rcode == 2
    then Status.servfail
    else if rcode == 5
    then Status.refused
    else Status.error
