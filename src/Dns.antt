-- ===== src/Dns.antt =====
-- internal/dnsclient/result.go: the values that the checks produce and the storage keeps.
-- A `Status` is one of the six constants that the code writes, a `time.Time` the nanoseconds
-- since 1970, and a `float64`, with which nothing here computes, its 64 bits.
pub mod RecordTypes
pub mod Ip
pub mod Records
pub mod Client
mod Tests
use Prim.Native.Nat.{ℕ}
use mathlib.Core.Bool.{Bool}
use mathlib.Core.Option.{Option}
use mathlib.Core.List.{List}
use dnsmon.Base.{Text}

pub data Status : Type 0 where
  ok nxdomain timeout servfail refused error : Status

pub record Resolver : Type 0 where
  pub id : Text
  pub name : Text
  pub ip : Text
  pub port : ℕ
  pub protocol : Text
  pub country : Text
  pub city : Text
  pub lat : ℕ
  pub lng : ℕ
  pub asn : ℕ
  pub isp : Text

pub record Answer : Type 0 where
  pub name : Text
  pub type : Text
  pub ttl : ℕ
  pub value : Text

pub record ResolverResult : Type 0 where
  pub resolver : Resolver
  pub status : Status
  pub answers : List Answer
  pub authority : List Answer
  pub additional : List Answer
  pub dnssec : Option Bool
  pub duration_ms : ℕ
  pub error : Text
  pub queried_at : ℕ

pub record CheckSummary : Type 0 where
  pub total_resolvers : ℕ
  pub responded : ℕ
  pub nxdomain : ℕ
  pub timeouts : ℕ
  pub errors : ℕ
  pub unique_answer_sets : ℕ
  pub consensus : List (Text × ℕ)
  pub converged_pct : ℕ
  pub propagation_eta : Option ℕ

pub record Check : Type 0 where
  pub id : Text
  pub name : Text
  pub type : Text
  pub created_at : ℕ
  pub results : List ResolverResult
  pub summary : CheckSummary

pub record TraceStep : Type 0 where
  pub zone : Text
  pub nameserver : Text
  pub ip : Text
  pub query_type : Text
  pub answers : List Answer
  pub authority : List Answer
  pub additional : List Answer
  pub authoritative : Bool
  pub duration_ms : ℕ
  pub status : Option Status
  pub error : Text

pub record TraceResult : Type 0 where
  pub name : Text
  pub type : Text
  pub steps : List TraceStep
