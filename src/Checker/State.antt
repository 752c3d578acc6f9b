-- ===== src/Checker/State.antt =====
-- internal/checker/checker.go, `Checker`: the parts that a check goes through, and the settings of
-- `cfg` that it reads. The metrics are left out: nothing reads them back. `storage` is never nil,
-- since cmd/dnsmon always passes one.
use dnsmon.Base.{ℕ, List, Option, Text}
use dnsmon.Dns.{ResolverResult}
use dnsmon.Registry.{Registry}
use dnsmon.World.{Storage, Cache, Client, Machine}

-- `json.Marshal` and `json.Unmarshal` of a result, and the digests of `crypto/sha1` (in hexadecimal)
-- and `crypto/sha256` (its bytes).
pub record Codec : Type 0 where
  pub marshal : ResolverResult → Option Text
  pub unmarshal : Text → Option ResolverResult
  pub sha1 : Text → Text
  pub sha256 : Text → List ℕ

pub record Config : Type 0 where
  pub per_resolver_concurrency : ℕ
  pub default_protocol : Text
  pub cache_ttl : ℕ

pub record Checker (W : Type 0) : Type 0 where
  pub client : Client W
  pub registry : Registry
  pub cache : Cache W
  pub storage : Storage W
  pub machine : Machine W
  pub codec : Codec
  pub cfg : Config
