-- ===== src/Checker/Request.antt =====
-- internal/checker/checker.go: the request of a propagation check, and `validateRequest`.
use mathlib.Core.Bool.{and-eq-true_iff, true≢false}
use mathlib.Core.Option.{some-injective}
use dnsmon.Base.{
  ℕ, ◌+◌, ◌≤◌, ◌≡◌, refl, ◌≢◌, ◌↔◌, ◌⊎◌, All, none, some, List, [], ◌∷◌, ◌++◌, arith, Bool, true,
  false, not, ◌&&◌, ◌||◌, Text, bytes, ltb, leb, ◌==◌, if◌then◌else◌, length, is_empty, has_suffix,
  to_lower, text_eq, text_eq_iff, decimal, Option, sym, ap, ◌∙◌, inl, inr, Bool-cases,
}
use dnsmon.Dns.{Resolver}
use dnsmon.Dns.RecordTypes.{is_supported}
use dnsmon.Dns.Ip.{
  Ip, parse_ip, is_loopback, is_private, is_link_local_unicast, is_link_local_multicast,
}
use dnsmon.World.{failed, Result, ok, err}

pub record CheckRequest : Type 0 where
  pub name : Text
  pub type : Text
  pub resolver_ids : List Text
  pub custom_resolvers : List Resolver
  pub save : Bool
  pub allow_private : Bool
  pub no_cache : Bool

abbrev pub max_resolvers : ℕ
max_resolvers = 200

-- One byte of `domainRE`, `^[a-zA-Z0-9._\-]+$`.
unfoldable pub is_domain_byte : ℕ → Bool
is_domain_byte c =
    leb b'a' c && leb c b'z'
    || leb b'A' c && leb c b'Z'
    || leb b'0' c && leb c b'9'
    || c == b'.'
    || c == b'_'
    || c == b'-'

all_domain_bytes : Text → Bool
all_domain_bytes [] = true
all_domain_bytes (c ∷ s) = is_domain_byte c && all_domain_bytes s

-- `domainRE.MatchString(name)`
unfoldable pub matches_domain : Text → Bool
unfolding all_domain_bytes is_domain_byte
matches_domain name = not (is_empty name) && all_domain_bytes name

is_internal : Ip → Bool
is_internal ip =
    is_loopback ip || is_private ip || is_link_local_unicast ip || is_link_local_multicast ip

unfoldable pub is_private_or_local : Text → Bool
unfolding is_internal
is_private_or_local name =
    let lower = to_lower name in
    if has_suffix lower (bytes ".local") || text_eq lower (bytes "local")
    then true
    else elim (parse_ip name) [ none ↦ false | some ip ↦ is_internal ip ]

unfoldable pub validate_request : CheckRequest → Result (Unit {0})
validate_request req =
    if is_empty req.name
    then err (failed (bytes "name is required"))
    else if not (matches_domain req.name)
    then err (failed (bytes "invalid domain name: " ++ req.name))
    else if not (is_supported req.type)
    then err (failed (bytes "unsupported record type: " ++ req.type))
    else if ltb max_resolvers (length req.resolver_ids + length req.custom_resolvers)
    then err (failed (bytes "too many resolvers: max " ++ decimal max_resolvers))
    else if not req.allow_private && is_private_or_local req.name
    then err (failed (bytes "private or local domain names are not allowed"))
    else ok tt

-- A name of at least one byte, each a letter, a digit, a dot, an underscore or a dash.
abbrev pub IsDomainByte : ℕ → Type 0
IsDomainByte c =
    (b'a' ≤ c) × (c ≤ b'z')
    ⊎ ((b'A' ≤ c) × (c ≤ b'Z')
        ⊎ ((b'0' ≤ c) × (c ≤ b'9') ⊎ ((c ≡ b'.') ⊎ ((c ≡ b'_') ⊎ (c ≡ b'-')))))

abbrev pub IsDomain : Text → Type 0
IsDomain name = (name ≢ []) × All IsDomainByte name

pub is_domain_byte_iff : (c : ℕ) → (is_domain_byte c ≡ true) ↔ IsDomainByte c
unfolding is_domain_byte
is_domain_byte_iff c = ground arith

all_domain_bytes_iff : (s : Text) → (all_domain_bytes s ≡ true) ↔ All IsDomainByte s
unfolding all_domain_bytes
all_domain_bytes_iff [] = (λ _. tt, λ _. refl)
all_domain_bytes_iff (c ∷ s) =
    let byte = is_domain_byte_iff c in
    let rest = all_domain_bytes_iff s in
    let both = and-eq-true_iff (is_domain_byte c) (all_domain_bytes s) in
    (λ e. (byte.0 (both.0 e).0, rest.0 (both.0 e).1), λ h. both.1 (byte.1 h.0, rest.1 h.1))

pub matches_domain_iff : (name : Text) → (matches_domain name ≡ true) ↔ IsDomain name
unfolding matches_domain
matches_domain_iff [] = (λ e. cc, λ h. absurd (h.0 refl))
matches_domain_iff (c ∷ s) =
    let bytes_iff = all_domain_bytes_iff (c ∷ s) in
    (
      λ e. (λ n. cc, bytes_iff.0 (unfold all_domain_bytes in e)),
      λ h. unfold all_domain_bytes in bytes_iff.1 h.1,
    )

not-is_empty : (name : Text) → name ≢ [] → is_empty name ≡ false
not-is_empty [] h = absurd (h refl)
not-is_empty (c ∷ s) h = refl

-- An address that is loopback, private or link-local, to one host or to many.
abbrev IsInternal : Ip → Type 0
IsInternal ip =
    (is_loopback ip ≡ true)
    ⊎ ((is_private ip ≡ true)
        ⊎ ((is_link_local_unicast ip ≡ true) ⊎ (is_link_local_multicast ip ≡ true)))

-- The text ends in `.local` or is `local`, in letters of either case, or stands for such an address.
abbrev pub IsPrivateOrLocal : Text → Type 0
IsPrivateOrLocal s =
    (has_suffix (to_lower s) (bytes ".local") ≡ true)
    ⊎ ((to_lower s ≡ bytes "local") ⊎ ((ip : Ip) × (parse_ip s ≡ some ip) × IsInternal ip))

is_internal_iff : (ip : Ip) → (is_internal ip ≡ true) ↔ IsInternal ip
unfolding is_internal
is_internal_iff ip = ground arith

open_ip :
    (s : Text) (o : Option Ip)
    → parse_ip s ≡ o
    → ((elim o [ none ↦ false | some ip ↦ is_internal ip ]) ≡ false)
      ↔ ¬ ((ip : Ip) × (parse_ip s ≡ some ip) × IsInternal ip)
open_ip s none p = (λ e (ip, q, i). cc, λ n. refl)
open_ip s (some ip) p = (
  λ e (jp, q, i).
      true≢false
        (sym ((is_internal_iff jp).1 i) ∙ ap is_internal (some-injective _ _ (sym q ∙ p)) ∙ e),
  λ n. elim (Bool-cases (is_internal ip)) [
    | inl t ↦ absurd (n (ip, p, (is_internal_iff ip).0 t))
    | inr f ↦ f
  ],
)

either_false :
    (a b c : Bool) {P Q : Type 0}
    → ((b ≡ true) ↔ P)
    → ((c ≡ false) ↔ ¬ Q)
    → ((if a || b then true else c) ≡ false) ↔ ¬ ((a ≡ true) ⊎ (P ⊎ Q))
either_false true b c p q = (λ e. absurd (true≢false e), λ n. absurd (n (inl refl)))
either_false false true c p q = (λ e. absurd (true≢false e), λ n. absurd (n (inr (inl (p.0 refl)))))
either_false false false c p q = (
  λ e. elim [
    | inl h ↦ true≢false (sym h)
    | inr (inl h) ↦ true≢false (sym (p.1 h))
    | inr (inr h) ↦ q.0 e h
  ],
  λ n. q.1 (λ h. n (inr (inr h))),
)

pub is_private_or_local-false : (s : Text) → (is_private_or_local s ≡ false) ↔ ¬ IsPrivateOrLocal s
unfolding is_private_or_local
is_private_or_local-false s =
    let open_iff = open_ip s (parse_ip s) refl in
    let name_iff = text_eq_iff (to_lower s) (bytes "local") in
    either_false (has_suffix (to_lower s) (bytes ".local")) (text_eq (to_lower s) (bytes "local")) _
      name_iff open_iff

-- What an accepted request satisfies.
pub record IsAdmissible (req : CheckRequest) : Type 0 where
  pub named : IsDomain req.name
  pub typed : is_supported req.type ≡ true
  pub few : length req.resolver_ids + length req.custom_resolvers ≤ max_resolvers
  pub open_name : (req.allow_private ≡ true) ⊎ ¬ IsPrivateOrLocal req.name

-- `validateRequest` accepts exactly the requests whose name is not empty and holds only ASCII letters,
-- digits, dots, underscores and dashes, whatever its labels; whose name is not `local`, a name under
-- `.local` or the text of a loopback, private or link-local address, unless the request allows that;
-- whose record type is supported; and which give at most 200 resolvers, by id or as custom ones.
pub validate_request_iff : (req : CheckRequest) → (validate_request req ≡ ok tt) ↔ IsAdmissible req
unfolding validate_request
validate_request_iff req =
    let domain = matches_domain_iff req.name in
    (
      λ e. record {
        named = domain.0 (ground arith);
        typed = ground arith;
        few = ground arith;
        open_name = ground (arith, (is_private_or_local-false req.name).0);
      },
      λ h. ground (
        arith,
        domain.1 h.named,
        not-is_empty req.name h.named.0,
        (is_private_or_local-false req.name).1,
      ),
    )
