-- ===== src/Checker/Check/Caching.antt =====
-- What the cache of the answers can and cannot change.
use dnsmon.Base.{
  ◌≡◌, refl, sym, ap, ◌∙◌, List, [], ◌∷◌, ◌++◌, true, Text, bytes, arith, All, NoByte, cut,
  cut-append,
}
use std.Path.{fun_ext}
use mathlib.Core.Option.{some-injective}
use dnsmon.Dns.{Resolver, ResolverResult}
use dnsmon.World.{Cache, Result, ok, err, ◌>>=◌, pure}
use dnsmon.Checker.Request.{IsDomain, IsDomainByte}
use dnsmon.Checker.State.{Checker}
use dnsmon.Checker.Check.{key_text, type_number, answered, live, query_with_cache, fan_out}

module _ {W : Type 0} (c : Checker W) where
  abbrev pub with_cache : Cache W → Checker W
  with_cache other = record c { cache = other }

  answered_uncached :
      (other : Cache W) (r : Resolver) (name qtype : Text) (x : Result ResolverResult)
      → answered (with_cache other) r name qtype true x ≡ answered c r name qtype true x
  unfolding answered
  answered_uncached other r name qtype (err e) = refl
  answered_uncached other r name qtype (ok x) = refl

  query_uncached :
      (other : Cache W) (r : Resolver) (name qtype : Text)
      → query_with_cache (with_cache other) r name qtype true ≡ query_with_cache c r name qtype true
  unfolding query_with_cache live
  query_uncached other r name qtype = fun_ext (λ w.
      let (x, w₁) = c.client.query r name (type_number qtype) w in
      ap (λ f. f w₁) (answered_uncached other r name qtype x))

  -- With `noCache` the answers of a check, and all that it does, are the same with any other cache:
  -- it neither reads nor writes one.
  pub fan_out_uncached :
      (other : Cache W) (name qtype : Text) (rs : List Resolver) (w : W)
      → fan_out (with_cache other) name qtype true rs w ≡ fan_out c name qtype true rs w
  unfolding fan_out
  fan_out_uncached other name qtype [] w = refl
  fan_out_uncached other name qtype (r ∷ rs) w =
      ap (λ f. (f >>= λ x. fan_out (with_cache other) name qtype true rs >>= λ xs. pure (x ∷ xs)) w)
        (query_uncached other r name qtype)
      ∙ let (x, w₁) = query_with_cache c r name qtype true w in
        ap (λ p. (x ∷ p.0, p.1)) (fan_out_uncached other name qtype rs w₁)

cut_eq :
    (a b a' b' : Text)
    → NoByte b'|' a
    → NoByte b'|' a'
    → a ++ (bytes "|" ++ b) ≡ a' ++ (bytes "|" ++ b')
    → (a ≡ a') × (b ≡ b')
unfolding bytes
cut_eq a b a' b' h h' e =
    let p =
      some-injective _ _
        (sym (cut-append b'|' a b h) ∙ ap (cut b'|') e ∙ cut-append b'|' a' b' h') in
    (ap (λ q. q.0) p, ap (λ q. q.1) p)

pub IsDomain-NoByte : (s : Text) → All IsDomainByte s → NoByte b'|' s
IsDomain-NoByte [] h = tt
IsDomain-NoByte (c ∷ s) h = (ground arith, IsDomain-NoByte s h.1)

-- Two queries whose resolver ids hold no bar and whose names are domain names are kept apart: their
-- texts, of which the cache keys are the digests, are equal only if ids, names and types are.
pub key_text_injective :
    (id name qtype id' name' qtype' : Text)
    → NoByte b'|' id
    → NoByte b'|' id'
    → IsDomain name
    → IsDomain name'
    → key_text id name qtype ≡ key_text id' name' qtype'
    → (id ≡ id') × (name ≡ name') × (qtype ≡ qtype')
unfolding key_text
key_text_injective id name qtype id' name' qtype' h h' d d' e =
    let (same_id, rest) =
      cut_eq id (name ++ (bytes "|" ++ qtype)) id' (name' ++ (bytes "|" ++ qtype')) h h' e in
    let (same_name, same_type) =
      cut_eq name qtype name' qtype' (IsDomain-NoByte name d.1) (IsDomain-NoByte name' d'.1) rest in
    (same_id, same_name, same_type)
