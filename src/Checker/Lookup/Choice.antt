-- ===== src/Checker/Lookup/Choice.antt =====
-- Which resolver a lookup asks.
use dnsmon.Base.{
  ◌≡◌, refl, ap, ◌∙◌, ◌⊎◌, List, [], ◌∷◌, none, some, false, Text, bytes, member, is_empty,
  has_suffix, text_eq_ne, if◌then◌else◌, to_lower, ◌≢◌,
}
use dnsmon.Dns.{Resolver}
use dnsmon.Dns.Ip.{parse_ip}
use dnsmon.Registry.{get}
use dnsmon.World.{ok}
use dnsmon.Checker.Request.{is_private_or_local, IsPrivateOrLocal}
use dnsmon.Checker.State.{Checker}
use dnsmon.Checker.Lookup.{
  LookupRequest, custom_resolver, custom_choice, named_choice, first_choice, choose,
}

is_empty-false : (s : Text) → s ≢ [] → is_empty s ≡ false
is_empty-false [] n = absurd (n refl)
is_empty-false (b ∷ s) n = refl

is_private_or_local-host :
    (s : Text)
    → parse_ip s ≡ none
    → has_suffix (to_lower s) (bytes ".local") ≡ false
    → to_lower s ≢ bytes "local"
    → is_private_or_local s ≡ false
unfolding is_private_or_local
is_private_or_local-host s p h l = rw (h, text_eq_ne _ _ l, p) refl

-- What may be asked: 8.8.8.8 where no resolver is named, an enabled resolver of the registry, or a
-- text that is not private or local.
abbrev pub Permitted : {W : Type 0} → Checker W → List Text → LookupRequest → Resolver → Type 0
Permitted c disabled req r =
    ((req.resolver ≡ []) × (r.ip ≡ bytes "8.8.8.8"))
    ⊎ ((get c.registry req.resolver ≡ some r) × (member req.resolver disabled ≡ false)
        ⊎ ((get c.registry req.resolver ≡ none) × (r.ip ≡ req.resolver) × ¬ IsPrivateOrLocal r.ip))

module _ {W : Type 0} (c : Checker W) where
  -- A host name gets past the guard against private addresses: whatever it stands for, a text that is
  -- no address, does not end in `.local`, is not `local`, and is no id of the registry is asked as it
  -- stands.
  choose_host :
      (disabled : List Text) (req : LookupRequest)
      → req.resolver ≢ []
      → get c.registry req.resolver ≡ none
      → parse_ip req.resolver ≡ none
      → has_suffix (to_lower req.resolver) (bytes ".local") ≡ false
      → to_lower req.resolver ≢ bytes "local"
      → (r : Resolver) × (choose c disabled req ≡ ok r) × (r.ip ≡ req.resolver)
  unfolding choose first_choice named_choice custom_choice custom_resolver
  choose_host disabled req n g p s l =
      let open_host = is_private_or_local-host req.resolver p s l in
      (
        custom_resolver req.resolver req.resolver
            (if is_empty req.protocol then c.cfg.default_protocol else req.protocol),
        ap (first_choice c disabled req) (is_empty-false req.resolver n)
            ∙ ap (named_choice c disabled req) g
            ∙ ap (custom_choice c req) open_host,
        refl,
      )
