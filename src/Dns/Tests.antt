-- ===== src/Dns/Tests.antt =====
-- Addresses that `net.ParseIP` reads, and texts that are none.
use dnsmon.Base.{◌≡◌, refl, ◌∷◌, [], some, none, bytes}
use dnsmon.Dns.Ip.{v4, v6, parse_ip}

loopback_v6 :
    parse_ip (bytes "::1")
    ≡ some (v6 (0 ∷ 0 ∷ 0 ∷ 0 ∷ 0 ∷ 0 ∷ 0 ∷ 0 ∷ 0 ∷ 0 ∷ 0 ∷ 0 ∷ 0 ∷ 0 ∷ 0 ∷ 1 ∷ []))
unfolding parse_ip
loopback_v6 = refl

mapped : parse_ip (bytes "::ffff:10.1.2.3") ≡ some (v4 10 1 2 3)
unfolding parse_ip
mapped = refl

no_host : parse_ip (bytes "localhost") ≡ none
unfolding parse_ip
no_host = refl

full :
    parse_ip (bytes "2001:db8::a:1")
    ≡ some (v6 (32 ∷ 1 ∷ 13 ∷ 184 ∷ 0 ∷ 0 ∷ 0 ∷ 0 ∷ 0 ∷ 0 ∷ 0 ∷ 0 ∷ 0 ∷ 10 ∷ 0 ∷ 1 ∷ []))
unfolding parse_ip
full = refl
