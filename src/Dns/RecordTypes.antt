-- ===== src/Dns/RecordTypes.antt =====
-- internal/dnsclient/recordtypes.go: the record types that a check may ask for, with the numbers
-- that the DNS registry gives them.
use dnsmon.Base.{ℕ, Option, none, some, List, [], ◌∷◌, Text, bytes, lookup, Bool}

supported_types : List (Text × ℕ)
supported_types =
    (bytes "A", 1)
    ∷ (bytes "AAAA", 28)
    ∷ (bytes "CNAME", 5)
    ∷ (bytes "MX", 15)
    ∷ (bytes "NS", 2)
    ∷ (bytes "PTR", 12)
    ∷ (bytes "SOA", 6)
    ∷ (bytes "TXT", 16)
    ∷ (bytes "CAA", 257)
    ∷ (bytes "SRV", 33)
    ∷ (bytes "DS", 43)
    ∷ (bytes "DNSKEY", 48)
    ∷ (bytes "NAPTR", 35)
    ∷ (bytes "TLSA", 52)
    ∷ (bytes "SVCB", 64)
    ∷ (bytes "HTTPS", 65)
    ∷ []

unfoldable pub parse_type : Text → Option ℕ
unfolding supported_types lookup bytes
parse_type name = lookup name supported_types

-- Whether `_, ok := ParseType(name)` gives `ok`.
unfoldable pub is_supported : Text → Bool
unfolding parse_type
is_supported name = elim (parse_type name) [ none ↦ Bool.false | some n ↦ Bool.true ]
