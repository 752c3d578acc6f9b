-- ===== src/Export/Svg.antt =====
-- internal/export/svg.go: the markers of the map. Where a marker stands, `mercatorProject` in the format
-- `%.1f`, is an argument, as is the order in which Go ranges over the consensus.
use dnsmon.Base.{
  ℕ, List, [], ◌∷◌, ◌++◌, Text, bytes, is_empty, text_eq, ltb, ◌==◌, not, ◌&&◌, if◌then◌else◌, Bool,
  true, false,
}
use dnsmon.Dns.{Status, Answer, Resolver, ResolverResult, Check}
use dnsmon.Checker.Summary.{Iterate}
use dnsmon.Export.{status_text}

-- The first of the most frequent answers, in the order of the range.
consensus_from : Text → ℕ → List (Text × ℕ) → Text
consensus_from best most [] = best
consensus_from best most (e ∷ m) =
    if ltb most e.1 then consensus_from e.0 e.1 m else consensus_from best most m

unfoldable consensus_answer : Iterate → Check → Text
unfolding consensus_from
consensus_answer iterate check = consensus_from [] 0 (iterate check.summary.consensus)

first_value : List Answer → Text
first_value [] = []
first_value (a ∷ answers) = a.value

is_ok : Status → Bool
is_ok Status.ok = true
is_ok _ = false

-- `markerColor`
marker_color : ResolverResult → Text → Text
unfolding is_ok first_value text_eq bytes
marker_color r consensus =
    if not (is_ok r.status)
    then bytes "#fc8181"
    else if not (is_empty consensus) && text_eq (first_value r.answers) consensus
    then bytes "#48bb78"
    else bytes "#ed8936"

-- `strings.ReplaceAll` of one byte
replace_all : ℕ → Text → Text → Text
replace_all b new [] = []
replace_all b new (c ∷ s) =
    let rest = replace_all b new s in if c == b then new ++ rest else c ∷ rest

-- `escapeXML`
escape_xml : Text → Text
unfolding replace_all bytes
escape_xml s = replace_all b'"' (bytes "&quot;") (
    replace_all b'>' (bytes "&gt;")
      (replace_all b'<' (bytes "&lt;") (replace_all b'&' (bytes "&amp;") s)))

marker_title : ResolverResult → Text
unfolding status_text first_value bytes
marker_title r =
    r.resolver.name
    ++ bytes " ("
    ++ r.resolver.country
    ++ bytes ") - "
    ++ status_text r.status
    ++ bytes ": "
    ++ first_value r.answers

-- The `circle` of a result.
unfoldable marker : (Resolver → Text × Text) → Text → ResolverResult → Text
unfolding marker_color escape_xml marker_title bytes
marker place consensus r =
    bytes "<circle cx=\""
    ++ (place r.resolver).0
    ++ bytes "\" cy=\""
    ++ (place r.resolver).1
    ++ bytes "\" r=\"5\" fill=\""
    ++ marker_color r consensus
    ++ bytes "\" stroke=\"#fff\" stroke-width=\"0.5\" opacity=\"0.9\"><title>"
    ++ escape_xml (marker_title r)
    ++ bytes "</title></circle>"
