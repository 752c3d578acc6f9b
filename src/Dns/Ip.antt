-- ===== src/Dns/Ip.antt =====
-- Addresses as `net.ParseIP` reads them, and the tests of them that the program calls. An address
-- that holds an IPv4 address inside IPv6 (`::ffff:a.b.c.d`) is the IPv4 address, as for `To4`.
use mathlib.Core.Option
use dnsmon.Base.{
  ℕ, zero, suc, ◌+◌, ◌-◌, ◌*◌, ◌/◌, ◌%◌, Option, none, some, List, [], ◌∷◌, ◌++◌, Text, bytes, Bool,
  true, false, not, ◌&&◌, ◌||◌, ltb, leb, ◌==◌, if◌then◌else◌, length, take, drop, get_elem?,
  is_empty, has_prefix, text_eq,
}

is_none : Option ℕ → Bool
is_none none = true
is_none (some n) = false

pub data Ip : Type 0 where
  v4 : (a b c d : ℕ) → Ip
  v6 : List ℕ → Ip

-- The fields of an IPv4 address: `val` and `len` are the number read so far and its digits.
fields : ℕ → ℕ → List ℕ → Text → Option (List ℕ)
fields val len out [] = if len == 0 then none else some (out ++ val ∷ [])
fields val len out (c ∷ s) =
    let digit = fields (val * 10 + (c - 48)) (len + 1) out s in
    let next = fields 0 0 (out ++ val ∷ []) s in
    if leb 48 c && leb c 57
    then (if len == 1 && val == 0 || ltb 255 (val * 10 + (c - 48)) then none else digit)
    else if c == b'.' && not (len == 0)
    then next
    else none

parse_v4 : Text → Option Ip
unfolding fields
parse_v4 s = elim (fields 0 0 [] s) [ some (a ∷ b ∷ c ∷ d ∷ []) ↦ some (v4 a b c d) | _ ↦ none ]

hex_digit : ℕ → Option ℕ
hex_digit c =
    if leb 48 c && leb c 57
    then some (c - 48)
    else if leb b'a' c && leb c b'f'
    then some (c - 87)
    else if leb b'A' c && leb c b'F'
    then some (c - 55)
    else none

-- One group of an IPv6 address: its value, its digits and what follows; `none` past four digits.
group : ℕ → ℕ → Text → Option (ℕ × ℕ × Text)
group acc off [] = some (acc, off, [])
group acc off (c ∷ s) =
    let more = λ (h : ℕ). group (acc * 16 + h) (off + 1) s in
    elim (hex_digit c) [
      | none ↦ some (acc, off, c ∷ s)
      | some h ↦ if ltb 3 off then none else more h
    ]

zeros : ℕ → List ℕ
zeros zero = []
zeros (suc n) = 0 ∷ zeros n

-- The end of the text: a `::` in front of the byte number `at` fills the address up to 16 bytes.
close : Option ℕ → List ℕ → Option (List ℕ)
unfolding zeros
close none out = if length out == 16 then some out else none
close (some at) out =
    if ltb (length out) 16
    then some (take at out ++ zeros (16 - length out) ++ drop at out)
    else none

-- An IPv4 address in the last four bytes.
close_v4 : Option ℕ → List ℕ → Text → Option (List ℕ)
unfolding close fields
close_v4 ellipsis out s =
    if is_none ellipsis && not (length out == 12) || ltb 12 (length out)
    then none
    else elim (fields 0 0 [] s) [
      | some (a ∷ b ∷ c ∷ d ∷ []) ↦ close ellipsis (out ++ a ∷ b ∷ c ∷ d ∷ [])
      | _ ↦ none
    ]

-- What follows the colon behind a group; `next` reads the groups that are left.
colon : (Option ℕ → List ℕ → Text → Option (List ℕ)) → Option ℕ → List ℕ → Text → Option (List ℕ)
unfolding close
colon next ellipsis out [] = none
colon next ellipsis out (c ∷ s) =
    if not (c == b':')
    then next ellipsis out (c ∷ s)
    else if not (is_none ellipsis)
    then none
    else if is_empty s
    then close (some (length out)) out
    else next (some (length out)) out s

-- The groups of an IPv6 address; the nine rounds of fuel are more than its eight groups.
groups : ℕ → Option ℕ → List ℕ → Text → Option (List ℕ)
unfolding group hex_digit is_none close close_v4 colon
groups zero ellipsis out s = none
groups (suc f) ellipsis out s =
    let next = groups f in
    if leb 16 (length out) then none else elim (group 0 0 s) [
      | none ↦ none
      | some (acc, off, []) ↦
          if off == 0 then none else close ellipsis (out ++ acc / 256 ∷ acc % 256 ∷ [])
      | some (acc, off, c ∷ r) ↦
          if off == 0
          then none
          else if c == b'.'
          then close_v4 ellipsis out s
          else if c == b':'
          then colon next ellipsis (out ++ acc / 256 ∷ acc % 256 ∷ []) r
          else none
    ]

of_bytes : List ℕ → Ip
of_bytes (z ∷ y ∷ x ∷ w ∷ v ∷ u ∷ t ∷ s ∷ r ∷ q ∷ m ∷ n ∷ a ∷ b ∷ c ∷ d ∷ []) =
    if z + y + x + w + v + u + t + s + r + q == 0 && m == 255 && n == 255
    then v4 a b c d
    else v6 (z ∷ y ∷ x ∷ w ∷ v ∷ u ∷ t ∷ s ∷ r ∷ q ∷ m ∷ n ∷ a ∷ b ∷ c ∷ d ∷ [])
of_bytes other = v6 other

-- A leading `::` is taken off before the first group.
parse_v6 : Text → Option Ip
unfolding groups of_bytes zeros
parse_v6 s = Option.map of_bytes (
    if not (has_prefix s (bytes "::"))
    then groups 9 none [] s
    else if is_empty (drop 2 s)
    then some (zeros 16)
    else groups 9 (some 0) [] (drop 2 s))

-- The first of the bytes `.`, `:` and `%` tells the kind of address; a zone (`%`) is refused.
parse_from : Text → Text → Option Ip
unfolding parse_v4 parse_v6
parse_from whole [] = none
parse_from whole (c ∷ s) =
    if c == b'.'
    then parse_v4 whole
    else if c == b':'
    then parse_v6 whole
    else if c == b'%'
    then none
    else parse_from whole s

-- `net.ParseIP(s)`
unfoldable pub parse_ip : Text → Option Ip
unfolding parse_from has_prefix bytes
parse_ip s = parse_from s s

byte : List ℕ → ℕ → ℕ
byte s i = elim (get_elem? s i) [ none ↦ 0 | some b ↦ b ]

-- `ip.IsLoopback()`: 127/8 and ::1
unfoldable pub is_loopback : Ip → Bool
unfolding zeros
is_loopback (v4 a b c d) = a == 127
is_loopback (v6 s) = text_eq s (zeros 15 ++ 1 ∷ [])

-- `ip.IsPrivate()`: 10/8, 172.16/12, 192.168/16 and fc00::/7
unfoldable pub is_private : Ip → Bool
unfolding byte
is_private (v4 a b c d) = a == 10 || a == 172 && b / 16 == 1 || a == 192 && b == 168
is_private (v6 s) = byte s 0 / 2 == 126

-- `ip.IsLinkLocalUnicast()`: 169.254/16 and fe80::/10
unfoldable pub is_link_local_unicast : Ip → Bool
unfolding byte
is_link_local_unicast (v4 a b c d) = a == 169 && b == 254
is_link_local_unicast (v6 s) = byte s 0 == 254 && byte s 1 / 64 == 2

-- `ip.IsLinkLocalMulticast()`: 224.0.0/24 and ff02::/16
unfoldable pub is_link_local_multicast : Ip → Bool
unfolding byte
is_link_local_multicast (v4 a b c d) = a == 224 && b == 0 && c == 0
is_link_local_multicast (v6 s) = byte s 0 == 255 && byte s 1 % 16 == 2
