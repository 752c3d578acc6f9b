-- ===== src/Base/Strings.antt =====
-- Go strings as their bytes, with the functions of the package `strings` that the program calls.
-- Letter case is that of ASCII; white space is Unicode's, in UTF-8.
use Prim.Native.Nat.{ℕ, zero, suc, ◌+◌, ◌-◌, ◌/◌, ◌%◌}
use Prim.Native.Char.{code}
use Prim.Native.String.{String}
use mathlib.Core.Path.{◌≡◌, refl}
use mathlib.Core.Logic.{◌↔◌, ◌≢◌}
use mathlib.Core.Bool.{Bool, true, false, ◌&&◌, ◌||◌}
use mathlib.Core.List.{List, [], ◌∷◌, ◌++◌, map, reverse}
use mathlib.Core.Option
use mathlib.Core.Option.{Option, none, some}
use native.Mathlib.Omega.{arith}
use dnsmon.Base.Tests.{ltb, leb, ◌==◌, if◌then◌else◌}
use dnsmon.Base.Lists.{All}

abbrev pub Text : Type 0
Text = List ℕ

-- The bytes of a code point in UTF-8.
utf8 : ℕ → Text
utf8 c =
    if ltb c 128
    then c ∷ []
    else if ltb c 2048
    then (192 + c / 64) ∷ (128 + c % 64) ∷ []
    else if ltb c 65536
    then (224 + c / 4096) ∷ (128 + c / 64 % 64) ∷ (128 + c % 64) ∷ []
    else (240 + c / 262144) ∷ (128 + c / 4096 % 64) ∷ (128 + c / 64 % 64) ∷ (128 + c % 64) ∷ []

-- A literal of the source.
unfoldable pub bytes : String → Text
unfolding utf8
bytes String.[] = []
bytes (String.◌∷◌ c s) = utf8 (code c) ++ bytes s

-- `a == b`
unfoldable pub text_eq : Text → Text → Bool
text_eq [] [] = true
text_eq [] (y ∷ ys) = false
text_eq (x ∷ xs) [] = false
text_eq (x ∷ xs) (y ∷ ys) = x == y && text_eq xs ys

pub text_eq_iff : (a b : Text) → (text_eq a b ≡ true) ↔ (a ≡ b)
unfolding text_eq
text_eq_iff [] [] = ground arith
text_eq_iff [] (y ∷ ys) = ground arith
text_eq_iff (x ∷ xs) [] = ground arith
text_eq_iff (x ∷ xs) (y ∷ ys) = ground (arith, text_eq_iff xs ys)

pub text_eq_refl : (a : Text) → text_eq a a ≡ true
text_eq_refl a = (text_eq_iff a a).1 refl

pub text_eq_ne : (a b : Text) → a ≢ b → text_eq a b ≡ false
text_eq_ne a b h = ground (arith, text_eq_iff a b)

-- `a <= b`, byte by byte.
unfoldable pub text_le : Text → Text → Bool
text_le [] ys = true
text_le (x ∷ xs) [] = false
text_le (x ∷ xs) (y ∷ ys) = ltb x y || x == y && text_le xs ys

-- `strings.Join(parts, sep)`
unfoldable pub join : Text → List Text → Text
join sep [] = []
join sep (p ∷ []) = p
join sep (p ∷ q ∷ ps) = p ++ sep ++ join sep (q ∷ ps)

-- `strings.HasPrefix(s, prefix)`
unfoldable pub has_prefix : Text → Text → Bool
has_prefix s [] = true
has_prefix [] (p ∷ ps) = false
has_prefix (c ∷ s) (p ∷ ps) = c == p && has_prefix s ps

-- `strings.HasSuffix(s, suffix)`
unfoldable pub has_suffix : Text → Text → Bool
unfolding has_prefix
has_suffix s suffix = has_prefix (reverse s) (reverse suffix)

-- `strings.Contains(s, sub)`
unfoldable pub contains_text : Text → Text → Bool
unfolding has_prefix
contains_text [] sub = has_prefix [] sub
contains_text (c ∷ s) sub = has_prefix (c ∷ s) sub || contains_text s sub

-- `strings.ToLower(s)`
unfoldable pub lower_byte : ℕ → ℕ
lower_byte c = if leb b'A' c && leb c b'Z' then c + 32 else c

unfoldable pub to_lower : Text → Text
unfolding lower_byte
to_lower s = map lower_byte s

-- `strings.ToUpper(s)`
unfoldable pub upper_byte : ℕ → ℕ
upper_byte c = if leb b'a' c && leb c b'z' then c - 32 else c

unfoldable pub to_upper : Text → Text
unfolding upper_byte
to_upper s = map upper_byte s

-- White space in one byte.
unfoldable pub is_space : ℕ → Bool
is_space c = leb 9 c && leb c 13 || c == 32

unfoldable pub trim_left : (ℕ → Bool) → Text → Text
trim_left p [] = []
trim_left p (c ∷ s) = if p c then trim_left p s else c ∷ s

-- The white space of Unicode that UTF-8 writes in two bytes, and in three.
unfoldable pub is_wide_space : ℕ → ℕ → Bool
is_wide_space b c = b == 194 && (c == 133 || c == 160)

unfoldable pub is_wider_space : ℕ → ℕ → ℕ → Bool
is_wider_space b c d =
    b == 225 && c == 154 && d == 128
    || b == 226 && c == 128 && (leb 128 d && leb d 138 || d == 168 || d == 169 || d == 175)
    || b == 226 && c == 129 && d == 159
    || b == 227 && c == 128 && d == 128

-- The bytes of the white space in front, and of that at the end of a text that is given backwards.
unfoldable pub front_space : Text → ℕ
unfolding is_space is_wide_space is_wider_space
front_space [] = 0
front_space (b ∷ []) = if is_space b then 1 else 0
front_space (b ∷ c ∷ []) = if is_space b then 1 else if is_wide_space b c then 2 else 0
front_space (b ∷ c ∷ d ∷ s) =
    if is_space b then 1 else if is_wide_space b c then 2 else if is_wider_space b c d then 3 else 0

unfoldable pub end_space : Text → ℕ
unfolding is_space is_wide_space is_wider_space
end_space [] = 0
end_space (b ∷ []) = if is_space b then 1 else 0
end_space (b ∷ c ∷ []) = if is_space b then 1 else if is_wide_space c b then 2 else 0
end_space (b ∷ c ∷ d ∷ s) =
    if is_space b then 1 else if is_wide_space c b then 2 else if is_wider_space d c b then 3 else 0

-- Drops `k` bytes, and then white space as long as there is some.
unfoldable pub trim_by : (Text → ℕ) → ℕ → Text → Text
trim_by width k [] = []
trim_by width (suc k) (c ∷ s) = trim_by width k s
trim_by width zero (c ∷ s) = elim (width (c ∷ s)) [ zero ↦ c ∷ s | suc k ↦ trim_by width k s ]

-- `strings.TrimSpace(s)`
unfoldable pub trim_space : Text → Text
unfolding trim_by front_space end_space
trim_space s = reverse (trim_by end_space 0 (reverse (trim_by front_space 0 s)))

-- `strings.TrimSuffix(s, ".")`: one dot at the end.
drop_dot : Text → Text
drop_dot [] = []
drop_dot (c ∷ s) = if c == b'.' then s else c ∷ s

unfoldable pub trim_dot : Text → Text
unfolding drop_dot
trim_dot s = reverse (drop_dot (reverse s))

-- `strings.Cut(s, sep)` at a separator of one byte: the text before and after its first occurrence.
unfoldable pub cut : ℕ → Text → Option (Text × Text)
cut sep [] = none
cut sep (c ∷ s) =
    let rest = Option.map (λ (p : Text × Text). (c ∷ p.0, p.1)) (cut sep s) in
    if c == sep then some ([], s) else rest

abbrev pub NoByte : ℕ → Text → Type 0
NoByte b s = All (λ c. c ≢ b) s

-- A text without the separator in front of it is cut off whole.
pub cut-append : (sep : ℕ) (a b : Text) → NoByte sep a → cut sep (a ++ sep ∷ b) ≡ some (a, b)
unfolding cut
cut-append sep [] b h = ground arith
cut-append sep (c ∷ a) b h = ground (arith, cut-append sep a b h.1)

-- A byte in front of the first piece.
onto_first : ℕ → List Text → List Text
onto_first c [] = (c ∷ []) ∷ []
onto_first c (p ∷ ps) = (c ∷ p) ∷ ps

-- `strings.Split(s, sep)` at a separator of one byte
unfoldable pub split : ℕ → Text → List Text
unfolding onto_first
split sep [] = [] ∷ []
split sep (c ∷ s) = let rest = split sep s in if c == sep then [] ∷ rest else onto_first c rest

-- A text without the separator in front of it is a piece of its own, as it is alone.
pub split-append :
    (sep : ℕ) (a b : Text) → NoByte sep a → split sep (a ++ sep ∷ b) ≡ a ∷ split sep b
unfolding split
split-append sep [] b h = ground arith
split-append sep (c ∷ a) b h = ground (arith, split-append sep a b h.1)

pub split-NoByte : (sep : ℕ) (a : Text) → NoByte sep a → split sep a ≡ a ∷ []
unfolding split
split-NoByte sep [] h = refl
split-NoByte sep (c ∷ a) h = ground (arith, split-NoByte sep a h.1)
