-- ===== src/Base/Decimal.antt =====
-- `%d` and `strconv.FormatInt(n, 10)` of a number that is not negative, and `strconv.ParseInt`.
use Prim.Native.Nat.{ℕ, zero, suc, ◌+◌, ◌-◌, ◌*◌, ◌/◌, ◌%◌, ◌<◌}
use mathlib.Core.Path.{◌≡◌, refl, ◌∙◌}
use mathlib.Core.Bool.{◌&&◌, false}
use mathlib.Core.Logic.{inl, inr}
use mathlib.Core.List.{[], ◌∷◌, ◌++◌}
use mathlib.Core.Option.{Option, none, some}
use native.Mathlib.Omega.{arith}
use dnsmon.Base.Tests.{ltb, lt→ltb, leb, ◌==◌, if◌then◌else◌, Bool-cases}
use dnsmon.Base.Strings.{Text}

-- The digits, the last one on the right; `n + 1` rounds are enough.
digits_from : ℕ → ℕ → Text → Text
digits_from zero n out = out
digits_from (suc f) n out =
    let rest = digits_from f (n / 10) ((48 + n % 10) ∷ out) in
    if ltb n 10 then (48 + n) ∷ out else rest

unfoldable pub decimal : ℕ → Text
unfolding digits_from
decimal n = digits_from (suc n) n []

-- `none` at an empty text or at a byte that is no digit
parse_digits : ℕ → Text → Option ℕ
parse_digits acc [] = some acc
parse_digits acc (c ∷ s) =
    let rest = parse_digits (acc * 10 + (c - 48)) s in if leb 48 c && leb c 57 then rest else none

unfoldable pub parse_decimal : Text → Option ℕ
unfolding parse_digits
parse_decimal [] = none
parse_decimal (c ∷ s) = parse_digits 0 (c ∷ s)

-- The digits in front of a text set the number with which its parse goes on.
parse_digits-digits_from :
    (f n : ℕ) (out : Text) → n < f → parse_digits 0 (digits_from f n out) ≡ parse_digits n out
unfolding parse_digits digits_from
parse_digits-digits_from zero n out h = absurd (omega arith)
parse_digits-digits_from (suc f) n out h = elim (Bool-cases (ltb n 10)) [
  | inl small ↦ rw small (ground arith)
  | inr large ↦
      rw large
        (parse_digits-digits_from f (n / 10) ((48 + n % 10) ∷ out) (ground arith) ∙ ground arith)
]

parse_digits-decimal : (n : ℕ) → parse_digits 0 (decimal n) ≡ some n
unfolding decimal parse_digits
parse_digits-decimal n = parse_digits-digits_from (suc n) n [] (omega arith)

digits_from-cons :
    (f n : ℕ) (c : ℕ) (out : Text) → (d : ℕ) × (s : Text) × (digits_from f n (c ∷ out) ≡ d ∷ s)
unfolding digits_from
digits_from-cons zero n c out = (c, out, refl)
digits_from-cons (suc f) n c out = elim (Bool-cases (ltb n 10)) [
  | inl small ↦ (48 + n, c ∷ out, rw small)
  | inr large ↦ rw large (digits_from-cons f (n / 10) (48 + n % 10) (c ∷ out))
]

pub decimal-cons : (n : ℕ) → (d : ℕ) × (s : Text) × (decimal n ≡ d ∷ s)
unfolding decimal digits_from
decimal-cons n = elim (Bool-cases (ltb n 10)) [
  | inl small ↦ (48 + n, [], rw small)
  | inr large ↦ rw large (digits_from-cons n (n / 10) (48 + n % 10) [])
]

-- Reading back the digits of a number gives the number.
pub parse_decimal-decimal : (n : ℕ) → parse_decimal (decimal n) ≡ some n
unfolding parse_decimal
parse_decimal-decimal n = let (d, s, e) = decimal-cons n in rw e (rw e at (parse_digits-decimal n))

-- A sign in front of the digits; both bounds are those of an `int64`.
pub data ℤ : Type 0 where
  pos : ℕ → ℤ
  negsuc : ℕ → ℤ

abbrev pub int64_limit : ℕ
int64_limit = 9223372036854775808

positive : ℕ → Option ℤ
positive n = if ltb n int64_limit then some (pos n) else none

negative : ℕ → Option ℤ
negative n =
    if n == 0 then some (pos 0) else if leb n int64_limit then some (negsuc (n - 1)) else none

infixl 5 ◌>>=◌
abbrev ◌>>=◌ : {A B : Type 0} → Option A → (A → Option B) → Option B
none >>= f = none
some a >>= f = f a

unsigned : ℕ → Text → Option ℤ
unsigned c s = parse_decimal (c ∷ s) >>= positive

-- `strconv.ParseInt(s, 10, 64)`, where `none` is an error
unfoldable pub parse_int : Text → Option ℤ
unfolding positive negative unsigned parse_decimal
parse_int [] = none
parse_int (c ∷ s) =
    if c == b'-'
    then parse_decimal s >>= negative
    else if c == b'+'
    then parse_decimal s >>= positive
    else unsigned c s

parse_int-of_digits :
    (c n : ℕ) (s : Text)
    → parse_digits 0 (c ∷ s) ≡ some n
    → n < int64_limit
    → parse_int (c ∷ s) ≡ some (pos n)
unfolding parse_int parse_digits parse_decimal unsigned positive
parse_int-of_digits c n s e h = elim (Bool-cases (leb 48 c && leb c 57)) [
  | inl digit ↦
      let sign : (c == b'-') ≡ false = ground arith in
      let plus : (c == b'+') ≡ false = ground arith in
      rw (sign, plus, e, lt→ltb n int64_limit h) refl
  | inr other ↦ let bad : none ≡ some n = rw other at e in cc
]

-- Reading back the digits of a number that an `int64` holds gives the number.
pub parse_int-decimal : (n : ℕ) → n < int64_limit → parse_int (decimal n) ≡ some (pos n)
parse_int-decimal n h =
    let (d, s, e) = decimal-cons n in
    rw e (parse_int-of_digits d n s (rw e at (parse_digits-decimal n)) h)

parse_digits-bar : (acc : ℕ) (a b : Text) → parse_digits acc (a ++ b'|' ∷ b) ≡ none
unfolding parse_digits
parse_digits-bar acc [] b = ground arith
parse_digits-bar acc (c ∷ a) b = ground (arith, parse_digits-bar (acc * 10 + (c - 48)) a b)

parse_decimal-bar : (a b : Text) → parse_decimal (a ++ b'|' ∷ b) ≡ none
unfolding parse_decimal
parse_decimal-bar [] b = parse_digits-bar 0 [] b
parse_decimal-bar (c ∷ a) b = parse_digits-bar 0 (c ∷ a) b

-- A text with a bar is no number.
pub parse_int-bar : (a b : Text) → parse_int (a ++ b'|' ∷ b) ≡ none
unfolding parse_int unsigned parse_decimal parse_digits
parse_int-bar [] b = refl
parse_int-bar (c ∷ a) b = rw (parse_decimal-bar a b, parse_decimal-bar (c ∷ a) b) (ground arith)
