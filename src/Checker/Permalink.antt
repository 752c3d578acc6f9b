-- ===== src/Checker/Permalink.antt =====
-- internal/checker/permalink.go: the id of a check, eight digits in base 62 of the first eight bytes
-- of a digest. The SHA-256 function is an argument.
pub mod Digits
use dnsmon.Base.{
  ℕ, zero, suc, ◌+◌, ◌*◌, ◌/◌, ◌%◌, ◌^◌, List, [], ◌∷◌, ◌++◌, Option, none, some, Text, bytes,
  decimal, get_elem?, take,
}

base62chars : Text
unfolding bytes
base62chars = bytes "0123456789ABCDEFGHIJKLMNOPQRSTUVWXYZabcdefghijklmnopqrstuvwxyz"

-- `base62chars[i]`; every use has `i < 62`
base62_char : ℕ → ℕ
unfolding base62chars
base62_char i = elim (get_elem? base62chars i) [ none ↦ 0 | some c ↦ c ]

-- `n = (n << 8) | uint64(sum[i])` over the bytes, in 64 bits
unfoldable pub word_from : ℕ → List ℕ → ℕ
word_from n [] = n
word_from n (b ∷ bs) = word_from ((n * 256 + b) % 2 ^ 64) bs

-- The loop from the last digit to the first; `out` holds the digits behind it.
unfoldable pub digits62 : ℕ → ℕ → Text → Text
unfolding base62_char
digits62 zero n out = out
digits62 (suc k) n out = digits62 k (n / 62) (base62_char (n % 62) ∷ out)

-- `NewID(name, qtype)` at the time `now`
unfoldable pub new_id : (Text → List ℕ) → Text → Text → ℕ → Text
unfolding word_from digits62 bytes decimal
new_id sha256 name qtype now =
    let sum = sha256 (name ++ bytes "|" ++ qtype ++ bytes "|" ++ decimal now) in
    digits62 8 (word_from 0 (take 8 sum)) []
