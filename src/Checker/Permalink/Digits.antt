-- ===== src/Checker/Permalink/Digits.antt =====
-- The digits of an id stand for the number that they were made of.
use mathlib.Core.Bool.{and-eq-true_iff}
use native.Mathlib.Nat.{pow-suc, mod-lt, mod-eq_of_lt, mul-add-mod_self_left, div-add-mod}
use dnsmon.Base.{
  ℕ, zero, suc, ◌+◌, ◌-◌, ◌*◌, ◌/◌, ◌%◌, ◌^◌, ◌<◌, ◌≡◌, refl, sym, ◌∙◌, ap, List, [], ◌∷◌, ◌++◌,
  Text, arith, All, length, leb, ◌==◌, ==_iff, Bool, true, ◌&&◌, if◌then◌else◌, take, bytes,
  decimal,
}
use dnsmon.Checker.Request.{is_domain_byte}
use dnsmon.Checker.Permalink.{base62_char, digits62, word_from, new_id}

-- The value of a digit of base 62.
value62 : ℕ → ℕ
value62 c = if leb c b'9' then c - b'0' else if leb c b'Z' then c - b'A' + 10 else c - b'a' + 36

-- The number that digits stand for, the first one the greatest.
unfoldable pub number62 : ℕ → Text → ℕ
unfolding value62
number62 n [] = n
number62 n (c ∷ s) = number62 (n * 62 + value62 c) s

-- The test holds for the `k` numbers from `start` on.
holds_from : (ℕ → Bool) → ℕ → ℕ → Bool
holds_from test start zero = true
holds_from test start (suc k) = test start && holds_from test (suc start) k

holds_from-at :
    (test : ℕ → Bool) (start k d y : ℕ)
    → y ≡ start + d
    → holds_from test start k ≡ true
    → d < k
    → test y ≡ true
unfolding holds_from
holds_from-at test start zero d y same e h = absurd (omega arith)
holds_from-at test start (suc k) zero y same e h =
    ap test (omega arith) ∙ ((and-eq-true_iff (test start) (holds_from test (suc start) k)).0 e).0
holds_from-at test start (suc k) (suc d) y same e h =
    holds_from-at test (suc start) k d y (omega arith)
      ((and-eq-true_iff (test start) (holds_from test (suc start) k)).0 e).1 (omega arith)

char_test : ℕ → Bool
char_test x = value62 (base62_char x) == x && is_domain_byte (base62_char x)

char_table : holds_from char_test 0 62 ≡ true
unfolding holds_from char_test value62 base62_char is_domain_byte
char_table = refl

base62_char_lem :
    (x : ℕ) → x < 62 → (value62 (base62_char x) ≡ x) × (is_domain_byte (base62_char x) ≡ true)
unfolding char_test
base62_char_lem x h = split (holds_from-at char_test 0 62 x x (omega arith) char_table h)
  where
    split :
        char_test x ≡ true → (value62 (base62_char x) ≡ x) × (is_domain_byte (base62_char x) ≡ true)
    split e =
        let both =
          and-eq-true_iff (value62 (base62_char x) == x) (is_domain_byte (base62_char x)) in
        ((==_iff _ _).0 (both.0 e).0, (both.0 e).1)

mod_step : (n m p : ℕ) → 0 < p → (m * p + n / 62 % p) * 62 + n % 62 ≡ m * (p * 62) + n % (p * 62)
mod_step n m p h =
    let q = n / 62 in
    let s = q / p in
    let t = q % p in
    let low : t * 62 + n % 62 < p * 62 = omega (arith, mod-lt q h) in
    let whole : n ≡ p * 62 * s + (t * 62 + n % 62) =
      omega (arith, div-add-mod n 62, ap (λ (x : ℕ). x * 62) (div-add-mod q p)) in
    let rest : n % (p * 62) ≡ t * 62 + n % 62 =
      ap (λ (x : ℕ). x % (p * 62)) whole
      ∙ mul-add-mod_self_left (p * 62) s (t * 62 + n % 62)
      ∙ mod-eq_of_lt low in
    omega (arith, rest)

pow_pos : (k : ℕ) → 0 < 62 ^ k
pow_pos zero = omega arith
pow_pos (suc k) = omega (arith, pow-suc 62 k, pow_pos k)

number62-digits62 :
    (k n m : ℕ) (out : Text)
    → number62 m (digits62 k n out) ≡ number62 (m * 62 ^ k + n % 62 ^ k) out
unfolding digits62
number62-digits62 zero n m out = ap (λ t. number62 t out) (omega arith)
number62-digits62 (suc k) n m out =
    number62-digits62 k (n / 62) m (base62_char (n % 62) ∷ out)
    ∙ (unfold number62 in
        ap (λ t. number62 t out)
          (ap (λ t. (m * 62 ^ k + n / 62 % 62 ^ k) * 62 + t)
              (base62_char_lem (n % 62) (omega arith)).0
            ∙ mod_step n m (62 ^ k) (pow_pos k)
            ∙ ap (λ (p : ℕ). m * p + n % p) (sym (pow-suc 62 k))))

All-digits62 :
    (k n : ℕ) (out : Text)
    → All (λ c. is_domain_byte c ≡ true) out
    → All (λ c. is_domain_byte c ≡ true) (digits62 k n out)
unfolding digits62
All-digits62 zero n out h = h
All-digits62 (suc k) n out h =
    All-digits62 k (n / 62) (base62_char (n % 62) ∷ out)
      ((base62_char_lem (n % 62) (omega arith)).1, h)

length-digits62 : (k n : ℕ) (out : Text) → length (digits62 k n out) ≡ k + length out
unfolding digits62
length-digits62 zero n out = omega arith
length-digits62 (suc k) n out =
    omega (arith, length-digits62 k (n / 62) (base62_char (n % 62) ∷ out))

-- The number that bytes stand for, the first one the greatest.
unfoldable pub number256 : List ℕ → ℕ
number256 [] = 0
number256 (b ∷ bs) = b * 256 ^ length bs + number256 bs

mod_scale : (a p v m : ℕ) → 0 < m → (a % m * p + v) % m ≡ (a * p + v) % m
mod_scale a p v m h =
    let whole : a * p + v ≡ m * (a / m * p) + (a % m * p + v) =
      omega (arith, ap (λ (x : ℕ). x * p) (div-add-mod a m)) in
    sym (ap (λ (x : ℕ). x % m) whole ∙ mul-add-mod_self_left m (a / m * p) (a % m * p + v))

word_from-number256 :
    (n : ℕ) (bs : List ℕ)
    → n < 2 ^ 64
    → word_from n bs ≡ (n * 256 ^ length bs + number256 bs) % 2 ^ 64
unfolding word_from number256
word_from-number256 n [] h = omega arith
word_from-number256 n (b ∷ bs) h =
    word_from-number256 ((n * 256 + b) % 2 ^ 64) bs (omega arith)
    ∙ mod_scale (n * 256 + b) (256 ^ length bs) (number256 bs) (2 ^ 64) (omega arith)
    ∙ ap (λ (x : ℕ). x % 2 ^ 64) (omega (arith, ap (λ (x : ℕ). n * x) (pow-suc 256 (length bs))))

-- An id has eight characters, each of which a domain name may hold too, so it needs no escape in a
-- URL. Read in base 62 they are a number modulo 62 ^ 8: that which the first eight bytes of the digest
-- of name, type and time make in base 256, the first byte the greatest, in 64 bits.
pub new_id-number62 :
    (sha256 : Text → List ℕ) (name qtype : Text) (now : ℕ)
    → let id = new_id sha256 name qtype now in
      let digest = sha256 (name ++ bytes "|" ++ qtype ++ bytes "|" ++ decimal now) in
      (length id ≡ 8)
      × All (λ c. is_domain_byte c ≡ true) id
      × (number62 0 id ≡ number256 (take 8 digest) % 2 ^ 64 % 62 ^ 8)
unfolding new_id
new_id-number62 sha256 name qtype now =
    let first = take 8 (sha256 (name ++ bytes "|" ++ qtype ++ bytes "|" ++ decimal now)) in
    let n = word_from 0 first in
    (
      length-digits62 8 n [],
      All-digits62 8 n [] tt,
      number62-digits62 8 n 0 []
          ∙ (unfold number62 in omega (arith, word_from-number256 0 first (omega arith))),
    )
