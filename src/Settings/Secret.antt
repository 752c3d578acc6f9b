-- ===== src/Settings/Secret.antt =====
-- internal/settings/secret.go. Argon2, `fmt.Sscanf` and the two encodings are arguments; `none` is an
-- error, which the callers only pass on as such.
pub mod Passwords
use dnsmon.Base.{
  ℕ, ℤ, pos, negsuc, List, [], ◌∷◌, ◌++◌, Option, none, some, Bool, true, false, Text, bytes, split,
  text_eq, length, if◌then◌else◌, ◌==◌,
}
use dnsmon.World.{Action, ◌>>=◌, pure, Machine}

-- `argon2.IDKey` on the secret, the salt, the time, the memory, the threads and the length of the key;
-- `base64.RawStdEncoding` and `base64.RawURLEncoding`; and what `Sscanf` reads of a text for `v=%d` and
-- for `m=%d,t=%d,p=%d`.
pub record Hashing : Type 0 where
  pub id_key : Text → Text → ℕ → ℕ → ℕ → ℕ → Text
  pub encode_std : Text → Text
  pub decode_std : Text → Option Text
  pub encode_url : Text → Text
  pub scan_version : Text → Option ℤ
  pub scan_parameters : Text → Option (ℕ × ℕ × ℕ)

-- The key with the parameters of the code.
unfoldable pub key_of : Hashing → Text → Text → Text
key_of c secret salt = c.id_key secret salt 1 65536 4 32

hashed : Hashing → Text → Option Text → Option Text
unfolding bytes key_of
hashed c secret none = none
hashed c secret (some salt) = some (
    bytes "$argon2id$v=19$m=65536,t=1,p=4$"
    ++ c.encode_std salt
    ++ b'$' ∷ c.encode_std (key_of c secret salt))

-- `HashSecret(secret)`, with a salt of 16 bytes
unfoldable pub hash_secret : {W : Type 0} → Machine W → Hashing → Text → Action W (Option Text)
unfolding hashed
hash_secret machine c secret = do salt ← machine.random 16; pure (hashed c secret salt)

-- `version != argon2.Version`
is_current : Option ℤ → Bool
is_current (some (pos n)) = n == 19
is_current _ = false

verify_decoded : Hashing → Text → ℕ × ℕ × ℕ → Option Text → Option Text → Bool
unfolding text_eq
verify_decoded c secret (memory, time, threads) (some salt) (some want) =
    text_eq (c.id_key secret salt time memory threads (length want)) want
verify_decoded c secret p _ _ = false

verify_scanned : Hashing → Text → Option (ℕ × ℕ × ℕ) → Text → Text → Bool
unfolding verify_decoded
verify_scanned c secret none salt hash = false
verify_scanned c secret (some p) salt hash =
    verify_decoded c secret p (c.decode_std salt) (c.decode_std hash)

-- `VerifySecret` behind the split at the dollar signs.
verify_parts : Hashing → Text → List Text → Bool
unfolding text_eq bytes is_current verify_scanned
verify_parts c secret (front ∷ kind ∷ version ∷ parameters ∷ salt ∷ hash ∷ []) =
    if text_eq kind (bytes "argon2id")
    then if is_current (c.scan_version version)
      then verify_scanned c secret (c.scan_parameters parameters) salt hash
      else false
    else false
verify_parts c secret _ = false

-- `VerifySecret(secret, encoded)`; the comparison in constant time is an equality.
unfoldable pub verify_secret : Hashing → Text → Text → Bool
unfolding split verify_parts
verify_secret c secret encoded = verify_parts c secret (split b'$' encoded)

encoded : Hashing → Option Text → Option Text
encoded c none = none
encoded c (some raw) = some (c.encode_url raw)

-- `GenerateToken()`
unfoldable pub generate_token : {W : Type 0} → Machine W → Hashing → Action W (Option Text)
unfolding encoded
generate_token machine c = do raw ← machine.random 32; pure (encoded c raw)
