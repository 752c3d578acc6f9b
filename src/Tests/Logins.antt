-- ===== src/Tests/Logins.antt =====
-- The hash of a password, and a login with it.
use dnsmon.Base.{
  ℕ, zero, suc, ◌+◌, ◌-◌, ◌≡◌, refl, ap, [], ◌∷◌, map, Option, some, none, true, Text, bytes, arith,
  NoByte, length, text_eq, pos, if◌then◌else◌,
}
use dnsmon.World.{ok, Storage, Machine}
use dnsmon.Settings.Secret.{Hashing, key_of, hash_secret, verify_secret}
use dnsmon.Settings.Secret.Passwords.{IsHashing, verify_secret-hash_secret}
use dnsmon.Api.Login.{LoginRequest, Cookie, login}
use dnsmon.Api.Login.Proven.{Proven, login-Proven}
use dnsmon.Tests.Sessions.{signing, unshift}
use dnsmon.Tests.Fixtures.{World, settings, storage}

-- The first bytes of a text, with zeros behind it where it is shorter.
abbrev fit : ℕ → Text → Text
fit zero s = []
fit (suc n) [] = 0 ∷ fit n []
fit (suc n) (c ∷ s) = c ∷ fit n s

length-fit : (n : ℕ) (s : Text) → length (fit n s) ≡ n
length-fit zero s = refl
length-fit (suc n) [] = ap suc (length-fit n [])
length-fit (suc n) (c ∷ s) = ap suc (length-fit n s)

abbrev pub hashing : Hashing
hashing = record {
  id_key = λ secret salt time memory threads n. fit n secret;
  encode_std = λ s. map (λ (c : ℕ). c + 47) s;
  decode_std = λ s. some (map (λ (c : ℕ). c - 47) s);
  encode_url = λ s. s;
  scan_version = λ s. if text_eq s (bytes "v=19") then some (pos 19) else none;
  scan_parameters = λ s. if text_eq s (bytes "m=65536,t=1,p=4") then some (65536, 1, 4) else none;
}

no_dollar : (s : Text) → NoByte b'$' (map (λ (c : ℕ). c + 47) s)
no_dollar [] = tt
no_dollar (c ∷ s) = (λ e. omega (arith, e), no_dollar s)

hashing-IsHashing : IsHashing hashing
unfolding bytes text_eq
hashing-IsHashing = record {
  decodes = λ s. ap some (unshift s);
  plain = no_dollar;
  sized = λ secret salt time memory threads n. length-fit n secret;
  version = refl;
  parameters = refl;
}

abbrev salted : Machine World
salted = record { now = λ w. (w.0, (suc w.0, w.1)); random = λ n w. (some (bytes "salt"), w) }

abbrev kept_hash : Text
unfolding bytes
kept_hash = elim (hash_secret salted hashing (bytes "secret") (5, [])).0 [ none ↦ [] | some h ↦ h ]

verify_secret-hash_secret_example :
    (salt : Text) × (some (bytes "salt") ≡ some salt)
    × (verify_secret hashing (bytes "secret") kept_hash ≡ true)
    × (verify_secret hashing (bytes "guess") kept_hash
        ≡ text_eq (key_of hashing (bytes "guess") salt) (key_of hashing (bytes "secret") salt))
unfolding hash_secret bytes
verify_secret-hash_secret_example =
    verify_secret-hash_secret hashing hashing-IsHashing salted (bytes "secret") (bytes "guess")
      kept_hash (5, []) refl

abbrev protected : Storage World
protected = record storage {
  get_settings = λ w. (
    ok (record settings {
      auth = record { enabled = true; username = bytes "admin"; password_hash = kept_hash };
    }),
    w,
  );
}

abbrev wanted : LoginRequest
wanted = record { username = bytes "admin"; password = bytes "secret" }

abbrev cookie_of : Option Cookie → Cookie
cookie_of none = record { value = []; max_age = pos 0; expires = 0 }
cookie_of (some k) = k

abbrev given : Cookie
given = cookie_of (login protected salted signing hashing (some wanted) (5, [])).0.1

login-Proven_example : Proven protected salted signing hashing wanted (5, []) given
unfolding login bytes hash_secret dnsmon.Settings.default_settings
login-Proven_example = login-Proven protected salted signing hashing wanted given (5, []) refl
