-- ===== src/Settings/Secret/Passwords.antt =====
-- The hash of a secret verifies that secret.
use dnsmon.Base.{
  ℕ, pos, ◌≡◌, refl, sym, ap, ◌∙◌, [], ◌∷◌, ◌++◌, Option, none, some, true, false, Text, bytes,
  split, split-append, split-NoByte, NoByte, text_eq, text_eq_refl, length, if◌then◌else◌,
}
use dnsmon.World.{Machine}
use dnsmon.Settings.Secret.{
  Hashing, key_of, hashed, hash_secret, verify_secret, verify_parts, verify_scanned, verify_decoded,
  is_current,
}

-- The encoding can be undone and has no dollar sign, a key has the length that is asked for, and
-- `Sscanf` reads the numbers that `HashSecret` writes.
pub record IsHashing (c : Hashing) : Type 0 where
  pub decodes : (s : Text) → c.decode_std (c.encode_std s) ≡ some s
  pub plain : (s : Text) → NoByte b'$' (c.encode_std s)
  pub sized :
      (secret salt : Text) (time memory threads n : ℕ)
      → length (c.id_key secret salt time memory threads n) ≡ n
  pub version : c.scan_version (bytes "v=19") ≡ some (pos 19)
  pub parameters : c.scan_parameters (bytes "m=65536,t=1,p=4") ≡ some (65536, 1, 4)

none≢some : (s : Text) → ¬ (none ≡ some s)
none≢some s e = cc

module _ (c : Hashing) (law : IsHashing c) where
  abbrev encoded_hash : Text → Text → Text
  unfolding bytes
  encoded_hash salt key =
      bytes "$argon2id$v=19$m=65536,t=1,p=4$" ++ c.encode_std salt ++ b'$' ∷ c.encode_std key

  parts :
      (salt key : Text)
      → split b'$' (encoded_hash salt key)
        ≡ []
          ∷ bytes "argon2id"
          ∷ bytes "v=19"
          ∷ bytes "m=65536,t=1,p=4"
          ∷ c.encode_std salt
          ∷ c.encode_std key
          ∷ []
  unfolding encoded_hash split bytes
  parts salt key =
      let tail : split b'$' (c.encode_std salt ++ b'$' ∷ c.encode_std key)
          ≡ c.encode_std salt ∷ c.encode_std key ∷ [] =
        split-append b'$' (c.encode_std salt) (c.encode_std key) (law.plain salt)
        ∙ ap (λ ps. c.encode_std salt ∷ ps)
            (split-NoByte b'$' (c.encode_std key) (law.plain key)) in
      ap (λ ps. [] ∷ bytes "argon2id" ∷ bytes "v=19" ∷ bytes "m=65536,t=1,p=4" ∷ ps) tail

  decoded :
      (attempt salt key : Text)
      → length key ≡ 32
      → verify_decoded c attempt (65536, 1, 4) (some salt) (some key)
        ≡ text_eq (key_of c attempt salt) key
  unfolding verify_decoded key_of
  decoded attempt salt key e = ap (λ n. text_eq (c.id_key attempt salt 1 65536 4 n) key) e

  verify-parts :
      (attempt salt key : Text)
      → length key ≡ 32
      → verify_secret c attempt (encoded_hash salt key) ≡ text_eq (key_of c attempt salt) key
  unfolding verify_secret verify_parts verify_scanned is_current text_eq bytes
  verify-parts attempt salt key e =
      ap (verify_parts c attempt) (parts salt key)
      ∙ ap
          (λ v.
            if is_current v
            then verify_scanned c attempt (c.scan_parameters (bytes "m=65536,t=1,p=4"))
                (c.encode_std salt) (c.encode_std key)
            else false)
          law.version
      ∙ ap (λ p. verify_scanned c attempt p (c.encode_std salt) (c.encode_std key)) law.parameters
      ∙ ap (λ o. verify_decoded c attempt (65536, 1, 4) o (c.decode_std (c.encode_std key)))
          (law.decodes salt)
      ∙ ap (λ o. verify_decoded c attempt (65536, 1, 4) (some salt) o) (law.decodes key)
      ∙ decoded attempt salt key e

  hashed-verify_secret :
      (secret h : Text) (salt : Option Text)
      → hashed c secret salt ≡ some h
      → (s : Text) × (salt ≡ some s)
        × ((attempt : Text)
            → verify_secret c attempt h ≡ text_eq (key_of c attempt s) (key_of c secret s))
  unfolding hashed key_of bytes
  hashed-verify_secret secret h none e = absurd (none≢some h e)
  hashed-verify_secret secret h (some s) e = (
    s,
    refl,
    λ attempt.
        ap (λ o. elim o [ none ↦ false | some t ↦ verify_secret c attempt t ]) (sym e)
        ∙ verify-parts attempt s (key_of c secret s) (law.sized secret s 1 65536 4 32),
  )

  -- If the encoding can be undone and has no dollar sign, a key has the length that is asked for, and
  -- `Sscanf` reads the numbers that are written: the hash of a secret, made with some salt, verifies
  -- that secret, and any other one exactly if it has the same key under that salt.
  pub verify_secret-hash_secret :
      {W : Type 0} (machine : Machine W) (secret attempt h : Text) (w : W)
      → (hash_secret machine c secret w).0 ≡ some h
      → (salt : Text) × ((machine.random 16 w).0 ≡ some salt)
        × (verify_secret c secret h ≡ true)
        × (verify_secret c attempt h ≡ text_eq (key_of c attempt salt) (key_of c secret salt))
  unfolding hash_secret
  verify_secret-hash_secret machine secret attempt h w e =
      let (salt, r, v) = hashed-verify_secret secret h (machine.random 16 w).0 e in
      (salt, r, v secret ∙ text_eq_refl (key_of c secret salt), v attempt)
