-- ===== src/Settings/Session/Tokens.antt =====
-- Which tokens are accepted.
use dnsmon.Base.{
  ℕ, ◌+◌, ◌<◌, ◌≡◌, refl, ap, ◌∙◌, ◌∷◌, ◌++◌, Option, none, some, false, Text, arith, cut,
  cut-append, NoByte, text_eq, text_eq_iff, text_eq_refl, decimal, ℤ, pos, negsuc, parse_int,
  parse_int-decimal, parse_int-bar, int64_limit, if◌then◌else◌, Bool-cases, inl, inr, append_assoc,
}
use mathlib.Core.Option.{some-injective}
use dnsmon.Settings.Session.{
  Signing, sign, unix, sign_session, is_expired, admit_name, parse_payload, parse_raw, parse_signed,
  parse_session,
}

-- What RFC 4648 says of the encoding: it can be undone, and has no dot in its alphabet.
pub record IsBase64 (c : Signing) : Type 0 where
  pub inverse : (s : Text) → c.decode (c.encode s) ≡ some s
  pub plain : (s : Text) → NoByte b'.' (c.encode s)

payload_of :
    (now : ℕ) (name expiry : Text) (x : Option ℤ)
    → parse_int expiry ≡ x
    → parse_payload now (some (name, expiry)) ≡ admit_name now name x
unfolding parse_payload
payload_of now name expiry x e = ap (admit_name now name) e

module _ (c : Signing) (base64 : IsBase64 c) where
  parse_sign :
      (secret username : Text) (ttl t now : ℕ)
      → parse_session c secret (sign_session c secret username ttl t) now
        ≡ parse_payload now (cut b'|' (username ++ b'|' ∷ decimal (unix (t + ttl))))
  unfolding parse_session sign_session parse_signed parse_raw
  parse_sign secret username ttl t now =
      let raw = username ++ b'|' ∷ decimal (unix (t + ttl)) in
      let enc = c.encode raw in
      ap (parse_signed c secret now) (cut-append b'.' enc (sign c secret enc) (base64.plain raw))
      ∙ ap (λ b. if b then parse_raw now (c.decode enc) else none)
          (text_eq_refl (sign c secret enc))
      ∙ ap (parse_raw now) (base64.inverse raw)

  admit_name-fresh :
      (now exp : ℕ) (name : Text)
      → unix now < exp
      → admit_name now name (some (pos exp)) ≡ some name
  unfolding admit_name is_expired
  admit_name-fresh now exp name h = ground arith

  -- If the encoding can be undone and has no dot: a session that was signed is accepted with the same
  -- secret and gives back the user's name, as long as the second in which it expires has not begun;
  -- the name has no bar in it, and the second fits an `int64`.
  pub parse_session-sign_session :
      (secret username : Text) (ttl t now : ℕ)
      → NoByte b'|' username
      → unix (t + ttl) < int64_limit
      → unix now < unix (t + ttl)
      → parse_session c secret (sign_session c secret username ttl t) now ≡ some username
  parse_session-sign_session secret username ttl t now plain small fresh =
      let exp = unix (t + ttl) in
      parse_sign secret username ttl t now
      ∙ ap (parse_payload now) (cut-append b'|' username (decimal exp) plain)
      ∙ payload_of now username (decimal exp) _ (parse_int-decimal exp small)
      ∙ admit_name-fresh now exp username fresh

  -- If the encoding can be undone and has no dot: the session of a user with a bar in the name is
  -- never accepted.
  pub parse_session-bar :
      (secret front back : Text) (ttl t now : ℕ)
      → NoByte b'|' front
      → parse_session c secret (sign_session c secret (front ++ b'|' ∷ back) ttl t) now ≡ none
  parse_session-bar secret front back ttl t now plain =
      let exp = decimal (unix (t + ttl)) in
      parse_sign secret (front ++ b'|' ∷ back) ttl t now
      ∙ ap (λ s. parse_payload now (cut b'|' s)) (append_assoc front (b'|' ∷ back) (b'|' ∷ exp))
      ∙ ap (parse_payload now) (cut-append b'|' front (back ++ b'|' ∷ exp) plain)
      ∙ payload_of now front (back ++ b'|' ∷ exp) none (parse_int-bar back exp)
      ∙ (unfold admit_name in refl)

-- A token that carries the code of its first part, which holds the name and a time to come.
pub record IsSigned (c : Signing) (secret token : Text) (now : ℕ) (name : Text) : Type 0 where
  pub enc : Text
  pub raw : Text
  pub expiry : Text
  pub exp : ℕ
  pub parts : cut b'.' token ≡ some (enc, sign c secret enc)
  pub decoded : c.decode enc ≡ some raw
  pub fields : cut b'|' raw ≡ some (name, expiry)
  pub number : parse_int expiry ≡ some (pos exp)
  pub fresh : unix now < exp

some≢none : {A : Type 0} → (a : A) → ¬ (none ≡ some a)
some≢none a e = cc

expired_sound :
    (now : ℕ) (x : ℤ) → is_expired now x ≡ false → (exp : ℕ) × (x ≡ pos exp) × (unix now < exp)
unfolding is_expired
expired_sound now (pos exp) h = (exp, refl, ground arith)
expired_sound now (negsuc n) h = cc

admit_sound :
    (now : ℕ) (name n : Text) (x : Option ℤ)
    → admit_name now name x ≡ some n
    → (name ≡ n) × ((exp : ℕ) × (x ≡ some (pos exp)) × (unix now < exp))
unfolding admit_name
admit_sound now name n none e = absurd (some≢none n e)
admit_sound now name n (some x) e = elim (Bool-cases (is_expired now x)) [
  | inl late ↦ absurd (some≢none n (rw late at e))
  | inr fresh ↦
      let (exp, same, h) = expired_sound now x fresh in
      (some-injective _ _ (rw fresh at e), (exp, ap some same, h))
]

payload_sound :
    (now : ℕ) (n : Text) (o : Option (Text × Text))
    → parse_payload now o ≡ some n
    → (expiry : Text) × (o ≡ some (n, expiry))
      × ((exp : ℕ) × (parse_int expiry ≡ some (pos exp)) × (unix now < exp))
unfolding parse_payload
payload_sound now n none e = absurd (some≢none n e)
payload_sound now n (some (name, expiry)) e =
    let (same, rest) = admit_sound now name n (parse_int expiry) e in
    (expiry, ap (λ (x : Text). some (x, expiry)) same, rest)

raw_sound :
    (now : ℕ) (n : Text) (o : Option Text)
    → parse_raw now o ≡ some n
    → (raw : Text) × (o ≡ some raw) × (parse_payload now (cut b'|' raw) ≡ some n)
unfolding parse_raw
raw_sound now n none e = absurd (some≢none n e)
raw_sound now n (some raw) e = (raw, refl, e)

signed_sound :
    (c : Signing) (secret : Text) (now : ℕ) (n : Text) (o : Option (Text × Text))
    → parse_signed c secret now o ≡ some n
    → (enc : Text) × (o ≡ some (enc, sign c secret enc)) × (parse_raw now (c.decode enc) ≡ some n)
unfolding parse_signed
signed_sound c secret now n none e = absurd (some≢none n e)
signed_sound c secret now n (some (enc, mac)) e =
    elim (Bool-cases (text_eq mac (sign c secret enc))) [
      | inl same ↦ (
        enc,
        ap (λ (x : Text). some (enc, x)) ((text_eq_iff mac (sign c secret enc)).0 same),
        rw same at e,
      )
      | inr other ↦ absurd (some≢none n (rw other at e))
    ]

-- A token is accepted only if it consists of an encoded text and the code of that text under the
-- secret, and the text decodes to the name that is given back and to a second that has not begun.
pub parse_session-IsSigned :
    (c : Signing) (secret token : Text) (now : ℕ) (name : Text)
    → parse_session c secret token now ≡ some name
    → IsSigned c secret token now name
unfolding parse_session
parse_session-IsSigned c secret token now name e =
    let (enc, parts, e₁) = signed_sound c secret now name (cut b'.' token) e in
    let (raw, decoded, e₂) = raw_sound now name (c.decode enc) e₁ in
    let (expiry, fields, (exp, number, fresh)) = payload_sound now name (cut b'|' raw) e₂ in
    record {
      enc = enc;
      raw = raw;
      expiry = expiry;
      exp = exp;
      parts = parts;
      decoded = decoded;
      fields = fields;
      number = number;
      fresh = fresh;
    }
