-- ===== src/Api/Login/Proven.antt =====
-- Who is given a session.
use dnsmon.Base.{
  ℕ, ◌≡◌, refl, sym, ap, ◌⊎◌, inl, inr, Option, none, some, Bool, true, false, ◌&&◌, Text, is_empty,
  text_eq, text_eq_iff,
}
use dnsmon.Settings.{Settings}
use dnsmon.Settings.Session.{Signing, sign_session}
use dnsmon.Settings.Secret.{Hashing, verify_secret, generate_token}
use dnsmon.World.{Result, ok, err, Storage, Machine}
use dnsmon.Api.Login.{
  LoginRequest, Cookie, session_ttl, refused, start_session, secret_saved, secret_made, with_secret,
  verified, login_enabled, login_loaded, login,
}

module _ {W : Type 0} (store : Storage W) (machine : Machine W) (signing : Signing)
    (hashing : Hashing) where
  -- What stands behind a session cookie: settings that were read, in which authentication is on, the
  -- user's name and a password that verifies, and the secret of the settings or one that was saved.
  pub data Proven (req : LoginRequest) (w : W) (cookie : Cookie) : Type 0 where
    proven :
        (s : Settings) (secret : Text) (t : ℕ)
        → (store.get_settings w).0 ≡ ok s
        → s.auth.enabled ≡ true
        → req.username ≡ s.auth.username
        → verify_secret hashing req.password s.auth.password_hash ≡ true
        → cookie.value ≡ sign_session signing secret s.auth.username session_ttl t
        → (secret ≡ s.session_secret)
          ⊎ ((v : W) × ((store.save_settings (record s { session_secret = secret }) v).0 ≡ ok tt))
        → Proven req w cookie

  none≢some : (k : Cookie) → ¬ (none ≡ some k)
  none≢some k e = cc

  module _ (req : LoginRequest) (w : W) (s : Settings) (loaded : (store.get_settings w).0 ≡ ok s)
      (on : s.auth.enabled ≡ true) (named : req.username ≡ s.auth.username)
      (checks : verify_secret hashing req.password s.auth.password_hash ≡ true) (k : Cookie) where
    abbrev Secret : Text → Type 0
    Secret secret =
        (secret ≡ s.session_secret)
        ⊎ ((v : W) × ((store.save_settings (record s { session_secret = secret }) v).0 ≡ ok tt))

    start_session-Proven :
        (secret : Text) (v : W)
        → Secret secret
        → (start_session store machine signing hashing (record s { session_secret = secret }) v).0.1
          ≡ some k
        → Proven req w k
    unfolding start_session
    start_session-Proven secret v kept e =
        proven s secret (machine.now v).0 loaded on named checks (sym (ap value_or e)) kept
      where
        value_or : Option Cookie → Text
        value_or none = k.value
        value_or (some c) = c.value

    secret_saved-Proven :
        (secret : Text) (r : Result (Unit {0})) (u v : W)
        → (store.save_settings (record s { session_secret = secret }) u).0 ≡ r
        → (secret_saved store machine signing hashing
            (record s { session_secret = secret })
            r
            v).0.1
          ≡ some k
        → Proven req w k
    unfolding secret_saved refused
    secret_saved-Proven secret (err x) u v saved e = absurd (none≢some k e)
    secret_saved-Proven secret (ok tt) u v saved e =
        start_session-Proven secret v (inr (u, saved)) e

    secret_made-Proven :
        (o : Option Text) (v : W)
        → (secret_made store machine signing hashing s o v).0.1 ≡ some k
        → Proven req w k
    unfolding secret_made refused
    secret_made-Proven none v e = absurd (none≢some k e)
    secret_made-Proven (some secret) v e =
        let (r, v₁) = store.save_settings (record s { session_secret = secret }) v in
        secret_saved-Proven secret r v v₁ refl e

    with_secret-Proven :
        (b : Bool) (v : W)
        → (with_secret store machine signing hashing s b v).0.1 ≡ some k
        → Proven req w k
    unfolding with_secret
    with_secret-Proven false v e = start_session-Proven s.session_secret v (inl refl) e
    with_secret-Proven true v e =
        let (o, v₁) = generate_token machine hashing v in secret_made-Proven o v₁ e

  verified-Proven :
      (req : LoginRequest) (w v : W) (s : Settings) (a b : Bool) (k : Cookie)
      → (store.get_settings w).0 ≡ ok s
      → s.auth.enabled ≡ true
      → text_eq req.username s.auth.username ≡ a
      → verify_secret hashing req.password s.auth.password_hash ≡ b
      → (verified store machine signing hashing s (a && b) v).0.1 ≡ some k
      → Proven req w k
  unfolding verified refused
  verified-Proven req w v s true true k g on n h e =
      with_secret-Proven req w s g on ((text_eq_iff req.username s.auth.username).0 n) h k
        (is_empty s.session_secret) v e
  verified-Proven req w v s true false k g on n h e = absurd (none≢some k e)
  verified-Proven req w v s false b k g on n h e = absurd (none≢some k e)

  login_enabled-Proven :
      (req : LoginRequest) (w v : W) (s : Settings) (b : Bool) (k : Cookie)
      → (store.get_settings w).0 ≡ ok s
      → s.auth.enabled ≡ b
      → (login_enabled store machine signing hashing req s b v).0.1 ≡ some k
      → Proven req w k
  unfolding login_enabled refused
  login_enabled-Proven req w v s false k g on e = absurd (none≢some k e)
  login_enabled-Proven req w v s true k g on e =
      verified-Proven req w v s (text_eq req.username s.auth.username)
        (verify_secret hashing req.password s.auth.password_hash) k g on refl refl e

  login_loaded-Proven :
      (req : LoginRequest) (w v : W) (r : Result Settings) (k : Cookie)
      → (store.get_settings w).0 ≡ r
      → (login_loaded store machine signing hashing req r v).0.1 ≡ some k
      → Proven req w k
  unfolding login_loaded refused
  login_loaded-Proven req w v (err x) k g e = absurd (none≢some k e)
  login_loaded-Proven req w v (ok s) k g e =
      login_enabled-Proven req w v s s.auth.enabled k g refl e

  -- `Login` sets a session cookie only where the settings can be read, authentication is on in them,
  -- the name is that of their user and the password verifies against their hash. The cookie holds a
  -- session of that user, signed with the secret of the settings or with one that was saved with them.
  pub login-Proven :
      (req : LoginRequest) (k : Cookie) (w : W)
      → (login store machine signing hashing (some req) w).0.1 ≡ some k
      → Proven req w k
  unfolding login
  login-Proven req k w e =
      let (r, v) = store.get_settings w in login_loaded-Proven req w v r k refl e
