-- ===== src/Api/SettingsRoutes.antt =====
-- internal/api/v1/settings.go: the settings and the API tokens.
pub mod Saved
use dnsmon.Base.{
  ℕ, ◌+◌, List, [], ◌∷◌, ◌++◌, Option, none, some, Bool, true, false, not, ◌&&◌, ◌||◌, ◌==◌, Text,
  bytes, is_empty, text_eq, trim_space, has_prefix, drop, take, is_space, member, ltb, length,
  if◌then◌else◌,
}
use dnsmon.Settings.{AuthSettings, NotificationChannel, Settings, ApiToken, Schedule}
use dnsmon.Settings.Ids.{new_id}
use dnsmon.Settings.Secret.{Hashing, hash_secret, generate_token}
use dnsmon.World.{Result, ok, err, not_found, Error, Action, ◌>>=◌, pure, Storage, Machine}
use dnsmon.Api.{
  Refusal, Reply, refusal, value, bare, invalid_input, internal_error, bad_body, missing_or,
  deleted, replied, stored,
}

-- `settingsView`: the hash of the password is not in it.
pub record SettingsView : Type 0 where
  pub enabled : Bool
  pub username : Text
  pub password_set : Bool
  pub notifications : List NotificationChannel
  pub disabled_resolvers : List Text

-- `toView(s)`
unfoldable pub to_view : Settings → SettingsView
to_view s = record {
  enabled = s.auth.enabled;
  username = s.auth.username;
  password_set = not (is_empty s.auth.password_hash);
  notifications = s.notifications;
  disabled_resolvers = s.disabled_resolvers;
}

pub record UpdateSettingsRequest : Type 0 where
  pub enabled : Bool
  pub username : Text
  pub password : Text
  pub notifications : List NotificationChannel
  pub disabled_resolvers : List Text

-- The settings that `UpdateSettings` saves, but for the ids of the channels.
abbrev pub with_auth : UpdateSettingsRequest → Settings → Text → Settings
with_auth req s hash = record s {
  auth = record { enabled = req.enabled; username = req.username; password_hash = hash };
}

abbrev pub is_incomplete : AuthSettings → Bool
is_incomplete a = a.enabled && (is_empty a.username || is_empty a.password_hash)

module _ {W : Type 0} (store : Storage W) (machine : Machine W) (hashing : Hashing) where
  -- `GetSettings`
  unfoldable pub get_settings : Action W (Reply SettingsView)
  unfolding to_view bytes
  get_settings = do
    s ← store.get_settings
    pure (elim s [
      | ok s ↦ value 200 (to_view s)
      | err e ↦ refusal 500 internal_error (bytes "Failed to load settings.")
    ])

  -- A new id for each channel that has none.
  unfoldable pub identify : List NotificationChannel → Action W (List NotificationChannel)
  identify [] = pure []
  identify (c ∷ cs) =
      if is_empty c.id
      then (do id ← new_id machine; rest ← identify cs; pure (record c { id = id } ∷ rest))
      else (do rest ← identify cs; pure (c ∷ rest))

  -- The part behind the test of the user name and the password.
  unfoldable pub save_view : UpdateSettingsRequest → Settings → Bool → Action W (Reply SettingsView)
  unfolding identify stored to_view bytes
  save_view req s true = pure (
      refusal 400 invalid_input
        (bytes "A username and password are required to enable authentication."))
  save_view req s false = do
    channels ← identify req.notifications
    done ←
        store.save_settings
          (record s { notifications = channels; disabled_resolvers = req.disabled_resolvers })
    pure (
        stored 200 (bytes "Failed to save settings.")
          (to_view
            (record s { notifications = channels; disabled_resolvers = req.disabled_resolvers }))
          done)

  -- With the hash of the password, new or as it was; `none` where hashing failed.
  unfoldable pub update_with :
      UpdateSettingsRequest → Settings → Option Text → Action W (Reply SettingsView)
  unfolding save_view bytes
  update_with req s none = pure (refusal 500 internal_error (bytes "Failed to hash password."))
  update_with req s (some hash) =
      save_view req (with_auth req s hash) (is_incomplete (with_auth req s hash).auth)

  new_hash : Text → Text → Action W (Option Text)
  new_hash [] current = pure (some current)
  new_hash (b ∷ password) current = hash_secret machine hashing (b ∷ password)

  unfoldable pub update_loaded :
      UpdateSettingsRequest → Result Settings → Action W (Reply SettingsView)
  unfolding update_with new_hash bytes
  update_loaded req (err e) = pure (refusal 500 internal_error (bytes "Failed to load settings."))
  update_loaded req (ok s) = do
    hash ← new_hash req.password s.auth.password_hash
    update_with req s hash

  -- `UpdateSettings`
  unfoldable pub update_settings : Option UpdateSettingsRequest → Action W (Reply SettingsView)
  unfolding update_loaded
  update_settings none = pure bad_body
  update_settings (some req) = do s ← store.get_settings; update_loaded req s

  -- `ListTokens`
  unfoldable pub list_tokens : Action W (Reply (List ApiToken))
  unfolding replied bytes
  list_tokens = do
    tokens ← store.list_api_tokens
    pure (replied 200 (bytes "Failed to list API tokens.") tokens)

  unfoldable pub token_hashed : Text → Text → Option Text → Action W (Reply (ApiToken × Text))
  unfolding stored bytes
  token_hashed name raw none = pure (refusal 500 internal_error (bytes "Failed to hash token."))
  token_hashed name raw (some hash) = do
    id ← new_id machine
    now ← machine.now
    let token : ApiToken = record {
      id = id;
      name = name;
      hash = hash;
      prefix = take 8 raw;
      created_at = now;
      last_used_at = none;
    }
    done ← store.create_api_token token
    pure (stored 201 (bytes "Failed to create token.") (token, raw) done)

  unfoldable pub token_generated : Text → Option Text → Action W (Reply (ApiToken × Text))
  unfolding token_hashed bytes
  token_generated name none = pure (refusal 500 internal_error (bytes "Failed to generate token."))
  token_generated name (some raw) = do
    hash ← hash_secret machine hashing raw
    token_hashed name raw hash

  -- `CreateToken`, on the name of the request; the reply has the token with its secret.
  unfoldable pub create_token : Text → Option Text → Action W (Reply (ApiToken × Text))
  unfolding token_generated
  create_token complaint none = pure bad_body
  create_token complaint (some []) = pure (refusal 400 invalid_input complaint)
  create_token complaint (some (b ∷ name)) = do
    raw ← generate_token machine hashing
    token_generated (b ∷ name) raw

  -- `DeleteToken`
  unfoldable pub delete_token : Text → Action W (Reply (Unit {0}))
  unfolding deleted bytes
  delete_token id = do
    done ← store.delete_api_token id
    pure (deleted (bytes "Token not found.") (bytes "Failed to delete token.") done)
