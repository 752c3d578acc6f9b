-- ===== src/Api/SettingsRoutes/Saved.antt =====
-- What the settings handlers save.
use mathlib.Core.Bool.{true≢false}
use dnsmon.Base.{
  ℕ, ◌≡◌, ◌≢◌, refl, sym, ◌⊎◌, inl, inr, [], ◌∷◌, Option, none, some, Bool, true, false, Text,
  is_empty, arith, Bool-cases,
}
use dnsmon.Settings.{AuthSettings, Settings}
use dnsmon.Settings.Secret.{Hashing}
use dnsmon.World.{Result, ok, err, Storage, Machine}
use dnsmon.Api.{value, stored, refusal≢value, value-injective}
use dnsmon.Api.SettingsRoutes.{
  SettingsView, to_view, UpdateSettingsRequest, with_auth, is_incomplete, identify, save_view,
  update_with, update_loaded, update_settings,
}

-- Authentication that is switched on has a user name and the hash of a password.
abbrev pub IsUsable : AuthSettings → Type 0
IsUsable a = (a.enabled ≡ false) ⊎ ((a.username ≢ []) × (a.password_hash ≢ []))

nonempty : (s : Text) → is_empty s ≡ false → s ≢ []
nonempty [] h n = true≢false h
nonempty (c ∷ s) h n = cc

is_incomplete-IsUsable : (a : AuthSettings) → is_incomplete a ≡ false → IsUsable a
is_incomplete-IsUsable a h = elim (Bool-cases a.enabled) [
  | inl on ↦ inr (
    nonempty a.username (ground (arith, h, on)),
    nonempty a.password_hash (ground (arith, h, on)),
  )
  | inr off ↦ inl off
]

module _ {W : Type 0} (store : Storage W) (machine : Machine W) (hashing : Hashing) where
  -- The storage took settings that were made of what it had, which show as the view, and whose
  -- authentication is usable.
  pub record IsSaved (view : SettingsView) : Type 0 where
    pub saved : Settings
    pub before : Settings
    pub read_in : W
    pub saved_in : W
    pub read : (store.get_settings read_in).0 ≡ ok before
    pub taken : (store.save_settings saved saved_in).0 ≡ ok tt
    pub shown : to_view saved ≡ view
    pub usable : IsUsable saved.auth
    pub secret : saved.session_secret ≡ before.session_secret

  stored-view :
      (view v : SettingsView) (message : Text) (st : ℕ) (done : Result (Unit {0}))
      → stored 200 message view done ≡ value st v
      → (st ≡ 200) × (view ≡ v) × (done ≡ ok tt)
  unfolding stored
  stored-view view v message st (err x) e = absurd (refusal≢value _ _ _ st v e)
  stored-view view v message st (ok u) e =
      let (status, same) = value-injective 200 st view v e in (sym status, same, refl)

  save_view-IsSaved :
      (req : UpdateSettingsRequest) (before s : Settings) (incomplete : Bool) (st : ℕ)
      (v : SettingsView) (r w : W)
      → (store.get_settings r).0 ≡ ok before
      → s.session_secret ≡ before.session_secret
      → is_incomplete s.auth ≡ incomplete
      → (save_view store machine hashing req s incomplete w).0 ≡ value st v
      → (st ≡ 200) × IsSaved v
  unfolding save_view
  save_view-IsSaved req before s true st v r w g k i e = absurd (refusal≢value _ _ _ st v e)
  save_view-IsSaved req before s false st v r w g k i e =
      let (channels, w₁) = identify store machine hashing req.notifications w in
      let after : Settings = record s {
        notifications = channels;
        disabled_resolvers = req.disabled_resolvers;
      } in
      let (status, same, taken) =
        stored-view (to_view after) v _ st (store.save_settings after w₁).0 e in
      (
        status,
        record {
          saved = after;
          before = before;
          read_in = r;
          saved_in = w₁;
          read = g;
          taken = taken;
          shown = same;
          usable = is_incomplete-IsUsable s.auth i;
          secret = k;
        },
      )

  update_with-IsSaved :
      (req : UpdateSettingsRequest) (s : Settings) (hash : Option Text) (st : ℕ) (v : SettingsView)
      (r w : W)
      → (store.get_settings r).0 ≡ ok s
      → (update_with store machine hashing req s hash w).0 ≡ value st v
      → (st ≡ 200) × IsSaved v
  unfolding update_with
  update_with-IsSaved req s none st v r w g e = absurd (refusal≢value _ _ _ st v e)
  update_with-IsSaved req s (some hash) st v r w g e =
      save_view-IsSaved req s (with_auth req s hash) (is_incomplete (with_auth req s hash).auth) st
        v r w g refl refl e

  update_loaded-IsSaved :
      (req : UpdateSettingsRequest) (x : Result Settings) (st : ℕ) (v : SettingsView) (r w : W)
      → (store.get_settings r).0 ≡ x
      → (update_loaded store machine hashing req x w).0 ≡ value st v
      → (st ≡ 200) × IsSaved v
  unfolding update_loaded
  update_loaded-IsSaved req (err x) st v r w g e = absurd (refusal≢value _ _ _ st v e)
  update_loaded-IsSaved req (ok s) st v r w g e = update_with-IsSaved req s _ st v r _ g e

  -- `UpdateSettings` replies with a view of settings only with the status 200, and the storage has
  -- taken the settings that show so: authentication that is switched on has a user name and the hash
  -- of a password in them, and the secret of the sessions is that of the settings that were read.
  pub update_settings-IsSaved :
      (body : Option UpdateSettingsRequest) (st : ℕ) (v : SettingsView) (w : W)
      → (update_settings store machine hashing body w).0 ≡ value st v
      → (st ≡ 200) × IsSaved v
  unfolding update_settings
  update_settings-IsSaved none st v w e = absurd (refusal≢value _ _ _ st v e)
  update_settings-IsSaved (some req) st v w e =
      update_loaded-IsSaved req (store.get_settings w).0 st v w (store.get_settings w).1 refl e
