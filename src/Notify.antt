-- ===== src/Notify.antt =====
-- internal/notify/notify.go: the messages to the channels. Shoutrrr, the HTTP client and the JSON of a
-- map are arguments.
pub mod Delivered
use dnsmon.Base.{
  ℕ, List, [], ◌∷◌, ◌++◌, Option, none, some, ◌||◌, Text, bytes, is_empty, text_eq, lookup,
  trim_space, trim_left, contains_text, decimal, take, leb, if◌then◌else◌, ◌==◌,
}
use mathlib.Core.List.{reverse}
use dnsmon.Settings.{NotificationChannel, channel_shoutrrr, channel_green_api, channel_gowa}
use dnsmon.World.{Result, ok, err, failed, wrap, Action, ◌>>=◌, pure}

-- What `postJSON` sends: the user and the password are those of basic authentication.
pub record Post : Type 0 where
  pub url : Text
  pub body : Text
  pub auth : Option (Text × Text)

pub record Response : Type 0 where
  pub status : ℕ
  pub body : Text

-- `shoutrrr.Send`, `http.NewRequestWithContext` as the test of the address, `http.Do`, and
-- `json.Marshal` of a map of strings, which cannot fail.
pub record Delivery (W : Type 0) : Type 0 where
  pub shoutrrr : Text → Text → W → Result (Unit {0}) × W
  pub new_request : Post → Result Post
  pub perform : Post → W → Result Response × W
  pub marshal : List (Text × Text) → Text

-- `ch.Config[key]`, which is empty where the key is missing, and the same without blanks around it.
config_of : NotificationChannel → Text → Text
unfolding lookup
config_of ch key = elim (lookup key ch.config) [ none ↦ [] | some v ↦ v ]

unfoldable pub trimmed : NotificationChannel → Text → Text
unfolding config_of trim_space
trimmed ch key = trim_space (config_of ch key)

-- `strings.TrimRight(base, "/")`
unfoldable pub without_slash : Text → Text
unfolding trim_left
without_slash base = reverse (trim_left (λ (c : ℕ). c == b'/') (reverse base))

green_api_base : Text
unfolding bytes
green_api_base = bytes "https://api.green-api.com"

-- The chat of a recipient, which is a phone number or has its domain already.
unfoldable pub chat_id : Text → Text
unfolding contains_text bytes
chat_id recipient =
    if contains_text recipient (bytes "@") then recipient else recipient ++ bytes "@c.us"

unfoldable pub or_base : Text → Text
unfolding green_api_base
or_base base = if is_empty base then green_api_base else base

unfoldable pub green_api_url : Text → Text → Text → Text
unfolding without_slash bytes
green_api_url base instance_id token =
    without_slash base ++ bytes "/waInstance" ++ instance_id ++ bytes "/sendMessage/" ++ token

-- The user of basic authentication, unless it is blank; the password is taken as it is.
unfoldable pub basic_auth : NotificationChannel → Option (Text × Text)
unfolding trimmed config_of bytes
basic_auth ch =
    if is_empty (trimmed ch (bytes "username"))
    then none
    else some (trimmed ch (bytes "username"), config_of ch (bytes "password"))

labelled : Text → Result (Unit {0}) → Result (Unit {0})
labelled label (ok u) = ok u
labelled label (err e) = err (wrap label e)

-- The reply of a server: an error from status 300 on, with the first 512 bytes of its text.
unfoldable pub accepted : Text → Result Response → Result (Unit {0})
unfolding bytes decimal trim_space
accepted label (err e) = err (wrap label e)
accepted label (ok resp) =
    if leb 300 resp.status
    then err (
        failed (
          label
          ++ bytes ": status "
          ++ decimal resp.status
          ++ bytes ": "
          ++ trim_space (take 512 resp.body)))
    else ok tt

module _ {W : Type 0} (net : Delivery W) where
  perform_request : Text → Result Post → Action W (Result (Unit {0}))
  unfolding accepted bytes
  perform_request label (err e) = pure (err (wrap (label ++ bytes ": building request") e))
  perform_request label (ok req) = do resp ← net.perform req; pure (accepted label resp)

  -- `postJSON`
  post_json : Text → Text → Option (Text × Text) → Text → Action W (Result (Unit {0}))
  unfolding perform_request
  post_json url body auth label =
      perform_request label (net.new_request (record { url = url; body = body; auth = auth }))

  send_shoutrrr : NotificationChannel → Text → Action W (Result (Unit {0}))
  unfolding trimmed labelled bytes
  send_shoutrrr ch message =
      let url = trimmed ch (bytes "url") in
      if is_empty url
      then pure (err (failed (bytes "shoutrrr url is required")))
      else do r ← net.shoutrrr url message; pure (labelled (bytes "shoutrrr") r)

  send_green_api : NotificationChannel → Text → Action W (Result (Unit {0}))
  unfolding trimmed or_base chat_id green_api_url post_json bytes
  send_green_api ch message =
      let instance_id = trimmed ch (bytes "instance_id") in
      let token = trimmed ch (bytes "token") in
      let recipient = trimmed ch (bytes "recipient") in
      if is_empty instance_id || is_empty token || is_empty recipient
      then pure (err (failed (bytes "greenapi requires instance_id, token, and recipient")))
      else post_json (green_api_url (or_base (trimmed ch (bytes "api_url"))) instance_id token)
          (net.marshal ((bytes "chatId", chat_id recipient) ∷ (bytes "message", message) ∷ [])) none
          (bytes "greenapi")

  send_gowa : NotificationChannel → Text → Action W (Result (Unit {0}))
  unfolding trimmed without_slash basic_auth post_json bytes
  send_gowa ch message =
      let base = trimmed ch (bytes "base_url") in
      let recipient = trimmed ch (bytes "recipient") in
      if is_empty base || is_empty recipient
      then pure (err (failed (bytes "go-whatsapp-web requires base_url and recipient")))
      else post_json (without_slash base ++ bytes "/send/message")
          (net.marshal ((bytes "phone", recipient) ∷ (bytes "message", message) ∷ []))
          (basic_auth ch) (bytes "go-whatsapp-web")

  -- `Send`
  unfoldable pub send : NotificationChannel → Text → Action W (Result (Unit {0}))
  unfolding send_shoutrrr send_green_api send_gowa channel_shoutrrr channel_green_api channel_gowa
      text_eq bytes
  send ch message =
      if text_eq ch.type channel_shoutrrr
      then send_shoutrrr ch message
      else if text_eq ch.type channel_green_api
      then send_green_api ch message
      else if text_eq ch.type channel_gowa
      then send_gowa ch message
      else pure (err (failed (bytes "unsupported channel type: \"" ++ ch.type ++ bytes "\"")))
