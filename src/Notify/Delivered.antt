-- ===== src/Notify/Delivered.antt =====
-- When a message counts as sent.
use mathlib.Core.Bool.{true≢false}
use dnsmon.Base.{
  ◌⊎◌, inl, inr, ◌<◌, ◌≡◌, refl, [], ◌∷◌, ◌++◌, none, Bool, true, false, ◌||◌, Text, bytes,
  is_empty, text_eq, text_eq_iff, leb, if◌then◌else◌, arith,
}
use dnsmon.Settings.{NotificationChannel, channel_shoutrrr, channel_green_api, channel_gowa}
use dnsmon.World.{Result, ok, err, err≢ok, wrap, Error, Action, pure}
use dnsmon.Notify.{
  Post, Response, Delivery, trimmed, without_slash, or_base, chat_id, green_api_url, basic_auth,
  labelled, accepted, perform_request, post_json, send_shoutrrr, send_green_api, send_gowa, send,
}

module _ {W : Type 0} (net : Delivery W) where
  -- A request that could be built and that a server answered below status 300.
  pub data IsAccepted (p : Post) : Type 0 where
    performed :
        (req : Post) (resp : Response) (v : W)
        → net.new_request p ≡ ok req
        → (net.perform req v).0 ≡ ok resp
        → resp.status < 300
        → IsAccepted p

  abbrev pub green_api_post : NotificationChannel → Text → Post
  unfolding bytes
  green_api_post ch message = record {
    url =
        green_api_url (or_base (trimmed ch (bytes "api_url"))) (trimmed ch (bytes "instance_id"))
          (trimmed ch (bytes "token"));
    body = net.marshal (
        (bytes "chatId", chat_id (trimmed ch (bytes "recipient")))
        ∷ (bytes "message", message)
        ∷ []);
    auth = none;
  }

  abbrev pub gowa_post : NotificationChannel → Text → Post
  unfolding bytes
  gowa_post ch message = record {
    url = without_slash (trimmed ch (bytes "base_url")) ++ bytes "/send/message";
    body =
        net.marshal
          ((bytes "phone", trimmed ch (bytes "recipient")) ∷ (bytes "message", message) ∷ []);
    auth = basic_auth ch;
  }

  -- How a message reached its channel.
  pub data IsDelivered (ch : NotificationChannel) (message : Text) : Type 0 where
    by_shoutrrr :
        (v : W)
        → ch.type ≡ channel_shoutrrr
        → is_empty (trimmed ch (bytes "url")) ≡ false
        → (net.shoutrrr (trimmed ch (bytes "url")) message v).0 ≡ ok tt
        → IsDelivered ch message
    by_green_api :
        ch.type ≡ channel_green_api
        → is_empty (trimmed ch (bytes "recipient")) ≡ false
        → IsAccepted (green_api_post ch message)
        → IsDelivered ch message
    by_gowa :
        ch.type ≡ channel_gowa
        → is_empty (trimmed ch (bytes "recipient")) ≡ false
        → IsAccepted (gowa_post ch message)
        → IsDelivered ch message

  -- A test of which one outcome is an error.
  refused_or :
      (b : Bool) (e : Error) (r : Result (Unit {0}))
      → (if b then err e else r) ≡ ok tt
      → (b ≡ false) × (r ≡ ok tt)
  refused_or true e r h = absurd (err≢ok e tt h)
  refused_or false e r h = (refl, h)

  accepted-ok :
      (label : Text) (resp : Response) → accepted label (ok resp) ≡ ok tt → resp.status < 300
  unfolding accepted
  accepted-ok label resp e = below (refused_or (leb 300 resp.status) _ (ok tt) e).0
    where
      below : leb 300 resp.status ≡ false → resp.status < 300
      below h = ground arith

  labelled-ok : (label : Text) (r : Result (Unit {0})) → labelled label r ≡ ok tt → r ≡ ok tt
  unfolding labelled
  labelled-ok label (ok tt) h = refl
  labelled-ok label (err e) h = absurd (err≢ok (wrap label e) tt h)

  perform_request-IsAccepted :
      (label : Text) (p : Post) (r : Result Post) (w : W)
      → net.new_request p ≡ r
      → (perform_request net label r w).0 ≡ ok tt
      → IsAccepted p
  unfolding perform_request accepted
  perform_request-IsAccepted label p (err e) w n h = absurd (err≢ok _ tt h)
  perform_request-IsAccepted label p (ok req) w n h = go (net.perform req w).0 refl h
    where
      go :
          (r : Result Response)
          → (net.perform req w).0 ≡ r
          → accepted label r ≡ ok tt
          → IsAccepted p
      go (err e) f a = absurd (err≢ok _ tt a)
      go (ok resp) f a = performed req resp w n f (accepted-ok label resp a)

  post_json-IsAccepted :
      (p : Post) (label : Text) (w : W)
      → (post_json net p.url p.body p.auth label w).0 ≡ ok tt
      → IsAccepted p
  unfolding post_json
  post_json-IsAccepted p label w h = perform_request-IsAccepted label p (net.new_request p) w refl h

  -- The two ways of an action with a test in front of it.
  branch :
      (b : Bool) (f g : Action W (Result (Unit {0}))) (w : W)
      → (if◌then◌else◌ {A = Action W (Result (Unit {0}))} b f g w).0 ≡ ok tt
      → ((b ≡ true) × ((f w).0 ≡ ok tt)) ⊎ ((b ≡ false) × ((g w).0 ≡ ok tt))
  branch true f g w e = inl (refl, e)
  branch false f g w e = inr (refl, e)

  past :
      (b : Bool) (x : Error) (g : Action W (Result (Unit {0}))) (w : W)
      → (if◌then◌else◌ {A = Action W (Result (Unit {0}))} b (pure (err x)) g w).0 ≡ ok tt
      → (b ≡ false) × ((g w).0 ≡ ok tt)
  past true x g w e = absurd (err≢ok x tt e)
  past false x g w e = (refl, e)

  right_false : (a b : Bool) → (a || b) ≡ false → b ≡ false
  right_false true b e = absurd (true≢false e)
  right_false false b e = e

  module _ (ch : NotificationChannel) (message : Text) (w : W) where
    send_shoutrrr-IsDelivered :
        ch.type ≡ channel_shoutrrr
        → (send_shoutrrr net ch message w).0 ≡ ok tt
        → IsDelivered ch message
    unfolding send_shoutrrr
    send_shoutrrr-IsDelivered t e =
        let (n, h) = past (is_empty (trimmed ch (bytes "url"))) _ _ w e in
        by_shoutrrr w t n (labelled-ok (bytes "shoutrrr") _ h)

    send_green_api-IsDelivered :
        ch.type ≡ channel_green_api
        → (send_green_api net ch message w).0 ≡ ok tt
        → IsDelivered ch message
    unfolding send_green_api
    send_green_api-IsDelivered t e =
        let instance_id = is_empty (trimmed ch (bytes "instance_id")) in
        let token = is_empty (trimmed ch (bytes "token")) in
        let recipient = is_empty (trimmed ch (bytes "recipient")) in
        let (n, h) = past (instance_id || token || recipient) _ _ w e in
        by_green_api t (right_false (instance_id || token) recipient n)
          (post_json-IsAccepted (green_api_post ch message) (bytes "greenapi") w h)

    send_gowa-IsDelivered :
        ch.type ≡ channel_gowa → (send_gowa net ch message w).0 ≡ ok tt → IsDelivered ch message
    unfolding send_gowa
    send_gowa-IsDelivered t e =
        let base = is_empty (trimmed ch (bytes "base_url")) in
        let recipient = is_empty (trimmed ch (bytes "recipient")) in
        let (n, h) = past (base || recipient) _ _ w e in
        by_gowa t (right_false base recipient n)
          (post_json-IsAccepted (gowa_post ch message) (bytes "go-whatsapp-web") w h)

    -- `Send` succeeds only where the message was delivered: the type of the channel is one of the three,
    -- its address or recipient is not blank, and Shoutrrr took the message, or a server answered the
    -- request for it with a status below 300.
    pub send-IsDelivered : (send net ch message w).0 ≡ ok tt → IsDelivered ch message
    unfolding send
    send-IsDelivered e =
        elim (branch (text_eq ch.type channel_shoutrrr) (send_shoutrrr net ch message) _ w e) [
          | inl a ↦ send_shoutrrr-IsDelivered ((text_eq_iff ch.type channel_shoutrrr).0 a.0) a.1
          | inr b ↦
              elim (branch (text_eq ch.type channel_green_api) (send_green_api net ch message) _ w
                b.1) [
                  | inl a ↦
                      send_green_api-IsDelivered ((text_eq_iff ch.type channel_green_api).0 a.0) a.1
                  | inr c ↦
                      elim (branch (text_eq ch.type channel_gowa) (send_gowa net ch message) _ w
                        c.1) [
                          | inl a ↦
                              send_gowa-IsDelivered ((text_eq_iff ch.type channel_gowa).0 a.0) a.1
                          | inr d ↦ absurd (err≢ok _ tt d.1)
                        ]
                ]
        ]
