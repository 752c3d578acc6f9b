-- ===== src/Tests/Deliveries.antt =====
-- A message over an HTTP server that takes it, and a value in the cache.
use dnsmon.Base.{ℕ, suc, ◌≡◌, refl, [], ◌∷◌, Option, none, some, true, bytes}
use dnsmon.Settings.{NotificationChannel, channel_gowa}
use dnsmon.World.{ok, Machine}
use dnsmon.Notify.{Delivery, send}
use dnsmon.Notify.Delivered.{IsDelivered, send-IsDelivered}
use dnsmon.Cache.{Entry, Lru, get, set}
use dnsmon.Cache.Expiry.{IsLru, Aged, set-Aged}

abbrev willing : Delivery ℕ
willing = record {
  shoutrrr = λ url message n. (ok tt, suc n);
  new_request = λ p. ok p;
  perform = λ p n. (ok (record { status = 200; body = [] }), suc n);
  marshal = λ m. bytes "{}";
}

abbrev chat : NotificationChannel
chat = record {
  id = bytes "n1";
  type = channel_gowa;
  name = bytes "chat";
  enabled = true;
  config =
      (bytes "base_url", bytes "https://wa.example.com/") ∷ (bytes "recipient", bytes " 123 ") ∷ [];
}

send-IsDelivered_example : IsDelivered willing chat (bytes "hello")
unfolding send bytes
send-IsDelivered_example = send-IsDelivered willing chat (bytes "hello") 0 refl

-- A clock, and a cache that holds one entry for all keys.
abbrev Held : Type 0
Held = ℕ × Option Entry

abbrev single : Lru Held
single = record {
  get = λ key w. (w.1, w);
  add = λ key e w. (tt, (w.0, some e));
  remove = λ key w. (tt, (w.0, none));
}

abbrev ticking : Machine Held
ticking = record { now = λ w. (w.0, (suc w.0, w.1)); random = λ n w. (none, w) }

single-IsLru : IsLru single ticking (λ key w. w.1) (bytes "k")
single-IsLru = record {
  get_gives = λ w. refl;
  get_keeps = λ w. refl;
  add_holds = λ e w. refl;
  remove_clears = λ w. refl;
  now_keeps = λ w. refl;
}

set-Aged_example :
    let v = (set single ticking (bytes "k") (bytes "v") 60 (5, none)).1 in
    let e : Entry = record { value = bytes "v"; expires_at = 65 } in
    let (x, v') = get single ticking (bytes "k") v in (v.1 ≡ some e) × Aged e 6 x v'.1
unfolding set
set-Aged_example =
    set-Aged single ticking (λ key w. w.1) (bytes "k") (bytes "v") 60 (5, none) single-IsLru
