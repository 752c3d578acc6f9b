-- ===== src/Cache/Expiry.antt =====
-- How long the cache in memory holds a value.
use dnsmon.Base.{
  ℕ, ◌+◌, ◌≤◌, ◌<◌, ◌≡◌, refl, ◌∙◌, Option, none, some, Bool, true, false, Text, ltb, if◌then◌else◌,
  arith, ◌⊎◌, inl, inr,
}
use dnsmon.World.{Action, ◌>>=◌, pure, Machine}
use dnsmon.Cache.{Entry, Lru, fresh, get_entry, get, set}

-- What `Get` returns for an entry and leaves of it, at the time `now`.
abbrev pub Aged : Entry → ℕ → Option Text → Option Entry → Type 0
Aged e now x left =
    ((now ≤ e.expires_at) × (x ≡ some e.value) × (left ≡ some e))
    ⊎ ((e.expires_at < now) × (x ≡ none) × (left ≡ none))

module _ {W : Type 0} (lru : Lru W) (machine : Machine W) (entry : Text → W → Option Entry) where
  -- What is supposed of the LRU cache, for a key whose entry is not pushed out: `Get` gives its entry
  -- and keeps it, `Add` and `Remove` change it, and the clock does not.
  pub record IsLru (key : Text) : Type 0 where
    pub get_gives : (w : W) → (lru.get key w).0 ≡ entry key w
    pub get_keeps : (w : W) → entry key (lru.get key w).1 ≡ entry key w
    pub add_holds : (e : Entry) (w : W) → entry key (lru.add key e w).1 ≡ some e
    pub remove_clears : (w : W) → entry key (lru.remove key w).1 ≡ none
    pub now_keeps : (w : W) → entry key (machine.now w).1 ≡ entry key w

  module _ (key : Text) (law : IsLru key) where
    fresh-Aged :
        (e : Entry) (now : ℕ) (w : W)
        → entry key w ≡ some e
        → let (x, w') = fresh lru machine key e now w in Aged e now x (entry key w')
    unfolding fresh
    fresh-Aged e now w h = go (ltb e.expires_at now) refl
      where
        go :
            (b : Bool)
            → ltb e.expires_at now ≡ b
            → let (x, w') =
                if◌then◌else◌ {A = Action W (Option Text)} b
                  (do removed ← lru.remove key; pure none)
                  (pure (some e.value))
                  w in
              Aged e now x (entry key w')
        go true b = inr (ground arith, refl, law.remove_clears w)
        go false b = inl (ground arith, refl, h)

    get_entry-Aged :
        (e : Entry) (o : Option Entry) (w : W)
        → o ≡ some e
        → entry key w ≡ some e
        → let (x, w') = get_entry lru machine key o w in Aged e (machine.now w).0 x (entry key w')
    unfolding get_entry
    get_entry-Aged e o w h k =
        let (now, w₁) = machine.now w in rw h (fresh-Aged e now w₁ (law.now_keeps w ∙ k))

  -- Let the LRU cache keep the entry of the key. Then a value that was set with a time to live is what
  -- `Get` returns and keeps while the clock has not passed the time of the `Set` plus the time
  -- to live; later `Get` returns nothing and the entry is gone.
  pub set-Aged :
      (key value : Text) (ttl : ℕ) (w : W)
      → IsLru key
      → let v = (set lru machine key value ttl w).1 in
        let e : Entry = record { value = value; expires_at = (machine.now w).0 + ttl } in
        let (x, v') = get lru machine key v in
        (entry key v ≡ some e) × Aged e (machine.now (lru.get key v).1).0 x (entry key v')
  unfolding set get get_entry
  set-Aged key value ttl w law =
      let (t, w₁) = machine.now w in
      let e : Entry = record { value = value; expires_at = t + ttl } in
      let v = (lru.add key e w₁).1 in
      let held = law.add_holds e w₁ in
      (
        held,
        get_entry-Aged key law e (lru.get key v).0 (lru.get key v).1 (law.get_gives v ∙ held)
            (law.get_keeps v ∙ held),
      )
