-- ===== src/Dns/Client/Rounds.antt =====
-- How the loop of `Query` goes, as a relation of worlds.
use mathlib.Core.Bool.{true≢false}
use dnsmon.Base.{
  ℕ, zero, suc, ◌≡◌, ◌≢◌, refl, sym, ◌⊎◌, inl, inr, Option, none, some, Bool, true, false, Text,
  arith,
}
use dnsmon.World.{Action, Machine}
use dnsmon.Dns.Client.{
  Exchanged, response, failure, Network, Tried, stopped, ended, is_again, follow, round, attempts,
}

abbrev pub is_timed_out : Exchanged → Bool
is_timed_out (response m rtt) = false
is_timed_out (failure text timeout rtt) = timeout

module _ {W : Type 0} (net : Network W) (machine : Machine W) (type_name : ℕ → Text) where
  -- How a loop with this many attempts goes from one world to another: each attempt looks whether the
  -- context is done, and ends the loop if so; else it makes an exchange, which ends the loop unless it
  -- times out while attempts are left.
  pub data Rounds (ask : Action W Exchanged) : ℕ → W → Tried → W → Type 0 where
    cut :
        (left : ℕ) (text : Text) (w v : W)
        → net.done w ≡ (some text, v)
        → Rounds ask (suc left) w (stopped text) v
    timed_out :
        (left : ℕ) (text : Text) (rtt : ℕ) (w w₁ w₂ v : W) (t : Tried)
        → net.done w ≡ (none, w₁)
        → ask w₁ ≡ (failure text true rtt, w₂)
        → left ≢ 0
        → Rounds ask left w₂ t v
        → Rounds ask (suc left) w t v
    end_with :
        (left : ℕ) (x : Exchanged) (w w₁ v : W)
        → net.done w ≡ (none, w₁)
        → ask w₁ ≡ (x, v)
        → (is_timed_out x ≡ false) ⊎ (left ≡ 0)
        → Rounds ask (suc left) w (ended (some x)) v

  module _ (ask : Action W Exchanged) where
    follow-Rounds :
        (b : Bool) (left : ℕ) (x : Exchanged) (again : Action W Tried) (w w₁ w₂ : W)
        → net.done w ≡ (none, w₁)
        → ask w₁ ≡ (x, w₂)
        → is_again left x ≡ b
        → (left ≢ 0 → Rounds ask left w₂ (again w₂).0 (again w₂).1)
        → let (t, v) = follow net machine type_name b x again w₂ in Rounds ask (suc left) w t v
    unfolding follow is_again
    follow-Rounds true left (response m rtt) again w w₁ w₂ d e b h = absurd (true≢false (sym b))
    follow-Rounds true left (failure text false rtt) again w w₁ w₂ d e b h =
        absurd (true≢false (sym b))
    follow-Rounds true left (failure text true rtt) again w w₁ w₂ d e b h =
        let more : left ≢ 0 = λ z. ground arith in
        timed_out left text rtt w w₁ w₂ _ _ d e more (h more)
    follow-Rounds false left (response m rtt) again w w₁ w₂ d e b h =
        end_with left _ w w₁ w₂ d e (inl refl)
    follow-Rounds false left (failure text false rtt) again w w₁ w₂ d e b h =
        end_with left _ w w₁ w₂ d e (inl refl)
    follow-Rounds false left (failure text true rtt) again w w₁ w₂ d e b h =
        end_with left _ w w₁ w₂ d e (inr (ground arith))

    round-Rounds :
        (left : ℕ) (again : Exchanged → Action W Tried) (d : Option Text) (w w₁ : W)
        → net.done w ≡ (d, w₁)
        → ((x : Exchanged) (v : W) → left ≢ 0 → Rounds ask left v (again x v).0 (again x v).1)
        → let (t, v) = round net machine type_name ask left again d w₁ in
          Rounds ask (suc left) w t v
    unfolding round
    round-Rounds left again (some text) w w₁ d h = cut left text w w₁ d
    round-Rounds left again none w w₁ d h =
        let (x, w₂) = ask w₁ in
        follow-Rounds (is_again left x) left x (again x) w w₁ w₂ d refl refl (h x w₂)

    pub attempts-Rounds :
        (k : ℕ) (before : Option Exchanged) (w : W)
        → k ≢ 0
        → let (t, v) = attempts net machine type_name ask k before w in Rounds ask k w t v
    unfolding attempts
    attempts-Rounds zero before w n = absurd (n refl)
    attempts-Rounds (suc left) before w n =
        let (d, w₁) = net.done w in
        round-Rounds left (λ x. attempts net machine type_name ask left (some x)) d w w₁ refl
          (λ x v. attempts-Rounds left (some x) v)

  pub Rounds-ended :
      (ask : Action W Exchanged) {k : ℕ} {w v : W} {t : Tried} → Rounds ask k w t v → t ≢ ended none
  Rounds-ended ask (cut left text w v d) e = cc
  Rounds-ended ask (timed_out left text rtt w w₁ w₂ v t d a more rest) e = Rounds-ended ask rest e
  Rounds-ended ask (end_with left x w w₁ v d a h) e = cc
