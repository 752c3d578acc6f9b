-- ===== src/Settings/Ids.antt =====
-- internal/settings/secret.go, `NewID`.
use dnsmon.Base.{ℕ, ◌+◌, ◌-◌, ◌/◌, ◌%◌, [], ◌∷◌, Option, none, some, Text, ltb, if◌then◌else◌}
use dnsmon.World.{Action, ◌>>=◌, pure, Machine}

nibble : ℕ → ℕ
nibble n = if ltb n 10 then b'0' + n else b'a' + (n - 10)

-- `hex.EncodeToString`
unfoldable pub hex : Text → Text
unfolding nibble
hex [] = []
hex (b ∷ s) = nibble (b / 16) ∷ nibble (b % 16) ∷ hex s

-- Where the random source fails the buffer stays zero.
bytes_or_zero : Option Text → Text
bytes_or_zero none = 0 ∷ 0 ∷ 0 ∷ 0 ∷ 0 ∷ 0 ∷ 0 ∷ 0 ∷ []
bytes_or_zero (some s) = s

unfoldable pub new_id : {W : Type 0} → Machine W → Action W Text
unfolding hex bytes_or_zero
new_id machine = do raw ← machine.random 8; pure (hex (bytes_or_zero raw))
