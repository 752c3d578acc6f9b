-- ===== src/Api/HistoryRoutes.antt =====
-- internal/api/v1/history.go.
use dnsmon.Base.{
  ℕ, List, Option, none, some, ◌&&◌, Text, bytes, ltb, leb, if◌then◌else◌, ℤ, pos, negsuc,
  parse_int,
}
use dnsmon.Dns as Dns
use dnsmon.World.{Action, ◌>>=◌, pure, Storage}
use dnsmon.Api.{Reply, deleted, replied}

-- The number of checks on a page: from 1 to 100, or else 20.
unfoldable pub page_limit : Option ℤ → ℕ
page_limit none = 20
page_limit (some (pos n)) = if ltb 0 n && leb n 100 then n else 20
page_limit (some (negsuc n)) = 20

unfoldable pub page_offset : Option ℤ → ℕ
page_offset none = 0
page_offset (some (pos n)) = n
page_offset (some (negsuc n)) = 0

module _ {W : Type 0} (store : Storage W) where
  -- `ListHistory`, on the two parameters of its query, which are empty where they are missing
  unfoldable pub list_history : Text → Text → Action W (Reply (List Dns.Check))
  unfolding page_limit page_offset replied bytes parse_int
  list_history limit offset = do
    checks ← store.list_checks (page_limit (parse_int limit)) (page_offset (parse_int offset))
    pure (replied 200 (bytes "Failed to retrieve history.") checks)

  -- `DeleteHistory`
  unfoldable pub delete_history : Text → Action W (Reply (Unit {0}))
  unfolding deleted bytes
  delete_history id = do
    done ← store.delete_check id
    pure (deleted (bytes "Check not found.") (bytes "Failed to delete check.") done)
