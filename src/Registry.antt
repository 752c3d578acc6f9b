-- ===== src/Registry.antt =====
-- internal/resolvers: the set of known resolvers. The state keeps the resolvers in order and a map
-- by their ids; a lock guards each operation, so an operation is one step. What a resolver file
-- holds comes as an argument, since reading it and `json.Unmarshal` lie outside.
pub mod Lookup
use dnsmon.Base.{
  ℕ, List, [], ◌∷◌, ◌++◌, Option, none, some, Bool, not, Text, bytes, lookup, insert, is_empty,
  keep, contains_text, to_lower, to_upper, member, map, ◌&&◌, ◌||◌, decimal, ◌==◌, if◌then◌else◌,
}
use dnsmon.Dns.{Resolver}
use dnsmon.World.{Error, wrap, Result, ok, err}

pub record Registry : Type 0 where
  pub resolvers : List Resolver
  pub by_id : List (Text × Resolver)

-- `IsValid(r)`
unfoldable pub is_valid : Resolver → Bool
is_valid r = not (is_empty r.ip)

-- `Addr(r)`
unfoldable pub addr : Resolver → Text
unfolding bytes decimal
addr r = r.ip ++ bytes ":" ++ decimal (if r.port == 0 then 53 else r.port)

-- `NewRegistry()`
unfoldable pub new_registry : Registry
new_registry = record { resolvers = []; by_id = [] }

-- The body of the loop that `Load` and `LoadFile` share.
unfoldable pub add_one : Registry → Resolver → Registry
unfolding is_valid insert
add_one reg r =
    if is_valid r
    then record { resolvers = reg.resolvers ++ r ∷ []; by_id = insert r.id r reg.by_id }
    else reg

unfoldable pub add_all : Registry → List Resolver → Registry
unfolding add_one
add_all reg [] = reg
add_all reg (r ∷ rs) = add_all (add_one reg r) rs

-- `Load(resolvers)` forgets what was there.
unfoldable pub load : List Resolver → Registry → Registry
unfolding add_all new_registry
load rs reg = add_all new_registry rs

-- `Get(id)`
unfoldable pub get : Registry → Text → Option Resolver
unfolding lookup
get reg id = lookup id reg.by_id

-- `All()`
unfoldable pub all : Registry → List Resolver
all reg = reg.resolvers

haystack : Resolver → Text
haystack r = to_lower (
    r.name
    ++ bytes " "
    ++ r.city
    ++ bytes " "
    ++ r.country
    ++ bytes " "
    ++ r.ip
    ++ bytes " "
    ++ r.isp)

-- The two tests of the loop of `Filter`, on the lowered query and the uppered countries.
unfoldable pub is_match : List Text → Text → Resolver → Bool
unfolding haystack bytes
is_match countries q r =
    (is_empty countries || member r.country countries)
    && (is_empty q || contains_text (haystack r) q)

-- `Filter(countries, q)`
unfoldable pub filter : Registry → List Text → Text → List Resolver
unfolding is_match keep
filter reg countries q = keep (is_match (map to_upper countries) (to_lower q)) reg.resolvers

-- What `os.ReadFile` and `json.Unmarshal` make of a resolver file.
pub data FileContent : Type 0 where
  unreadable : Error → FileContent
  malformed : Error → FileContent
  loaded : List Resolver → FileContent

-- `LoadFile(path)`
unfoldable pub load_file : Text → FileContent → Registry → Result (Unit {0}) × Registry
unfolding bytes add_all
load_file path (unreadable e) reg = (err (wrap (bytes "reading resolvers file " ++ path) e), reg)
load_file path (malformed e) reg = (err (wrap (bytes "parsing resolvers file " ++ path) e), reg)
load_file path (loaded rs) reg = (ok tt, add_all reg rs)

-- The two fields of `cfg.Resolvers` that `Reload` reads.
pub record ResolversConfig : Type 0 where
  pub builtin : Bool
  pub file : Text

wrap_load : Result (Unit {0}) × Registry → Result (Unit {0}) × Registry
wrap_load (ok u, reg) = (ok u, reg)
wrap_load (err e, reg) = (err (wrap (bytes "loading resolver file") e), reg)

-- `Reload(cfg, builtin)`
unfoldable pub reload :
    ResolversConfig → List Resolver → (Text → FileContent) → Registry → Result (Unit {0}) × Registry
unfolding wrap_load load load_file
reload cfg builtin files reg =
    let base = load (if cfg.builtin then builtin else []) reg in
    if is_empty cfg.file
    then (ok tt, base)
    else wrap_load (load_file cfg.file (files cfg.file) base)
