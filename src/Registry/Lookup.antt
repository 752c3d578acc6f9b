-- ===== src/Registry/Lookup.antt =====
-- The map of the registry agrees with its list, and what the lookups and the filter find.
use dnsmon.Base.{
  List, [], ◌∷◌, ◌++◌, Option, none, some, Bool, true, Text, lookup, lookup-insert, text_eq, keep,
  All, All-append, ◌≡◌, refl, sym, ap, ◌∙◌, arith, Bool-cases, if◌then◌else◌, or_else, inl, inr,
  append_assoc, append-nil,
}
use dnsmon.Dns.{Resolver}
use dnsmon.Registry.{
  Registry, is_valid, add_one, add_all, load, load_file, get, all, new_registry, FileContent,
}
use dnsmon.World.{Error, ok, err}

-- The last resolver of a list that has the id.
unfoldable pub find_last : Text → List Resolver → Option Resolver
find_last id [] = none
find_last id (r ∷ rs) = or_else (find_last id rs) (if text_eq r.id id then some r else none)

find_last-snoc :
    (id : Text) (rs : List Resolver) (r : Resolver)
    → find_last id (rs ++ r ∷ []) ≡ (if text_eq r.id id then some r else find_last id rs)
unfolding find_last
find_last-snoc id [] r = refl
find_last-snoc id (q ∷ rs) r = ground (arith, find_last-snoc id rs r)

-- The map has for each id the last resolver of the list with that id, and each has an address.
pub record IsConsistent (reg : Registry) : Type 0 where
  pub indexed : (id : Text) → lookup id reg.by_id ≡ find_last id reg.resolvers
  pub valid : All (λ r. is_valid r ≡ true) reg.resolvers

new_registry-IsConsistent : IsConsistent new_registry
unfolding new_registry find_last lookup
new_registry-IsConsistent = record { indexed = λ id. refl; valid = tt }

add_one-IsConsistent :
    (reg : Registry) (r : Resolver) → IsConsistent reg → IsConsistent (add_one reg r)
unfolding add_one
add_one-IsConsistent reg r c = elim (Bool-cases (is_valid r)) [
  | inl v ↦ rw v (record {
    indexed = λ id.
        lookup-insert r.id id r reg.by_id
        ∙ ap (λ (o : Option Resolver). if text_eq r.id id then some r else o) (c.indexed id)
        ∙ sym (find_last-snoc id reg.resolvers r);
    valid = All-append _ reg.resolvers (r ∷ []) c.valid (v, tt);
  })
  | inr v ↦ rw v c
]

add_one-resolvers :
    (reg : Registry) (r : Resolver)
    → (add_one reg r).resolvers ≡ reg.resolvers ++ keep is_valid (r ∷ [])
unfolding add_one keep
add_one-resolvers reg r = elim (Bool-cases (is_valid r)) [
  | inl v ↦ rw (v, add_one, keep)
  | inr v ↦ rw (v, add_one, keep) (sym (append-nil reg.resolvers))
]

keep-append :
    (p : Resolver → Bool) (xs ys : List Resolver) → keep p (xs ++ ys) ≡ keep p xs ++ keep p ys
unfolding keep
keep-append p [] ys = refl
keep-append p (x ∷ xs) ys = ground (arith, keep-append p xs ys)

-- Adding resolvers keeps the registry consistent.
pub add_all-IsConsistent :
    (reg : Registry) (rs : List Resolver) → IsConsistent reg → IsConsistent (add_all reg rs)
unfolding add_all
add_all-IsConsistent reg [] c = c
add_all-IsConsistent reg (r ∷ rs) c =
    add_all-IsConsistent (add_one reg r) rs (add_one-IsConsistent reg r c)

-- What `add_all` appends.
pub add_all-resolvers :
    (reg : Registry) (rs : List Resolver)
    → (add_all reg rs).resolvers ≡ reg.resolvers ++ keep is_valid rs
unfolding add_all
add_all-resolvers reg [] = unfold keep in sym (append-nil reg.resolvers)
add_all-resolvers reg (r ∷ rs) =
    add_all-resolvers (add_one reg r) rs
    ∙ ap (λ (xs : List Resolver). xs ++ keep is_valid rs) (add_one-resolvers reg r)
    ∙ append_assoc reg.resolvers (keep is_valid (r ∷ [])) (keep is_valid rs)
    ∙ ap (λ (xs : List Resolver). reg.resolvers ++ xs) (sym (keep-append is_valid (r ∷ []) rs))

find_last-append :
    (id : Text) (rs qs : List Resolver)
    → find_last id (rs ++ qs) ≡ or_else (find_last id qs) (find_last id rs)
unfolding find_last
find_last-append id [] qs = ground arith
find_last-append id (r ∷ rs) qs = ground (arith, find_last-append id rs qs)

-- Whatever the registry held, after `Load` it holds the given resolvers that have an address, in
-- their order, and finds by an id the last of them with that id; the result is consistent.
pub load-get :
    (rs : List Resolver) (reg : Registry)
    → IsConsistent (load rs reg)
      × (all (load rs reg) ≡ keep is_valid rs)
      × ((id : Text) → get (load rs reg) id ≡ find_last id (keep is_valid rs))
unfolding load all get
load-get rs reg =
    let same = add_all-resolvers new_registry rs in
    let c = add_all-IsConsistent new_registry rs new_registry-IsConsistent in
    (
      c,
      unfold new_registry in same,
      λ id. c.indexed id ∙ ap (find_last id) (unfold new_registry in same),
    )

abbrev pub LoadFileSpec : Text → FileContent → Registry → Type 0
LoadFileSpec path (FileContent.loaded rs) reg =
    let after = load_file path (FileContent.loaded rs) reg in
    (after.0 ≡ ok tt)
    × IsConsistent after.1
    × (all after.1 ≡ all reg ++ keep is_valid rs)
    × ((id : Text) → get after.1 id ≡ or_else (find_last id (keep is_valid rs)) (get reg id))
LoadFileSpec path content reg = (e : Error) × (load_file path content reg ≡ (err e, reg))

-- `LoadFile` on a consistent registry: a file that cannot be read or parsed is an error and changes
-- nothing; else the resolvers of the file that have an address come behind those that were there,
-- the registry stays consistent, and an id finds the file's resolver before an earlier one.
pub load_file-get :
    (path : Text) (content : FileContent) (reg : Registry)
    → IsConsistent reg
    → LoadFileSpec path content reg
unfolding load_file all get
load_file-get path (FileContent.unreadable e) reg c = (_, refl)
load_file-get path (FileContent.malformed e) reg c = (_, refl)
load_file-get path (FileContent.loaded rs) reg c =
    let same = add_all-resolvers reg rs in
    let c' = add_all-IsConsistent reg rs c in
    (
      refl,
      c',
      same,
      λ id.
          c'.indexed id
          ∙ ap (find_last id) same
          ∙ find_last-append id reg.resolvers (keep is_valid rs)
          ∙ ap (or_else (find_last id (keep is_valid rs))) (sym (c.indexed id)),
    )
