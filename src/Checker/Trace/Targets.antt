-- ===== src/Checker/Trace/Targets.antt =====
-- The addresses that a trace gathers: none is private, loopback or link-local.
use dnsmon.Base.{
  ℕ, zero, suc, ◌≤◌, ◌<◌, ◌≡◌, refl, sym, ap, ◌∙◌, List, [], ◌∷◌, ◌++◌, Option, none, some, Bool,
  true, false, not, ◌&&◌, ◌||◌, Text, bytes, is_empty, lookup, insert, member, if◌then◌else◌,
  length, All, All-append, arith, trim_dot, ltb, text_eq, map, take,
}
use dnsmon.Dns.{TraceStep, TraceResult}
use dnsmon.Dns.Records.{RrData, Rr}
use dnsmon.Checker.Trace.{
  IpAddr, root_servers, key_of, Glue, add_if_open, glue_one, glue_all, Servers, push, fresh_glue,
  first_open, push_some, after_lookup,
}
use dnsmon.Dns.Ip
use dnsmon.Checker.Request.{is_private_or_local}

abbrev pub IsOpen : Text → Type 0
IsOpen ip = is_private_or_local ip ≡ false

abbrev IsOpenEntry : Text × Text → Type 0
IsOpenEntry e = IsOpen e.1

abbrev pub IsOpenGlue : Glue → Type 0
IsOpenGlue g = All IsOpenEntry g.v4 × All IsOpenEntry g.v6

abbrev pub IsOpenSome : Option Text → Type 0
IsOpenSome none = Unit
IsOpenSome (some ip) = IsOpen ip

insert-IsOpen :
    (k ip : Text) (m : List (Text × Text))
    → IsOpen ip
    → All IsOpenEntry m
    → All IsOpenEntry (insert k ip m)
unfolding insert
insert-IsOpen k ip [] i h = (i, tt)
insert-IsOpen k ip (e ∷ m) i h = go (text_eq e.0 k) (insert-IsOpen k ip m i h.1)
  where
    go :
        (b : Bool)
        → All IsOpenEntry (insert k ip m)
        → All IsOpenEntry (if b then (k, ip) ∷ m else e ∷ insert k ip m)
    go true r = (i, h.1)
    go false r = (h.0, r)

lookup-IsOpen : (k : Text) (m : List (Text × Text)) → All IsOpenEntry m → IsOpenSome (lookup k m)
unfolding lookup
lookup-IsOpen k [] h = tt
lookup-IsOpen k (e ∷ m) h = go (text_eq e.0 k) (lookup-IsOpen k m h.1)
  where
    go : (b : Bool) → IsOpenSome (lookup k m) → IsOpenSome (if b then some e.1 else lookup k m)
    go true r = h.0
    go false r = r

add_if_open-IsOpen :
    (name ip : Text) (m : List (Text × Text))
    → All IsOpenEntry m
    → All IsOpenEntry (add_if_open name ip m)
unfolding add_if_open
add_if_open-IsOpen name ip m h = go (is_private_or_local ip) refl
  where
    go :
        (b : Bool)
        → is_private_or_local ip ≡ b
        → All IsOpenEntry (if b then m else insert (key_of name) ip m)
    go true e = h
    go false e = insert-IsOpen (key_of name) ip m e h

glue_one-IsOpen :
    (name : Text) (d : RrData) (g : Glue) → IsOpenGlue g → IsOpenGlue (glue_one name d g)
unfolding glue_one
glue_one-IsOpen name (RrData.a ip) g h = (add_if_open-IsOpen name ip g.v4 h.0, h.1)
glue_one-IsOpen name (RrData.aaaa ip) g h = (h.0, add_if_open-IsOpen name ip g.v6 h.1)
glue_one-IsOpen name _ g h = h

pub glue_all-IsOpen : (g : Glue) (rrs : List Rr) → IsOpenGlue g → IsOpenGlue (glue_all g rrs)
unfolding glue_all
glue_all-IsOpen g [] h = h
glue_all-IsOpen g (rr ∷ rrs) h =
    glue_all-IsOpen (glue_one rr.name rr.body g) rrs (glue_one-IsOpen rr.name rr.body g h)

pub fresh_glue-IsOpen :
    (name : Text) (m : List (Text × Text)) (s : Servers)
    → All IsOpenEntry m
    → IsOpenSome (fresh_glue name m s)
unfolding fresh_glue
fresh_glue-IsOpen name m s h = go (lookup name m) (lookup-IsOpen name m h)
  where
    choose : (ip : Text) (b : Bool) → IsOpen ip → IsOpenSome (if b then none else some ip)
    choose ip true i = tt
    choose ip false i = i

    go :
        (o : Option Text)
        → IsOpenSome o
        → IsOpenSome (elim o [ none ↦ none | some ip ↦ if member ip s.seen then none else some ip ])
    go none i = tt
    go (some ip) i = choose ip (member ip s.seen) i

first_open-IsOpen : (addrs : List IpAddr) (s : Servers) → IsOpenSome (first_open addrs s)
unfolding first_open
first_open-IsOpen [] s = tt
first_open-IsOpen (a ∷ rest) s =
    go a.is_v4 (is_private_or_local a.text) (not (member a.text s.seen)) refl
      (first_open-IsOpen rest s)
  where
    go :
        (b p c : Bool)
        → is_private_or_local a.text ≡ p
        → IsOpenSome (first_open rest s)
        → IsOpenSome (if b && not p && c then some a.text else first_open rest s)
    go false p c e r = r
    go true true c e r = r
    go true false false e r = r
    go true false true e r = e

pub push-IsOpen :
    (ip : Text) (s : Servers) → IsOpen ip → All IsOpen s.next → All IsOpen (push ip s).next
unfolding push
push-IsOpen ip s i h = All-append IsOpen s.next (ip ∷ []) h (i, tt)

push_some-IsOpen :
    (o : Option Text) (s : Servers)
    → IsOpenSome o
    → All IsOpen s.next
    → All IsOpen (push_some o s).next
unfolding push_some
push_some-IsOpen none s i h = h
push_some-IsOpen (some ip) s i h = push-IsOpen ip s i h

pub after_lookup-IsOpen :
    (name : Text) (v6 : List (Text × Text)) (s : Servers) (addrs : Option (List IpAddr))
    → All IsOpenEntry v6
    → All IsOpen s.next
    → All IsOpen (after_lookup name v6 s addrs).next
unfolding after_lookup
after_lookup-IsOpen name v6 s none g h =
    push_some-IsOpen (fresh_glue name v6 s) s (fresh_glue-IsOpen name v6 s g) h
after_lookup-IsOpen name v6 s (some addrs) g h =
    go (push_some (first_open addrs s) s) (ltb 0 (length (push_some (first_open addrs s) s).next))
      (push_some-IsOpen (first_open addrs s) s (first_open-IsOpen addrs s) h)
  where
    go :
        (t : Servers) (b : Bool)
        → All IsOpen t.next
        → All IsOpen (if b then t else push_some (fresh_glue name v6 t) t).next
    go t true i = i
    go t false i = push_some-IsOpen (fresh_glue name v6 t) t (fresh_glue-IsOpen name v6 t g) i

pub root_servers-IsOpen : All IsOpen root_servers
unfolding root_servers is_private_or_local dnsmon.Base.has_suffix dnsmon.Base.to_lower text_eq
    dnsmon.Dns.Ip.parse_ip dnsmon.Dns.Ip.is_loopback dnsmon.Dns.Ip.is_private
    dnsmon.Dns.Ip.is_link_local_unicast dnsmon.Dns.Ip.is_link_local_multicast
root_servers-IsOpen = (refl, (refl, (refl, (refl, tt))))
