-- ===== src/Tests/Codecs.antt =====
-- An encoding that can be inverted, in place of JSON: a number is one element, a list its length and
-- its elements.
use dnsmon.Base.{
  ℕ, zero, suc, ◌≡◌, refl, ap, ◌∙◌, List, [], ◌∷◌, Option, none, some, Bool, true, false, Text,
  bytes, length,
}
use dnsmon.Dns.{Status, Resolver, Answer, ResolverResult, CheckSummary, Check}
use dnsmon.Settings.{Monitor}
use dnsmon.World.{Result, ok, err, failed, is_not_found}
use dnsmon.Storage.{Codec, Json}
use dnsmon.Storage.Tables.{IsCodec, Decoded}

pub record Coder (A : Type 0) : Type 0 where
  pub add : A → Text → Text
  pub read : Text → Option (A × Text)
  reads : (a : A) (s : Text) → read (add a s) ≡ some (a, s)

abbrev bind : {A B : Type 0} → Option A → (A → Option B) → Option B
bind none f = none
bind (some a) f = f a

abbrev number : Coder ℕ
number = record {
  add = λ n s. n ∷ s;
  read = λ s. elim s [ [] ↦ none | n ∷ rest ↦ some (n, rest) ];
  reads = λ n s. refl;
}

abbrev add_bool : Bool → Text → Text
add_bool true s = 1 ∷ s
add_bool false s = 0 ∷ s

abbrev read_bool : Text → Option (Bool × Text)
read_bool [] = none
read_bool (zero ∷ s) = some (false, s)
read_bool (suc n ∷ s) = some (true, s)

pub read_bool-add_bool : (b : Bool) (s : Text) → read_bool (add_bool b s) ≡ some (b, s)
read_bool-add_bool true s = refl
read_bool-add_bool false s = refl

abbrev bool : Coder Bool
bool = record { add = add_bool; read = read_bool; reads = read_bool-add_bool }

module _ {A B : Type 0} where
  abbrev pair : Coder A → Coder B → Coder (A × B)
  pair c d = record {
    add = λ p s. c.add p.0 (d.add p.1 s);
    read = λ s. bind (c.read s) (λ p. bind (d.read p.1) (λ q. some ((p.0, q.0), q.1)));
    reads = λ p s.
        ap (λ o. bind o (λ p. bind (d.read p.1) (λ q. some ((p.0, q.0), q.1))))
          (c.reads p.0 (d.add p.1 s))
        ∙ ap (λ o. bind o (λ q. some ((p.0, q.0), q.1))) (d.reads p.1 s);
  }

  abbrev same : (to : A → B) (from : B → A) → ((a : A) → from (to a) ≡ a) → Coder B → Coder A
  same to from e c = record {
    add = λ a s. c.add (to a) s;
    read = λ s. bind (c.read s) (λ p. some (from p.0, p.1));
    reads = λ a s.
        ap (λ o. bind o (λ p. some (from p.0, p.1))) (c.reads (to a) s)
        ∙ ap (λ b. some (b, s)) (e a);
  }

module _ {A : Type 0} (c : Coder A) where
  abbrev add_all : List A → Text → Text
  add_all [] s = s
  add_all (x ∷ xs) s = c.add x (add_all xs s)

  abbrev read_all : ℕ → Text → Option (List A × Text)
  read_all zero s = some ([], s)
  read_all (suc n) s = bind (c.read s) (λ p. bind (read_all n p.1) (λ q. some (p.0 ∷ q.0, q.1)))

  pub read_all-add_all :
      (xs : List A) (s : Text) → read_all (length xs) (add_all xs s) ≡ some (xs, s)
  read_all-add_all [] s = refl
  read_all-add_all (x ∷ xs) s =
      ap (λ o. bind o (λ p. bind (read_all (length xs) p.1) (λ q. some (p.0 ∷ q.0, q.1))))
        (c.reads x (add_all xs s))
      ∙ ap (λ o. bind o (λ q. some (x ∷ q.0, q.1))) (read_all-add_all xs s)

  abbrev read_counted : Text → Option (List A × Text)
  read_counted [] = none
  read_counted (n ∷ s) = read_all n s

  abbrev list : Coder (List A)
  list = record {
    add = λ xs s. length xs ∷ add_all xs s;
    read = read_counted;
    reads = read_all-add_all;
  }

  abbrev read_option : Text → Option (Option A × Text)
  read_option [] = none
  read_option (zero ∷ s) = some (none, s)
  read_option (suc n ∷ s) = bind (c.read s) (λ p. some (some p.0, p.1))

  abbrev add_option : Option A → Text → Text
  add_option none s = 0 ∷ s
  add_option (some a) s = 1 ∷ c.add a s

  pub read_option-add_option :
      (o : Option A) (s : Text) → read_option (add_option o s) ≡ some (o, s)
  read_option-add_option none s = refl
  read_option-add_option (some a) s = ap (λ o. bind o (λ p. some (some p.0, p.1))) (c.reads a s)

  abbrev option : Coder (Option A)
  option = record { add = add_option; read = read_option; reads = read_option-add_option }

  abbrev decode : Option (A × Text) → Result A
  decode (some (a, [])) = ok a
  decode _ = err (failed (bytes "invalid"))

  abbrev codec_of : Codec A
  codec_of = record { marshal = λ a. ok (c.add a []); unmarshal = λ s. decode (c.read s) }

  decode-Decoded : (o : Option (A × Text)) → Decoded codec_of (decode o)
  unfolding is_not_found
  decode-Decoded none = refl
  decode-Decoded (some (a, [])) = tt
  decode-Decoded (some (a, n ∷ s)) = refl

  pub codec_of-IsCodec : IsCodec codec_of
  codec_of-IsCodec = record {
    encodes = λ a. ap decode (c.reads a []);
    decodes = λ s. decode-Decoded (c.read s);
  }

abbrev text : Coder Text
text = list number

abbrev status_number : Status → ℕ
status_number Status.ok = 0
status_number Status.nxdomain = 1
status_number Status.timeout = 2
status_number Status.servfail = 3
status_number Status.refused = 4
status_number Status.error = 5

abbrev number_status : ℕ → Status
number_status zero = Status.ok
number_status (suc zero) = Status.nxdomain
number_status (suc (suc zero)) = Status.timeout
number_status (suc (suc (suc zero))) = Status.servfail
number_status (suc (suc (suc (suc zero)))) = Status.refused
number_status (suc (suc (suc (suc (suc n))))) = Status.error

pub number_status-status_number : (s : Status) → number_status (status_number s) ≡ s
number_status-status_number Status.ok = refl
number_status-status_number Status.nxdomain = refl
number_status-status_number Status.timeout = refl
number_status-status_number Status.servfail = refl
number_status-status_number Status.refused = refl
number_status-status_number Status.error = refl

abbrev status : Coder Status
status = same status_number number_status number_status-status_number number

abbrev five : {A : Type 0} → Coder A → Coder (A × (A × (A × (A × A))))
five c = pair c (pair c (pair c (pair c c)))

abbrev resolver : Coder Resolver
resolver =
    same
      (λ r. (
        (r.id, (r.name, (r.ip, (r.protocol, r.country)))),
        (r.city, (r.isp, (r.port, (r.lat, (r.lng, r.asn))))),
      ))
      (λ p. record {
        id = p.0.0;
        name = p.0.1.0;
        ip = p.0.1.1.0;
        protocol = p.0.1.1.1.0;
        country = p.0.1.1.1.1;
        city = p.1.0;
        isp = p.1.1.0;
        port = p.1.1.1.0;
        lat = p.1.1.1.1.0;
        lng = p.1.1.1.1.1.0;
        asn = p.1.1.1.1.1.1;
      })
      (λ r. refl)
      (pair (five text) (pair text (pair text (pair number (pair number (pair number number))))))

abbrev answer : Coder Answer
answer =
    same (λ a. (a.name, (a.type, (a.ttl, a.value))))
      (λ p. record { name = p.0; type = p.1.0; ttl = p.1.1.0; value = p.1.1.1 }) (λ a. refl)
      (pair text (pair text (pair number text)))

abbrev resolver_result : Coder ResolverResult
resolver_result =
    same
      (λ r. (
        (r.resolver, r.status),
        (
          (r.answers, (r.authority, r.additional)),
          (r.dnssec, (r.duration_ms, (r.error, r.queried_at))),
        ),
      ))
      (λ p. record {
        resolver = p.0.0;
        status = p.0.1;
        answers = p.1.0.0;
        authority = p.1.0.1.0;
        additional = p.1.0.1.1;
        dnssec = p.1.1.0;
        duration_ms = p.1.1.1.0;
        error = p.1.1.1.1.0;
        queried_at = p.1.1.1.1.1;
      })
      (λ r. refl)
      (pair (pair resolver status) (
        pair (pair (list answer) (pair (list answer) (list answer)))
          (pair (option bool) (pair number (pair text number)))))

abbrev summary : Coder CheckSummary
summary =
    same
      (λ s. (
        (s.total_resolvers, (s.responded, (s.nxdomain, (s.timeouts, s.errors)))),
        (s.unique_answer_sets, (s.consensus, (s.converged_pct, s.propagation_eta))),
      ))
      (λ p. record {
        total_resolvers = p.0.0;
        responded = p.0.1.0;
        nxdomain = p.0.1.1.0;
        timeouts = p.0.1.1.1.0;
        errors = p.0.1.1.1.1;
        unique_answer_sets = p.1.0;
        consensus = p.1.1.0;
        converged_pct = p.1.1.1.0;
        propagation_eta = p.1.1.1.1;
      })
      (λ s. refl)
      (pair (five number)
        (pair number (pair (list (pair text number)) (pair number (option number)))))

abbrev pub check : Coder Check
check =
    same (λ c. (c.id, (c.name, (c.type, (c.created_at, (c.results, c.summary))))))
      (λ p. record {
        id = p.0;
        name = p.1.0;
        type = p.1.1.0;
        created_at = p.1.1.1.0;
        results = p.1.1.1.1.0;
        summary = p.1.1.1.1.1;
      })
      (λ c. refl)
      (pair text (pair text (pair text (pair number (pair (list resolver_result) summary)))))

abbrev pub monitor : Coder Monitor
monitor =
    same
      (λ m. (
        (m.id, (m.name, (m.type, (m.fqdn, m.record_type)))),
        (m.expected, (m.scheduler_id, (m.channel_id, (m.enabled, (m.created_at, m.updated_at))))),
      ))
      (λ p. record {
        id = p.0.0;
        name = p.0.1.0;
        type = p.0.1.1.0;
        fqdn = p.0.1.1.1.0;
        record_type = p.0.1.1.1.1;
        expected = p.1.0;
        scheduler_id = p.1.1.0;
        channel_id = p.1.1.1.0;
        enabled = p.1.1.1.1.0;
        created_at = p.1.1.1.1.1.0;
        updated_at = p.1.1.1.1.1.1;
      })
      (λ m. refl)
      (pair (five text) (pair (list text) (pair text (pair text (pair bool (pair number number))))))

-- An encoding that always fails, for what is not stored.
abbrev failing : {A : Type 0} → Codec A
failing = record {
  marshal = λ a. err (failed (bytes "unsupported"));
  unmarshal = λ s. err (failed (bytes "unsupported"));
}

abbrev pub json : Json
json = record {
  check = codec_of check;
  settings = failing;
  schedule = failing;
  monitor = codec_of monitor;
  monitor_event = failing;
}
