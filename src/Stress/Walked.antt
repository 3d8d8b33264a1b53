-- ===== src/Stress/Walked.antt =====
-- harness/parallel_scenarios.go: what the server loop of validateStress leaves.
use rules_stests.Base.{
  ◌≡◌, ◌⊎◌, refl, sym, ◌∙◌, inl, inr, true, false, not, List, [], ◌∷◌, Option, some, Text, codes,
  mem, lookup, text_eq_self, keys, lookup-cons_new, Distinct, All, ok, ◌>>=◌, guard_iff, >>=-eq-ok,
  Bool-cases, arith,
}
use rules_stests.Stress.Ledger.{
  RequestLedger, parent_in_capture, unexpected_server, duplicate_server,
}
use rules_stests.Stress.Contexts.{StressSpan, StressIdentity, value_at, or_error}
use rules_stests.Stress.Servers.{
  Spans, is_datadog_server, is_captured, check_span, add_server, add_servers,
}
use rules_stests.Stress.Continued.{or_error-eq-ok}
use rules_stests.Stress.Matched.{Matches, check_span-Matches}

abbrev pub Servers : Type 0
Servers = List (Text × StressIdentity)

abbrev pub id_of : StressSpan → Text
id_of s = value_at (codes "rules_stests.request_id") s.meta

-- The map holds `s` at `key`.
abbrev pub In : StressIdentity → StressSpan → Spans → Type 0
In key s [] = ⊥
In key s ((k, x) ∷ more) = ((k ≡ key) × (x ≡ s)) ⊎ In key s more

module _ (url_path : Text → Option Text) (service : Text) (spans : Spans)
    (requests : List (Text × RequestLedger)) where
  -- An entry of `servers`: a captured server span, whose parent is not captured, and its request.
  pub record IsServer (id : Text) (key : StressIdentity) : Type 0 where
    pub span : StressSpan
    pub request : RequestLedger
    pub inside : In key span spans
    pub server : is_datadog_server span.name ≡ true
    pub known : lookup id requests ≡ some request
    pub matches : Matches url_path service key span request

  -- What the loop leaves, from any `servers`.
  pub record Walked (todo : Spans) (servers more : Servers) : Type 0 where
    pub entries : All (λ e. IsServer e.0 e.1) servers → All (λ e. IsServer e.0 e.1) more
    pub kept : (k : Text) (v : StressIdentity) → lookup k servers ≡ some v → lookup k more ≡ some v
    pub found :
        All (λ e. is_datadog_server e.1.name ≡ true → lookup (id_of e.1) more ≡ some e.0) todo
    pub apart :
        All
          (λ e.
            is_datadog_server e.1.name ≡ true
            → is_captured (record e.0 { span = e.1.parent_id }) spans ≡ false)
          todo
    pub distinct : Distinct (keys servers) → Distinct (keys more)

  -- One server span that passes.
  record Accepted (servers more : Servers) (key : StressIdentity) (s : StressSpan) : Type 0 where
    request : RequestLedger
    known : lookup (id_of s) requests ≡ some request
    alone : is_captured (record key { span = s.parent_id }) spans ≡ false
    new : mem (id_of s) (keys servers) ≡ false
    matches : Matches url_path service key s request
    stored : more ≡ (id_of s, key) ∷ servers

  add_server-Accepted :
      (servers : Servers) (key : StressIdentity) (s : StressSpan) {more : Servers}
      → add_server url_path service spans requests servers key s ≡ ok more
      → Accepted servers more key s
  unfolding add_server
  add_server-Accepted servers key s h =
      let (alone, h1) =
        (guard_iff (not (is_captured (record key { span = s.parent_id }) spans)) parent_in_capture
            _).0
          h in
      let (r, known, h2) =
        >>=-eq-ok (or_error (lookup (id_of s) requests) (unexpected_server (id_of s))) _ h1 in
      let (new, h3) = (guard_iff (not (mem (id_of s) (keys servers))) duplicate_server _).0 h2 in
      let (d, checked, h4) = >>=-eq-ok (check_span url_path service key s r) _ h3 in
      record {
        request = r;
        known = or_error-eq-ok _ (unexpected_server (id_of s)) known;
        alone = ground arith;
        new = ground arith;
        matches = check_span-Matches url_path service key s r checked;
        stored = cc h4;
      }

  cons_server-Walked :
      (todo : Spans) (servers next : Servers) (key : StressIdentity) (s : StressSpan)
      {more : Servers}
      → is_datadog_server s.name ≡ true
      → In key s spans
      → Accepted servers next key s
      → Walked todo next more
      → Walked ((key, s) ∷ todo) servers more
  cons_server-Walked todo servers next key s server inside a w =
      let entry : IsServer (id_of s) key = record {
        span = s;
        request = a.request;
        inside = inside;
        server = server;
        known = a.known;
        matches = a.matches;
      } in
      let here : lookup (id_of s) next ≡ some key =
        rw a.stored (unfold lookup in rw (text_eq_self (id_of s))) in
      record {
        entries = λ es. w.entries (rw a.stored (entry, es));
        kept =
            λ k v e. w.kept k v (rw a.stored (lookup-cons_new k (id_of s) key v servers a.new e));
        found = (λ yes. w.kept (id_of s) key here, w.found);
        apart = (λ yes. a.alone, w.apart);
        distinct = λ d. w.distinct (rw a.stored (a.new, d));
      }

  cons_other-Walked :
      (todo : Spans) (servers : Servers) (key : StressIdentity) (s : StressSpan) {more : Servers}
      → is_datadog_server s.name ≡ false
      → Walked todo servers more
      → Walked ((key, s) ∷ todo) servers more
  cons_other-Walked todo servers key s other w = record {
    entries = w.entries;
    kept = w.kept;
    found = (λ yes. cc (sym yes ∙ other), w.found);
    apart = (λ yes. cc (sym yes ∙ other), w.apart);
    distinct = w.distinct;
  }

  pub add_servers-Walked :
      (todo : Spans) (servers : Servers) {more : Servers}
      → ((key : StressIdentity) (s : StressSpan) → In key s todo → In key s spans)
      → add_servers url_path service spans requests todo servers ≡ ok more
      → Walked todo servers more
  unfolding add_servers
  add_servers-Walked [] servers {more = more} inside h =
      let same : servers ≡ more = cc h in
      rw (sym same)
        (record { entries = λ a. a; kept = λ k v e. e; found = tt; apart = tt; distinct = λ d. d })
  add_servers-Walked ((key, s) ∷ todo) servers {more = more} inside h =
      let later : (k : StressIdentity) (x : StressSpan) → In k x todo → In k x spans =
        λ k x i. inside k x (inr i) in
      elim (Bool-cases (is_datadog_server s.name)) [
        | inl server ↦
            let opened : (add_server url_path service spans requests servers key s >>= λ next.
            add_servers url_path service spans requests todo next)
                ≡ ok more =
              ground arith in
            let (next, e, h1) =
              >>=-eq-ok (add_server url_path service spans requests servers key s) _ opened in
            cons_server-Walked todo servers next key s server (inside key s (inl (refl, refl)))
              (add_server-Accepted servers key s e) (add_servers-Walked todo next later h1)
        | inr other ↦
            let rest : add_servers url_path service spans requests todo servers ≡ ok more =
              ground arith in
            cons_other-Walked todo servers key s other (add_servers-Walked todo servers later rest)
      ]
