-- ===== src/Stress/Matched.antt =====
-- harness/parallel_scenarios.go: a server span that validateStress accepts, and its request.
use rules_stests.Base.{
  ◌≡◌, ◌⊎◌, refl, ap, ◌∙◌, inl, inr, true, [], ◌∷◌, if◌then◌else◌, Option, some, Text, codes,
  is_nil, text_eq, text_eq_iff, ok, ◌>>=◌, guard, guard_iff, >>=-eq-ok, arith,
}
use rules_stests.Stress.Ledger.{eq_int, RequestLedger, wrong_metadata, wrong_error, wrong_path}
use rules_stests.Stress.Numbered.{eq_int_iff}
use rules_stests.Stress.Contexts.{StressSpan, StressIdentity, value_at, or_error}
use rules_stests.Stress.Servers.{
  itoa, before_query, check_metadata, expected_error, check_path, check_span,
}
use rules_stests.Stress.Continued.{Continues, check_parent-Continues, or_error-eq-ok}

module _ (url_path : Text → Option Text) (service : Text) where
  -- What a server span says of its request.
  pub record Matches (key : StressIdentity) (s : StressSpan) (r : RequestLedger) : Type 0 where
    pub kind : s.kind ≡ codes "web"
    pub service_name : s.service ≡ service
    pub method : value_at (codes "http.method") s.meta ≡ r.method
    pub status : value_at (codes "http.status_code") s.meta ≡ itoa r.status
    pub error : s.error ≡ expected_error r.status
    pub path :
        (value_at (codes "http.url") s.meta ≡ [])
        ⊎ (url_path (value_at (codes "http.url") s.meta) ≡ some (before_query r.path))
    pub continued : Continues key s r.incoming

  check_path_lem :
      (s : StressSpan) (r : RequestLedger)
      → check_path url_path s r ≡ ok tt
      → (value_at (codes "http.url") s.meta ≡ [])
        ⊎ (url_path (value_at (codes "http.url") s.meta) ≡ some (before_query r.path))
  unfolding check_path
  check_path_lem s r h = go (value_at (codes "http.url") s.meta) h
    where
      go :
          (path : Text)
          → (if is_nil path
              then ok tt
              else or_error (url_path path) wrong_path >>= λ parsed.
                  guard (text_eq parsed (before_query r.path)) wrong_path)
            ≡ ok tt
          → (path ≡ []) ⊎ (url_path path ≡ some (before_query r.path))
      go [] e = inl refl
      go (c ∷ cs) e =
          let (parsed, found, e1) = >>=-eq-ok (or_error (url_path (c ∷ cs)) wrong_path) _ e in
          let same : text_eq parsed (before_query r.path) ≡ true = ground arith in
          inr (or_error-eq-ok _ wrong_path found ∙ ap some ((text_eq_iff parsed _).0 same))

  pub check_span-Matches :
      (key : StressIdentity) (s : StressSpan) (r : RequestLedger)
      → check_span url_path service key s r ≡ ok tt
      → Matches key s r
  unfolding check_span check_metadata
  check_span-Matches key s r h =
      let (d, meta, h1) = >>=-eq-ok (check_metadata service s r) _ h in
      let (error, h2) = (guard_iff (eq_int s.error (expected_error r.status)) wrong_error _).0 h1 in
      let (d', path, h3) = >>=-eq-ok (check_path url_path s r) _ h2 in
      let (kind, m1) = (guard_iff (text_eq s.kind (codes "web")) wrong_metadata _).0 meta in
      let (name, m2) = (guard_iff (text_eq s.service service) wrong_metadata _).0 m1 in
      let (method, m3) =
        (guard_iff (text_eq (value_at (codes "http.method") s.meta) r.method) wrong_metadata _).0
          m2 in
      let status : text_eq (value_at (codes "http.status_code") s.meta) (itoa r.status) ≡ true =
        ground arith in
      record {
        kind = (text_eq_iff _ _).0 kind;
        service_name = (text_eq_iff _ _).0 name;
        method = (text_eq_iff _ _).0 method;
        status = (text_eq_iff _ _).0 status;
        error = (eq_int_iff _ _).0 error;
        path = check_path_lem s r path;
        continued = check_parent-Continues key s r h3;
      }
