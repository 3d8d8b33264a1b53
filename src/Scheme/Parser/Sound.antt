-- ===== src/Scheme/Parser/Sound.antt =====
-- parseScheme of report/report/scheme.go accepts its grammar, and nothing else.
use mathlib.Core.Path.{subst, subst₂}
use rules_stests.Base.{
  ℕ, zero, suc, ◌+◌, ◌*◌, ◌<◌, false, ◌≡◌, ◌≢◌, ◌↔◌, refl, inl, inr, List, [], ◌∷◌, Bool-cases,
  Text, length, text_eq, text_eq_iff, ok, >>=-eq-ok, arith,
}
use rules_stests.Scheme.Expr.{Sexpr, Sexprs, cons, atom_of}
use rules_stests.Scheme.Parser.{
  opening, closing, tick, parse_one, parse_items, parse_forms, parse_scheme,
}
use rules_stests.Scheme.Parser.Grammar.{
  Form, plain, ticked, listed, Items, close, item, Forms, done, more, length-lt_of_Form,
}

text_ne : (a b : Text) → text_eq a b ≡ false → a ≢ b
text_ne a b h e = cc ((text_eq_iff a b).1 e)

ne_text : (a b : Text) → a ≢ b → text_eq a b ≡ false
ne_text a b h = ground (arith, text_eq_iff a b)

mutual
  unfolding parse_one

  pub parse_one-Form :
      (f : ℕ) (ts : List Sexpr) (e : Sexpr) (rest : List Sexpr)
      → parse_one f ts ≡ ok (e, rest)
      → Form ts e rest
  parse_one-Form zero ts e rest h = cc
  parse_one-Form (suc f) [] e rest h = cc
  parse_one-Form (suc f) (t ∷ ts) e rest h = elim (Bool-cases (text_eq (atom_of t) opening)) [
    | inl op ↦
        let ((items, r), p, q) = >>=-eq-ok (parse_items f ts) _ (rw op at h) in
        subst₂ (Form (t ∷ ts)) (cc q) (cc q)
          (listed ((text_eq_iff _ opening).0 op) (parse_items-Items f ts items r p))
    | inr op ↦ elim (Bool-cases (text_eq (atom_of t) closing)) [
      | inl cl ↦ cc (rw (op, cl) at h)
      | inr cl ↦ elim (Bool-cases (text_eq (atom_of t) tick)) [
        | inl ti ↦
            let ((x, r), p, q) = >>=-eq-ok (parse_one f ts) _ (rw (op, cl, ti) at h) in
            subst₂ (Form (t ∷ ts)) (cc q) (cc q)
              (ticked ((text_eq_iff _ tick).0 ti) (parse_one-Form f ts x r p))
        | inr ti ↦
            let q = rw (op, cl, ti) at h in
            subst₂ (Form (t ∷ ts)) (cc q) (cc q)
              (plain (text_ne _ opening op) (text_ne _ closing cl) (text_ne _ tick ti))
      ]
    ]
  ]

  parse_items-Items :
      (f : ℕ) (ts : List Sexpr) (es : Sexprs) (rest : List Sexpr)
      → parse_items f ts ≡ ok (es, rest)
      → Items ts es rest
  parse_items-Items zero ts es rest h = cc
  parse_items-Items (suc f) [] es rest h = cc
  parse_items-Items (suc f) (t ∷ ts) es rest h = elim (Bool-cases (text_eq (atom_of t) closing)) [
    | inl cl ↦
        let q = rw cl at h in
        subst₂ (Items (t ∷ ts)) (cc q) (cc q) (close ((text_eq_iff _ closing).0 cl))
    | inr cl ↦
        let ((x, mid), p, h₁) = >>=-eq-ok (parse_one f (t ∷ ts)) _ (rw cl at h) in
        let ((xs, r), p₁, q) = >>=-eq-ok (parse_items f mid) _ h₁ in
        subst₂ (Items (t ∷ ts)) (cc q) (cc q)
          (item (parse_one-Form f (t ∷ ts) x mid p) (parse_items-Items f mid xs r p₁))
  ]

-- A form begins with a token that is no closing bracket.
Form-start :
    {ts rest : List Sexpr} {e : Sexpr}
    → Form ts e rest
    → (t : Sexpr) × (us : List Sexpr) × (ts ≡ t ∷ us) × (atom_of t ≢ closing)
Form-start (plain {t} {rest} a b c) = (t, rest, refl, b)
Form-start (ticked {t} {ts = us} a d) = (t, us, refl, λ e. ground (arith, a, e))
Form-start (listed {t} {ts = us} a d) = (t, us, refl, λ e. ground (arith, a, e))

-- One round of the inner loop: an element, and the elements behind it.
items_step :
    (f : ℕ) {ts mid rest : List Sexpr} {e : Sexpr} {es : Sexprs}
    → parse_one f ts ≡ ok (e, mid)
    → parse_items f mid ≡ ok (es, rest)
    → (t : Sexpr) × (us : List Sexpr) × (ts ≡ t ∷ us) × (atom_of t ≢ closing)
    → parse_items (suc f) ts ≡ ok (cons e es, rest)
unfolding parse_items
items_step f p q (t, us, e, n) = rw e (rw (ne_text _ closing n, rw e at p, q))

mutual
  unfolding parse_one text_eq

  Form-parse_one :
      {ts rest : List Sexpr} {e : Sexpr}
      → Form ts e rest
      → (f : ℕ) → 2 * length ts < f
      → parse_one f ts ≡ ok (e, rest)
  Form-parse_one d zero h = absurd (omega arith)
  Form-parse_one (plain {t} a b c) (suc f) h =
      rw (ne_text _ opening a, ne_text _ closing b, ne_text _ tick c)
  Form-parse_one (ticked {t} a d) (suc f) h = rw (a, Form-parse_one d f (omega arith)) refl
  Form-parse_one (listed {t} a d) (suc f) h = rw (a, Items-parse_items d f (omega arith)) refl

  Items-parse_items :
      {ts rest : List Sexpr} {es : Sexprs}
      → Items ts es rest
      → (f : ℕ) → 2 * length ts + 1 < f
      → parse_items f ts ≡ ok (es, rest)
  Items-parse_items d zero h = absurd (omega arith)
  Items-parse_items (close a) (suc f) h = rw a refl
  Items-parse_items (item d ds) (suc f) h =
      items_step f (Form-parse_one d f (omega arith))
        (Items-parse_items ds f (omega (arith, length-lt_of_Form d))) (Form-start d)

Forms-parse_forms :
    {ts es : List Sexpr} → Forms ts es → (f : ℕ) → 2 * length ts + 1 < f → parse_forms f ts ≡ ok es
unfolding parse_forms
Forms-parse_forms d zero h = absurd (omega arith)
Forms-parse_forms done (suc f) h = refl
Forms-parse_forms (more d ds) (suc f) h =
    let (t, us, e, n) = Form-start d in
    rw e (
      rw (
        rw e at (Form-parse_one d f (omega arith)),
        Forms-parse_forms ds f (omega (arith, length-lt_of_Form d)),
      ))

parse_forms-Forms : (f : ℕ) (ts es : List Sexpr) → parse_forms f ts ≡ ok es → Forms ts es
unfolding parse_forms
parse_forms-Forms zero ts es h = cc
parse_forms-Forms (suc f) [] es h = subst (Forms []) {y = es} (cc) done
parse_forms-Forms (suc f) (t ∷ ts) es h =
    let ((x, mid), p, h₁) = >>=-eq-ok (parse_one f (t ∷ ts)) _ h in
    let (xs, p₁, q) = >>=-eq-ok (parse_forms f mid) _ h₁ in
    subst (Forms (t ∷ ts)) (cc q)
      (more (parse_one-Form f (t ∷ ts) x mid p) (parse_forms-Forms f mid xs p₁))

-- parseScheme returns a list of expressions exactly when the tokens spell it: a quoted form, a
-- bracketed list, or a token that is no bracket and no quote, one after another up to the end.
pub parse_scheme_iff : (ts es : List Sexpr) → (parse_scheme ts ≡ ok es) ↔ Forms ts es
unfolding parse_scheme
parse_scheme_iff ts es = (
  parse_forms-Forms (2 * length ts + 2) ts es,
  λ d. Forms-parse_forms d (2 * length ts + 2) (omega arith),
)
