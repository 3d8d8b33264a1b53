-- ===== src/Scheme/Parser/Grammar.antt =====
-- The grammar that parseScheme of report/report/scheme.go accepts, as derivations over the tokens
-- and what a phrase leaves of them.
use rules_stests.Base.{◌<◌, ◌≡◌, ◌≢◌, List, [], ◌∷◌, length, arith}
use rules_stests.Scheme.Expr.{Sexpr, Sexprs, nil, cons, atom_of, form}
use rules_stests.Scheme.Parser.{opening, closing, tick, quoted}

mutual
  -- `Form ts e rest`: the tokens `ts` begin with a spelling of `e`, and `rest` stands behind it.
  pub data Form : List Sexpr → Sexpr → List Sexpr → Type 0 where
    plain :
        {t : Sexpr} {rest : List Sexpr}
        → atom_of t ≢ opening
        → atom_of t ≢ closing
        → atom_of t ≢ tick
        → Form (t ∷ rest) t rest
    ticked :
        {t e : Sexpr} {ts rest : List Sexpr}
        → atom_of t ≡ tick
        → Form ts e rest
        → Form (t ∷ ts) (quoted e) rest
    listed :
        {t : Sexpr} {es : Sexprs} {ts rest : List Sexpr}
        → atom_of t ≡ opening
        → Items ts es rest
        → Form (t ∷ ts) (form es) rest

  -- The elements of a list and its closing bracket.
  pub data Items : List Sexpr → Sexprs → List Sexpr → Type 0 where
    close : {t : Sexpr} {rest : List Sexpr} → atom_of t ≡ closing → Items (t ∷ rest) nil rest
    item :
        {e : Sexpr} {es : Sexprs} {ts mid rest : List Sexpr}
        → Form ts e mid
        → Items mid es rest
        → Items ts (cons e es) rest

-- A whole source: forms up to the last token.
pub data Forms : List Sexpr → List Sexpr → Type 0 where
  done : Forms [] []
  more : {e : Sexpr} {es ts mid : List Sexpr} → Form ts e mid → Forms mid es → Forms ts (e ∷ es)

mutual
  Form-shrinks : {e : Sexpr} {ts rest : List Sexpr} → Form ts e rest → length rest < length ts
  Form-shrinks (plain a b c) = omega arith
  Form-shrinks (ticked a d) = omega (arith, Form-shrinks d)
  Form-shrinks (listed a d) = omega (arith, Items-shrinks d)

  Items-shrinks : {es : Sexprs} {ts rest : List Sexpr} → Items ts es rest → length rest < length ts
  Items-shrinks (close a) = omega arith
  Items-shrinks (item d ds) = omega (arith, Form-shrinks d, Items-shrinks ds)

pub length-lt_of_Form :
    {e : Sexpr} {ts rest : List Sexpr} → Form ts e rest → length rest < length ts
length-lt_of_Form d = Form-shrinks d
