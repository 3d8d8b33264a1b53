-- ===== src/Scheme/Expr.antt =====
-- report/report/scheme.go: the type sexpr, which also serves for tokens, and the functions that
-- look into an expression. `list` is a type of its own beside the expression.
use rules_stests.Base.{
  ℕ, suc, Bool, true, false, ◌&&◌, ◌≡◌, refl, List, [], ◌∷◌, ◌++◌, Option, none, some,
  if◌then◌else◌, Text, codes, text_eq, join,
}

mutual
  -- atom, list, str.
  pub data Sexpr : Type 0 where
    node : Text → Sexprs → Bool → Sexpr

  pub data Sexprs : Type 0 where
    nil : Sexprs
    cons : Sexpr → Sexprs → Sexprs

abbrev pub atom_of : Sexpr → Text
atom_of (node a l s) = a

abbrev pub list_of : Sexpr → Sexprs
list_of (node a l s) = l

abbrev pub is_str : Sexpr → Bool
is_str (node a l s) = s

abbrev pub count : Sexprs → ℕ
count nil = 0
count (cons x xs) = suc (count xs)

-- `sexpr{atom: a}`, `sexpr{atom: a, str: true}` and `sexpr{list: l}`.
abbrev pub atom : Text → Sexpr
atom a = node a nil false

abbrev pub text_token : Text → Sexpr
text_token a = node a nil true

abbrev pub form : Sexprs → Sexpr
form l = node [] l false

abbrev pub quote : Text
quote = codes "quote"

-- `atomValue`; `head` of the expression is written out, as `atom_value` of the first element.
unfoldable pub atom_value : Sexpr → Text
atom_value (node a nil s) = a
atom_value (node a (cons x nil) s) = atom_value x
atom_value (node a (cons x (cons y nil)) s) =
    let first = atom_value x in
    let second = atom_value y in if text_eq first quote then second else first
atom_value (node a (cons x (cons y (cons z zs))) s) = atom_value x

unfoldable pub head : Sexpr → Text
unfolding atom_value
head (node a nil s) = []
head (node a (cons x xs) s) = atom_value x

-- `head` and `atomValue` call each other as in the source.
pub atom_value-head :
    (e : Sexpr)
    → atom_value e ≡ elim (list_of e) [
      | nil ↦ atom_of e
      | cons x xs ↦ elim xs [
        | nil ↦ head e
        | cons y ys ↦ elim ys [
          | nil ↦ (if text_eq (head e) quote then atom_value y else head e)
          | cons z zs ↦ head e
        ]
      ]
    ]
unfolding head
atom_value-head (node a nil s) = refl
atom_value-head (node a (cons x nil) s) = refl
atom_value-head (node a (cons x (cons y nil)) s) = refl
atom_value-head (node a (cons x (cons y (cons z zs))) s) = refl

unfoldable pub second_value : Sexpr → Text
unfolding atom_value
second_value (node a (cons x (cons y ys)) s) = atom_value y
second_value (node a _ s) = []

unfoldable pub unquote : Sexpr → Sexpr
unfolding head
unquote (node a (cons x (cons y nil)) s) =
    if text_eq (head (node a (cons x (cons y nil)) s)) quote
    then y
    else node a (cons x (cons y nil)) s
unquote e = e

-- The switch of `renderMatcher`, on the head and the rendered tail.
unfoldable pub render_values : Text → List Text → Text
render_values name [] = name
render_values name (v ∷ vs) =
    if text_eq name (codes "exact")
    then v
    else if text_eq name (codes "one-of")
    then codes "one of: " ++ join (codes " | ") (v ∷ vs)
    else if text_eq name (codes "prefix-suffix")
    then join (codes " … ") (v ∷ vs)
    else name ++ (codes ": " ++ join (codes " … ") (v ∷ vs))

unfoldable mutual
  pub render_matcher : Sexpr → Text
  render_matcher (node a nil s) = a
  render_matcher (node a (cons x xs) s) = render_values (atom_value x) (render_all xs)

  pub render_all : Sexprs → List Text
  render_all nil = []
  render_all (cons x xs) = render_matcher x ∷ render_all xs

-- The test of `findDefinition` on one expression.
unfoldable pub defines : Text → Sexpr → Option Sexpr
unfolding head
defines name (node a (cons x (cons y (cons z zs))) s) =
    if text_eq (atom_value x) (codes "define") && text_eq (atom_value y) name then some z else none
defines name (node a _ s) = none

-- The expression itself first, then its elements from the left.
unfoldable mutual
  pub find_definition : Text → Sexpr → Option Sexpr
  find_definition name (node a l s) = elim (defines name (node a l s)) [
    | some found ↦ some found
    | none ↦ find_among name l
  ]

  pub find_among : Text → Sexprs → Option Sexpr
  find_among name nil = none
  find_among name (cons x xs) = elim (find_definition name x) [
    | some found ↦ some found
    | none ↦ find_among name xs
  ]
