-- ===== src/Query/Parser/Operands.antt =====
-- The terms of a parsed query are the operands of its tokens, in their order.
pub mod Parses
use healtharchive_backend.Base.{
  ℕ, zero, suc, ◌≡◌, refl, sym, ap, ◌∙◌, inl, inr, ◌⊎◌, Bool-cases, true, false, if◌then◌else◌,
  List, [], ◌∷◌, ◌++◌, arith, contains, nat_eq,
}
use mathlib.Core.Path.{subst}
use mathlib.Core.List.{append_assoc, append-nil}
use healtharchive_backend.Query.{
  Text, text_eq, field_names, Unicode, Token, word, phrase, lparen, rparen, colon, op_and, op_or,
  op_not, Scan, no_fuel, too_complex, scanned, tokenize,
}
use healtharchive_backend.Query.Tokens.{Within, tokenize-Within}
use healtharchive_backend.Query.Parser.{
  QueryNode, term, not_node, and_node, or_node, Children, no_children, child, join, flatten_and,
  flatten_or, only_or, Parsed, parsed, parse_error, out_of_fuel, follow, Next, after_operator,
  implied, stops, next_and, next_or, parse_value, parse_field, parse_word, close, and_of, or_of,
  parse_or, or_rest, parse_and, and_rest, parse_not, parse_primary, finish, enough, parse,
  parse_query, iter_terms, iter_children,
}
use healtharchive_backend.Query.Parser.Fuel.{Next-cases, after_or, after_and, parse-total}

-- The texts of the phrases and words of a list of tokens, less the names of fields.
unfoldable pub operands : List Token → List Text
operands [] = []
operands (word name ∷ colon ∷ word text ∷ ts) = text ∷ operands ts
operands (word name ∷ colon ∷ phrase text ∷ ts) = text ∷ operands ts
operands (word text ∷ ts) = text ∷ operands ts
operands (phrase text ∷ ts) = text ∷ operands ts
operands (_ ∷ ts) = operands ts

-- The terms of several nodes.
abbrev pub all_terms : List QueryNode → List Text
all_terms [] = []
all_terms (n ∷ ns) = iter_terms n ++ all_terms ns

iter_children-join :
    (c d : Children) → iter_children (join c d) ≡ iter_children c ++ iter_children d
unfolding iter_terms
iter_children-join no_children d = refl
iter_children-join (child n c) d =
    ap (λ ts. iter_terms n ++ ts) (iter_children-join c d)
    ∙ sym (append_assoc (iter_terms n) (iter_children c) (iter_children d))

iter_children-flatten_and : (ns : List QueryNode) → iter_children (flatten_and ns) ≡ all_terms ns
unfolding iter_terms
iter_children-flatten_and [] = refl
iter_children-flatten_and (and_node c ∷ ns) =
    iter_children-join c (flatten_and ns)
    ∙ ap (λ ts. iter_children c ++ ts) (iter_children-flatten_and ns)
iter_children-flatten_and (term t f p ∷ ns) = ap (λ ts. t ∷ ts) (iter_children-flatten_and ns)
iter_children-flatten_and (not_node n ∷ ns) =
    ap (λ ts. iter_terms n ++ ts) (iter_children-flatten_and ns)
iter_children-flatten_and (or_node c ∷ ns) =
    ap (λ ts. iter_children c ++ ts) (iter_children-flatten_and ns)

iter_children-flatten_or : (ns : List QueryNode) → iter_children (flatten_or ns) ≡ all_terms ns
unfolding iter_terms
iter_children-flatten_or [] = refl
iter_children-flatten_or (or_node c ∷ ns) =
    iter_children-join c (flatten_or ns)
    ∙ ap (λ ts. iter_children c ++ ts) (iter_children-flatten_or ns)
iter_children-flatten_or (term t f p ∷ ns) = ap (λ ts. t ∷ ts) (iter_children-flatten_or ns)
iter_children-flatten_or (not_node n ∷ ns) =
    ap (λ ts. iter_terms n ++ ts) (iter_children-flatten_or ns)
iter_children-flatten_or (and_node c ∷ ns) =
    ap (λ ts. iter_children c ++ ts) (iter_children-flatten_or ns)

iter_terms-only_or :
    (make : Children → QueryNode) (c : Children)
    → ((d : Children) → iter_terms (make d) ≡ iter_children d)
    → iter_terms (only_or make c) ≡ iter_children c
unfolding iter_terms
iter_terms-only_or make no_children h = h no_children
iter_terms-only_or make (child n no_children) h = sym (append-nil (iter_terms n))
iter_terms-only_or make (child n (child m c)) h = h (child n (child m c))

pub iter_terms-and_of : (ns : List QueryNode) → iter_terms (and_of ns) ≡ all_terms ns
unfolding and_of
iter_terms-and_of ns =
    iter_terms-only_or and_node (flatten_and ns) (λ d. unfold iter_terms in refl)
    ∙ iter_children-flatten_and ns

pub iter_terms-or_of : (ns : List QueryNode) → iter_terms (or_of ns) ≡ all_terms ns
unfolding or_of
iter_terms-or_of ns =
    iter_terms-only_or or_node (flatten_or ns) (λ d. unfold iter_terms in refl)
    ∙ iter_children-flatten_or ns

pub all_terms-snoc :
    (ns : List QueryNode) (n : QueryNode) (ts : List Text)
    → all_terms (ns ++ (n ∷ [])) ++ ts ≡ all_terms ns ++ (iter_terms n ++ ts)
all_terms-snoc [] n ts = ap (λ xs. xs ++ ts) (append-nil (iter_terms n))
all_terms-snoc (m ∷ ns) n ts =
    append_assoc (iter_terms m) (all_terms (ns ++ (n ∷ []))) ts
    ∙ ap (λ xs. iter_terms m ++ xs) (all_terms-snoc ns n ts)
    ∙ sym (append_assoc (iter_terms m) (all_terms ns) (iter_terms n ++ ts))
