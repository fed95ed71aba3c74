-- ===== src/Query/Tests.antt =====
-- Queries over the Latin small letters: `a (b or -c) url:d` and pieces of it.
use healtharchive_backend.Base.{◌≡◌, refl, ◌⊎◌, false, List, [], ◌∷◌, ◌==◌, nat_eq, leb, ◌&&◌}
use healtharchive_backend.Query.{
  Text, Unicode, Token, word, lparen, rparen, colon, op_or, op_not, scanned, tokenize,
}
use healtharchive_backend.Query.Parser.{
  QueryNode, parsed, parse_error, parse, parse_query, term, not_node, and_node, or_node, child,
  no_children,
}
use healtharchive_backend.Query.Whole.{IsQueryOf, parse_query_lem}
use mathlib.Core.Option.{none, some}

abbrev small_letters : Unicode
small_letters = record {
  is_space = λ c. c == 32;
  is_alnum = λ c. leb 97 c && leb c 122;
  lower = λ t. t;
}

-- a (b or -c) url:d
abbrev text : Text
text = 97 ∷ 32 ∷ 40 ∷ 98 ∷ 32 ∷ 111 ∷ 114 ∷ 32 ∷ 45 ∷ 99 ∷ 41 ∷ 32 ∷ 117 ∷ 114 ∷ 108 ∷ 58 ∷ 100 ∷ []

abbrev tokens : List Token
tokens =
    word (97 ∷ [])
    ∷ lparen
    ∷ word (98 ∷ [])
    ∷ op_or
    ∷ op_not
    ∷ word (99 ∷ [])
    ∷ rparen
    ∷ word (117 ∷ 114 ∷ 108 ∷ [])
    ∷ colon
    ∷ word (100 ∷ [])
    ∷ []

abbrev query : QueryNode
query = and_node (
    child (term (97 ∷ []) none false) (
      child
        (or_node (
          child (term (98 ∷ []) none false)
            (child (not_node (term (99 ∷ []) none false)) no_children)))
        (child (term (100 ∷ []) (some (117 ∷ 114 ∷ 108 ∷ [])) false) no_children)))

tokens_found : tokenize small_letters 128 text ≡ scanned tokens
unfolding tokenize
tokens_found = refl

query_found : parse small_letters tokens ≡ parsed query []
unfolding parse
query_found = refl

parse_query_lem_example :
    (parse_query small_letters 128 text ≡ parse_error)
    ⊎ ((ts : List Token) × (n : QueryNode) × (tokenize small_letters 128 text ≡ scanned ts)
        × (parse_query small_letters 128 text ≡ parsed n [])
        × IsQueryOf 128 ts n)
parse_query_lem_example = parse_query_lem small_letters 128 text
