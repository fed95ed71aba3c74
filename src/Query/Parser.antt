-- ===== src/Query/Parser.antt =====
-- The recursive-descent parser of src/ha_backend/search_query.py. A parser takes the tokens that are
-- left, which stands for the tokens and the index of `_Parser`.
pub mod Fuel
pub mod Operands
pub mod Flattened
use healtharchive_backend.Base.{
  ℕ, zero, suc, ◌+◌, ◌*◌, Bool, true, false, Option, none, some, List, [], ◌∷◌, ◌++◌, length,
  nat_eq, contains, if◌then◌else◌,
}
use healtharchive_backend.Query.{
  Text, text_eq, Unicode, field_names, Token, word, phrase, lparen, rparen, colon, op_and, op_or,
  op_not, Scan, no_fuel, too_complex, scanned, tokenize,
}

mutual
  pub data QueryNode : Type 0 where
    term : Text → Option Text → Bool → QueryNode
    not_node : QueryNode → QueryNode
    and_node : Children → QueryNode
    or_node : Children → QueryNode

  pub data Children : Type 0 where
    no_children : Children
    child : QueryNode → Children → Children

abbrev pub join : Children → Children → Children
join no_children d = d
join (child n c) d = child n (join c d)

-- The nodes with the children of each conjunction in its place; likewise for a disjunction.
abbrev pub flatten_and : List QueryNode → Children
flatten_and [] = no_children
flatten_and (and_node c ∷ rest) = join c (flatten_and rest)
flatten_and (n ∷ rest) = child n (flatten_and rest)

abbrev pub flatten_or : List QueryNode → Children
flatten_or [] = no_children
flatten_or (or_node c ∷ rest) = join c (flatten_or rest)
flatten_or (n ∷ rest) = child n (flatten_or rest)

abbrev pub only_or : (Children → QueryNode) → Children → QueryNode
only_or make (child n no_children) = n
only_or make c = make c

-- `_and` and `_or`
unfoldable pub and_of : List QueryNode → QueryNode
and_of nodes = only_or and_node (flatten_and nodes)

unfoldable pub or_of : List QueryNode → QueryNode
or_of nodes = only_or or_node (flatten_or nodes)

-- How a parse ends: a node and the tokens that are left, a `QueryParseError`, or no result.
pub data Parsed : Type 0 where
  parsed : QueryNode → List Token → Parsed
  parse_error : Parsed
  out_of_fuel : Parsed

abbrev pub follow : Parsed → (QueryNode → List Token → Parsed) → Parsed
follow (parsed n rest) k = k n rest
follow parse_error k = parse_error
follow out_of_fuel k = out_of_fuel

-- What `_parse_and` does next: after an operator, without one, or nothing.
pub data Next : Type 0 where
  after_operator : List Token → Next
  implied : Next
  stops : Next

-- `_match(op_and)`, or else a token that is neither `or` nor `)` and starts a primary.
unfoldable pub next_and : List Token → Next
next_and [] = stops
next_and (op_and ∷ ts) = after_operator ts
next_and (word _ ∷ ts) = implied
next_and (phrase _ ∷ ts) = implied
next_and (lparen ∷ ts) = implied
next_and (op_not ∷ ts) = implied
next_and (rparen ∷ ts) = stops
next_and (colon ∷ ts) = stops
next_and (op_or ∷ ts) = stops

unfoldable pub next_or : List Token → Next
next_or (op_or ∷ ts) = after_operator ts
next_or _ = stops

-- What stands behind a field's colon.
unfoldable pub parse_value : Text → List Token → Parsed
parse_value field (phrase text ∷ ts) = parsed (term text (some field) true) ts
parse_value field (word text ∷ ts) = parsed (term text (some field) false) ts
parse_value field _ = parse_error

-- A field and its value; the name in lower case has to be a field's.
unfoldable pub parse_field : Unicode → Text → List Token → Parsed
unfolding parse_value
parse_field u name ts =
    if contains field_names (u.lower name) then parse_value (u.lower name) ts else parse_error

-- A word, with a colon behind it or without.
unfoldable pub parse_word : Unicode → Text → List Token → Parsed
unfolding parse_field
parse_word u text (colon ∷ ts) = parse_field u text ts
parse_word u text ts = parsed (term text none false) ts

-- `_expect(rparen)` behind a node.
unfoldable pub close : QueryNode → List Token → Parsed
close n (rparen ∷ ts) = parsed n ts
close n _ = parse_error

unfoldable mutual
  unfolding next_and next_or and_of or_of parse_word close

  pub parse_or : Unicode → ℕ → List Token → Parsed
  parse_or u zero ts = out_of_fuel
  parse_or u (suc fuel) ts = follow (parse_and u fuel ts) (λ n rest. or_rest u fuel (n ∷ []) rest)

  -- The loop of `_parse_or`.
  pub or_rest : Unicode → ℕ → List QueryNode → List Token → Parsed
  or_rest u zero nodes ts = out_of_fuel
  or_rest u (suc fuel) nodes ts = elim (next_or ts) [
    | after_operator more ↦
        follow (parse_and u fuel more) (λ n rest. or_rest u fuel (nodes ++ (n ∷ [])) rest)
    | _ ↦ parsed (or_of nodes) ts
  ]

  pub parse_and : Unicode → ℕ → List Token → Parsed
  parse_and u zero ts = out_of_fuel
  parse_and u (suc fuel) ts = follow (parse_not u fuel ts) (λ n rest. and_rest u fuel (n ∷ []) rest)

  -- The loop of `_parse_and`.
  pub and_rest : Unicode → ℕ → List QueryNode → List Token → Parsed
  and_rest u zero nodes ts = out_of_fuel
  and_rest u (suc fuel) nodes ts = elim (next_and ts) [
    | after_operator more ↦
        follow (parse_not u fuel more) (λ n rest. and_rest u fuel (nodes ++ (n ∷ [])) rest)
    | implied ↦ follow (parse_not u fuel ts) (λ n rest. and_rest u fuel (nodes ++ (n ∷ [])) rest)
    | stops ↦ parsed (and_of nodes) ts
  ]

  pub parse_not : Unicode → ℕ → List Token → Parsed
  parse_not u zero ts = out_of_fuel
  parse_not u (suc fuel) (op_not ∷ ts) =
      follow (parse_not u fuel ts) (λ n rest. parsed (not_node n) rest)
  parse_not u (suc fuel) ts = parse_primary u fuel ts

  pub parse_primary : Unicode → ℕ → List Token → Parsed
  parse_primary u zero ts = out_of_fuel
  parse_primary u (suc fuel) (lparen ∷ ts) = follow (parse_or u fuel ts) close
  parse_primary u (suc fuel) (phrase text ∷ ts) = parsed (term text none true) ts
  parse_primary u (suc fuel) (word text ∷ ts) = parse_word u text ts
  parse_primary u (suc fuel) _ = parse_error

-- Five rounds for each token, and those for the end.
abbrev pub enough : List Token → ℕ
enough ts = 5 * length ts + 4

abbrev pub finish : QueryNode → List Token → Parsed
finish n [] = parsed n []
finish n (_ ∷ _) = parse_error

-- `_Parser(tokens).parse()`
unfoldable pub parse : Unicode → List Token → Parsed
unfolding parse_or
parse u ts = follow (parse_or u (enough ts) ts) finish

unfoldable pub parse_query : Unicode → ℕ → Text → Parsed
unfolding parse tokenize
parse_query u max_tokens value = elim (tokenize u max_tokens value) [
  | no_fuel ↦ out_of_fuel
  | too_complex ↦ parse_error
  | scanned [] ↦ parse_error
  | scanned (t ∷ ts) ↦ parse u (t ∷ ts)
]

-- `iter_terms`, the texts only.
unfoldable mutual
  pub iter_terms : QueryNode → List Text
  iter_terms (term text field is_phrase) = text ∷ []
  iter_terms (not_node n) = iter_terms n
  iter_terms (and_node c) = iter_children c
  iter_terms (or_node c) = iter_children c

  pub iter_children : Children → List Text
  iter_children no_children = []
  iter_children (child n c) = iter_terms n ++ iter_children c
