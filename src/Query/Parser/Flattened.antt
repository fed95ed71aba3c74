-- ===== src/Query/Parser/Flattened.antt =====
-- The shape of a parsed query: `_and` and `_or` leave no nesting of their own kind.
pub mod Parses
use healtharchive_backend.Base.{
  ℕ, zero, suc, ◌≡◌, refl, inl, inr, ◌&&◌, not, Bool, Bool-cases, true, false, if◌then◌else◌, List,
  [], ◌∷◌, ◌++◌, arith, contains, nat_eq, all_of,
}
use mathlib.Core.Path.{subst}
use healtharchive_backend.Query.{
  Text, text_eq, field_names, Unicode, Token, word, phrase, lparen, rparen, colon, op_and, op_or,
  op_not,
}
use healtharchive_backend.Query.Parser.{
  QueryNode, term, not_node, and_node, or_node, Children, no_children, child, join, flatten_and,
  flatten_or, only_or, Parsed, parsed, parse_error, out_of_fuel, follow, Next, after_operator,
  implied, stops, next_and, next_or, parse_value, parse_field, parse_word, close, and_of, or_of,
  parse_or, or_rest, parse_and, and_rest, parse_not, parse_primary, finish, enough, parse,
}
use healtharchive_backend.Query.Parser.Fuel.{Next-cases}

abbrev pub is_and : QueryNode → Bool
is_and (and_node c) = true
is_and _ = false

abbrev pub is_or : QueryNode → Bool
is_or (or_node c) = true
is_or _ = false

abbrev pub has_two : Children → Bool
has_two (child n (child m c)) = true
has_two _ = false

-- Every conjunction and disjunction has two children or more, and none of its own kind.
unfoldable mutual
  pub is_flat : QueryNode → Bool
  is_flat (term t f p) = true
  is_flat (not_node n) = is_flat n
  is_flat (and_node c) = has_two c && (flat_below is_and c)
  is_flat (or_node c) = has_two c && (flat_below is_or c)

  pub flat_below : (QueryNode → Bool) → Children → Bool
  flat_below kind no_children = true
  flat_below kind (child n c) = not (kind n) && (is_flat n && flat_below kind c)

flat_below-join :
    (kind : QueryNode → Bool) (c d : Children)
    → flat_below kind c ≡ true
    → flat_below kind d ≡ true
    → flat_below kind (join c d) ≡ true
unfolding is_flat
flat_below-join kind no_children d h k = k
flat_below-join kind (child n c) d h k = ground (arith, flat_below-join kind c d)

flat_below-flatten_and :
    (ns : List QueryNode) → all_of is_flat ns ≡ true → flat_below is_and (flatten_and ns) ≡ true
unfolding is_flat
flat_below-flatten_and [] h = refl
flat_below-flatten_and (and_node c ∷ ns) h =
    flat_below-join is_and c (flatten_and ns) (ground arith)
      (flat_below-flatten_and ns (ground arith))
flat_below-flatten_and (term t f p ∷ ns) h = flat_below-flatten_and ns h
flat_below-flatten_and (not_node n ∷ ns) h = ground (arith, flat_below-flatten_and ns)
flat_below-flatten_and (or_node c ∷ ns) h = ground (arith, flat_below-flatten_and ns)

flat_below-flatten_or :
    (ns : List QueryNode) → all_of is_flat ns ≡ true → flat_below is_or (flatten_or ns) ≡ true
unfolding is_flat
flat_below-flatten_or [] h = refl
flat_below-flatten_or (or_node c ∷ ns) h =
    flat_below-join is_or c (flatten_or ns) (ground arith) (flat_below-flatten_or ns (ground arith))
flat_below-flatten_or (term t f p ∷ ns) h = flat_below-flatten_or ns h
flat_below-flatten_or (not_node n ∷ ns) h = ground (arith, flat_below-flatten_or ns)
flat_below-flatten_or (and_node c ∷ ns) h = ground (arith, flat_below-flatten_or ns)

-- Something is there to make a node of.
abbrev is_any : Children → Bool
is_any no_children = false
is_any (child n c) = true

is_any-join : (c d : Children) → has_two c ≡ true → is_any (join c d) ≡ true
is_any-join no_children d h = cc
is_any-join (child n c) d h = refl

any_and :
    (n : QueryNode) (ns : List QueryNode) → is_flat n ≡ true → is_any (flatten_and (n ∷ ns)) ≡ true
unfolding is_flat
any_and (and_node c) ns h = is_any-join c (flatten_and ns) (ground arith)
any_and (term t f p) ns h = refl
any_and (not_node n) ns h = refl
any_and (or_node c) ns h = refl

any_or :
    (n : QueryNode) (ns : List QueryNode) → is_flat n ≡ true → is_any (flatten_or (n ∷ ns)) ≡ true
unfolding is_flat
any_or (or_node c) ns h = is_any-join c (flatten_or ns) (ground arith)
any_or (term t f p) ns h = refl
any_or (not_node n) ns h = refl
any_or (and_node c) ns h = refl

flat-only_or :
    (make : Children → QueryNode) (kind : QueryNode → Bool) (c : Children)
    → ((d : Children) → is_flat (make d) ≡ (has_two d && flat_below kind d))
    → flat_below kind c ≡ true
    → is_any c ≡ true
    → is_flat (only_or make c) ≡ true
unfolding is_flat
flat-only_or make kind no_children m h k = cc
flat-only_or make kind (child n no_children) m h k = ground arith
flat-only_or make kind (child n (child l c)) m h k = ground (arith, m (child n (child l c)))

-- The nodes of a loop: at least one, all of this shape.
abbrev pub AllFlat : List QueryNode → Type 0
AllFlat [] = ⊥
AllFlat (n ∷ ns) = (is_flat n ≡ true) × (all_of is_flat ns ≡ true)

all_of-snoc :
    (ns : List QueryNode) (n : QueryNode)
    → all_of is_flat ns ≡ true
    → is_flat n ≡ true
    → all_of is_flat (ns ++ (n ∷ [])) ≡ true
all_of-snoc [] n h k = ground arith
all_of-snoc (m ∷ ns) n h k = ground (arith, all_of-snoc ns n)

pub AllFlat-snoc :
    (ns : List QueryNode) (n : QueryNode) → AllFlat ns → is_flat n ≡ true → AllFlat (ns ++ (n ∷ []))
AllFlat-snoc [] n h k = absurd h
AllFlat-snoc (m ∷ ns) n (hm, h) k = (hm, all_of-snoc ns n h k)

pub is_flat-and_of : (ns : List QueryNode) → AllFlat ns → is_flat (and_of ns) ≡ true
unfolding and_of
is_flat-and_of [] h = absurd h
is_flat-and_of (n ∷ ns) (hn, h) =
    flat-only_or and_node is_and (flatten_and (n ∷ ns)) (λ d. unfold is_flat in refl)
      (flat_below-flatten_and (n ∷ ns) (ground arith)) (any_and n ns hn)

pub is_flat-or_of : (ns : List QueryNode) → AllFlat ns → is_flat (or_of ns) ≡ true
unfolding or_of
is_flat-or_of [] h = absurd h
is_flat-or_of (n ∷ ns) (hn, h) =
    flat-only_or or_node is_or (flatten_or (n ∷ ns)) (λ d. unfold is_flat in refl)
      (flat_below-flatten_or (n ∷ ns) (ground arith)) (any_or n ns hn)
