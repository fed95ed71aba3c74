-- ===== src/Query/Parser/Flattened/Parses.antt =====
-- Every parser of src/ha_backend/search_query.py returns nodes of that shape.
use healtharchive_backend.Base.{
  ℕ, zero, suc, ◌≡◌, refl, inl, inr, Bool-cases, true, List, [], ◌∷◌, ◌++◌, contains, nat_eq,
}
use mathlib.Core.Path.{subst}
use healtharchive_backend.Query.{
  Text, text_eq, field_names, Unicode, Token, word, phrase, lparen, rparen, colon, op_and, op_or,
  op_not,
}
use healtharchive_backend.Query.Parser.{
  QueryNode, Parsed, parsed, parse_error, out_of_fuel, follow, next_and, next_or, parse_value,
  parse_field, parse_word, close, parse_or, or_rest, parse_and, and_rest, parse_not, parse_primary,
  finish, enough, parse,
}
use healtharchive_backend.Query.Parser.Fuel.{Next-cases}
use healtharchive_backend.Query.Parser.Flattened.{
  is_flat, AllFlat, AllFlat-snoc, is_flat-and_of, is_flat-or_of,
}

abbrev IsFlat : Parsed → Type 0
IsFlat (parsed n rest) = is_flat n ≡ true
IsFlat parse_error = Unit
IsFlat out_of_fuel = Unit

follow-IsFlat :
    (r : Parsed) (g : QueryNode → List Token → Parsed)
    → IsFlat r
    → ((n : QueryNode) (rest : List Token) → is_flat n ≡ true → IsFlat (g n rest))
    → IsFlat (follow r g)
follow-IsFlat (parsed n rest) g h f = f n rest h
follow-IsFlat parse_error g h f = tt
follow-IsFlat out_of_fuel g h f = tt

parse_value-IsFlat : (field : Text) (ts : List Token) → IsFlat (parse_value field ts)
unfolding parse_value is_flat
parse_value-IsFlat field [] = tt
parse_value-IsFlat field (phrase text ∷ ts) = refl
parse_value-IsFlat field (word text ∷ ts) = refl
parse_value-IsFlat field (_ ∷ ts) = tt

parse_word-IsFlat : (u : Unicode) (text : Text) (ts : List Token) → IsFlat (parse_word u text ts)
unfolding parse_word parse_field is_flat
parse_word-IsFlat u text [] = refl
parse_word-IsFlat u text (colon ∷ ts) = elim (Bool-cases (contains field_names (u.lower text))) [
  | inl known ↦ rw (known, IsFlat) (parse_value-IsFlat (u.lower text) ts)
  | inr unknown ↦ rw (unknown, IsFlat) tt
]
parse_word-IsFlat u text (_ ∷ ts) = refl

close-IsFlat : (n : QueryNode) (rest : List Token) → is_flat n ≡ true → IsFlat (close n rest)
unfolding close
close-IsFlat n [] h = tt
close-IsFlat n (rparen ∷ rest) h = h
close-IsFlat n (_ ∷ rest) h = tt

mutual
  unfolding parse_or is_flat

  parse_or-IsFlat : (u : Unicode) (fuel : ℕ) (ts : List Token) → IsFlat (parse_or u fuel ts)
  parse_or-IsFlat u zero ts = tt
  parse_or-IsFlat u (suc fuel) ts =
      follow-IsFlat (parse_and u fuel ts) _ (parse_and-IsFlat u fuel ts)
        (λ n rest h. or_rest-IsFlat u fuel (n ∷ []) rest (h, refl))

  or_rest-IsFlat :
      (u : Unicode) (fuel : ℕ) (nodes : List QueryNode) (ts : List Token)
      → AllFlat nodes
      → IsFlat (or_rest u fuel nodes ts)
  or_rest-IsFlat u zero nodes ts all = tt
  or_rest-IsFlat u (suc fuel) nodes ts all = elim (Next-cases (next_or ts)) [
    | inl (more, e) ↦
        rw (e, parse_or, IsFlat)
          (follow-IsFlat (parse_and u fuel more) _ (parse_and-IsFlat u fuel more) (λ n rest h.
            or_rest-IsFlat u fuel (nodes ++ (n ∷ [])) rest (AllFlat-snoc nodes n all h)))
    | inr (inl e) ↦ rw (e, parse_or, IsFlat) (is_flat-or_of nodes all)
    | inr (inr e) ↦ rw (e, parse_or, IsFlat) (is_flat-or_of nodes all)
  ]

  parse_and-IsFlat : (u : Unicode) (fuel : ℕ) (ts : List Token) → IsFlat (parse_and u fuel ts)
  parse_and-IsFlat u zero ts = tt
  parse_and-IsFlat u (suc fuel) ts =
      follow-IsFlat (parse_not u fuel ts) _ (parse_not-IsFlat u fuel ts)
        (λ n rest h. and_rest-IsFlat u fuel (n ∷ []) rest (h, refl))

  and_rest-IsFlat :
      (u : Unicode) (fuel : ℕ) (nodes : List QueryNode) (ts : List Token)
      → AllFlat nodes
      → IsFlat (and_rest u fuel nodes ts)
  and_rest-IsFlat u zero nodes ts all = tt
  and_rest-IsFlat u (suc fuel) nodes ts all = elim (Next-cases (next_and ts)) [
    | inl (more, e) ↦
        rw (e, parse_or, IsFlat)
          (follow-IsFlat (parse_not u fuel more) _ (parse_not-IsFlat u fuel more) (λ n rest h.
            and_rest-IsFlat u fuel (nodes ++ (n ∷ [])) rest (AllFlat-snoc nodes n all h)))
    | inr (inl e) ↦
        rw (e, parse_or, IsFlat)
          (follow-IsFlat (parse_not u fuel ts) _ (parse_not-IsFlat u fuel ts) (λ n rest h.
            and_rest-IsFlat u fuel (nodes ++ (n ∷ [])) rest (AllFlat-snoc nodes n all h)))
    | inr (inr e) ↦ rw (e, parse_or, IsFlat) (is_flat-and_of nodes all)
  ]

  parse_not-IsFlat : (u : Unicode) (fuel : ℕ) (ts : List Token) → IsFlat (parse_not u fuel ts)
  parse_not-IsFlat u zero ts = tt
  parse_not-IsFlat u (suc fuel) (op_not ∷ ts) =
      follow-IsFlat (parse_not u fuel ts) _ (parse_not-IsFlat u fuel ts) (λ n rest h. h)
  parse_not-IsFlat u (suc fuel) [] = parse_primary-IsFlat u fuel []
  parse_not-IsFlat u (suc fuel) (word w ∷ ts) = parse_primary-IsFlat u fuel (word w ∷ ts)
  parse_not-IsFlat u (suc fuel) (phrase w ∷ ts) = parse_primary-IsFlat u fuel (phrase w ∷ ts)
  parse_not-IsFlat u (suc fuel) (lparen ∷ ts) = parse_primary-IsFlat u fuel (lparen ∷ ts)
  parse_not-IsFlat u (suc fuel) (rparen ∷ ts) = parse_primary-IsFlat u fuel (rparen ∷ ts)
  parse_not-IsFlat u (suc fuel) (colon ∷ ts) = parse_primary-IsFlat u fuel (colon ∷ ts)
  parse_not-IsFlat u (suc fuel) (op_and ∷ ts) = parse_primary-IsFlat u fuel (op_and ∷ ts)
  parse_not-IsFlat u (suc fuel) (op_or ∷ ts) = parse_primary-IsFlat u fuel (op_or ∷ ts)

  parse_primary-IsFlat :
      (u : Unicode) (fuel : ℕ) (ts : List Token) → IsFlat (parse_primary u fuel ts)
  parse_primary-IsFlat u zero ts = tt
  parse_primary-IsFlat u (suc fuel) (lparen ∷ ts) =
      follow-IsFlat (parse_or u fuel ts) close (parse_or-IsFlat u fuel ts) close-IsFlat
  parse_primary-IsFlat u (suc fuel) (phrase w ∷ ts) = refl
  parse_primary-IsFlat u (suc fuel) (word w ∷ ts) = parse_word-IsFlat u w ts
  parse_primary-IsFlat u (suc fuel) [] = tt
  parse_primary-IsFlat u (suc fuel) (_ ∷ ts) = tt

finish-IsFlat : (n : QueryNode) (rest : List Token) → is_flat n ≡ true → IsFlat (finish n rest)
finish-IsFlat n [] h = h
finish-IsFlat n (_ ∷ rest) h = tt

-- In a query that is parsed, every conjunction and every disjunction has two children or more, none
-- of them of its own kind.
pub parse-is_flat :
    (u : Unicode) (ts rest : List Token) (n : QueryNode)
    → parse u ts ≡ parsed n rest
    → is_flat n ≡ true
unfolding parse
parse-is_flat u ts rest n e = subst IsFlat {x = parse u ts} {y = parsed n rest} e (
    follow-IsFlat (parse_or u (enough ts) ts) finish (parse_or-IsFlat u (enough ts) ts)
      finish-IsFlat)
