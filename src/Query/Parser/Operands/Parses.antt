-- ===== src/Query/Parser/Operands/Parses.antt =====
-- Every parser of src/ha_backend/search_query.py keeps the operands.
use healtharchive_backend.Base.{
  ℕ, zero, suc, ◌≡◌, refl, sym, ap, ◌∙◌, inl, inr, Bool-cases, List, [], ◌∷◌, ◌++◌, contains,
  nat_eq,
}
use mathlib.Core.Path.{subst}
use healtharchive_backend.Query.{
  Text, text_eq, field_names, Unicode, Token, word, phrase, lparen, rparen, colon, op_and, op_or,
  op_not,
}
use healtharchive_backend.Query.Parser.{
  QueryNode, Parsed, parsed, parse_error, out_of_fuel, follow, next_and, next_or, parse_value,
  parse_field, parse_word, close, and_of, or_of, parse_or, or_rest, parse_and, and_rest, parse_not,
  parse_primary, finish, enough, parse, iter_terms,
}
use healtharchive_backend.Query.Parser.Fuel.{Next-cases, after_or, after_and}
use healtharchive_backend.Query.Parser.Operands.{
  operands, all_terms, iter_terms-and_of, iter_terms-or_of, all_terms-snoc,
}

-- The terms of the node and the operands of the tokens that are left are these texts.
abbrev Yields : List Text → Parsed → Type 0
Yields texts (parsed n rest) = iter_terms n ++ operands rest ≡ texts
Yields texts parse_error = Unit
Yields texts out_of_fuel = Unit

follow-Yields :
    (r : Parsed) (a b : List Text) (g : QueryNode → List Token → Parsed)
    → Yields a r
    → ((n : QueryNode) (rest : List Token)
        → iter_terms n ++ operands rest ≡ a
        → Yields b (g n rest))
    → Yields b (follow r g)
follow-Yields (parsed n rest) a b g h f = f n rest h
follow-Yields parse_error a b g h f = tt
follow-Yields out_of_fuel a b g h f = tt

Yields-eq : (r : Parsed) (a b : List Text) → a ≡ b → Yields a r → Yields b r
Yields-eq (parsed n rest) a b e h = h ∙ e
Yields-eq parse_error a b e h = tt
Yields-eq out_of_fuel a b e h = tt

parse_value-Yields :
    (name field : Text) (ts : List Token)
    → Yields (operands (word name ∷ colon ∷ ts)) (parse_value field ts)
unfolding parse_value operands iter_terms
parse_value-Yields name field [] = tt
parse_value-Yields name field (phrase text ∷ ts) = refl
parse_value-Yields name field (word text ∷ ts) = refl
parse_value-Yields name field (_ ∷ ts) = tt

parse_word-Yields :
    (u : Unicode) (text : Text) (ts : List Token)
    → Yields (operands (word text ∷ ts)) (parse_word u text ts)
unfolding parse_word parse_field operands iter_terms
parse_word-Yields u text [] = refl
parse_word-Yields u text (colon ∷ ts) = elim (Bool-cases (contains field_names (u.lower text))) [
  | inl known ↦ rw (known, Yields) (parse_value-Yields text (u.lower text) ts)
  | inr unknown ↦ rw (unknown, Yields) tt
]
parse_word-Yields u text (_ ∷ ts) = refl

close-Yields :
    (n : QueryNode) (rest : List Token) (texts : List Text)
    → iter_terms n ++ operands rest ≡ texts
    → Yields texts (close n rest)
unfolding close operands
close-Yields n [] texts h = tt
close-Yields n (rparen ∷ rest) texts h = h
close-Yields n (_ ∷ rest) texts h = tt

-- One more node of a loop: what it and the rest yield, after the nodes before it.
snoc-Yields :
    (r : Parsed) (ns : List QueryNode) (n : QueryNode) (rest : List Token) (texts : List Text)
    → iter_terms n ++ operands rest ≡ texts
    → Yields (all_terms (ns ++ (n ∷ [])) ++ operands rest) r
    → Yields (all_terms ns ++ texts) r
snoc-Yields r ns n rest texts e =
    Yields-eq r _ _ (all_terms-snoc ns n (operands rest) ∙ ap (λ ts. all_terms ns ++ ts) e)

operands-op_or : (ts more : List Token) → ts ≡ op_or ∷ more → operands more ≡ operands ts
unfolding operands
operands-op_or ts more e = sym (ap operands e)

operands-op_and : (ts more : List Token) → ts ≡ op_and ∷ more → operands more ≡ operands ts
unfolding operands
operands-op_and ts more e = sym (ap operands e)

mutual
  unfolding parse_or operands iter_terms

  parse_or-Yields :
      (u : Unicode) (fuel : ℕ) (ts : List Token) → Yields (operands ts) (parse_or u fuel ts)
  parse_or-Yields u zero ts = tt
  parse_or-Yields u (suc fuel) ts =
      follow-Yields (parse_and u fuel ts) (operands ts) (operands ts) _ (parse_and-Yields u fuel ts)
        (λ n rest e. snoc-Yields _ [] n rest (operands ts) e (or_rest-Yields u fuel (n ∷ []) rest))

  or_rest-Yields :
      (u : Unicode) (fuel : ℕ) (nodes : List QueryNode) (ts : List Token)
      → Yields (all_terms nodes ++ operands ts) (or_rest u fuel nodes ts)
  or_rest-Yields u zero nodes ts = tt
  or_rest-Yields u (suc fuel) nodes ts =
      let finished : iter_terms (or_of nodes) ++ operands ts ≡ all_terms nodes ++ operands ts =
        ap (λ xs. xs ++ operands ts) (iter_terms-or_of nodes) in
      elim (Next-cases (next_or ts)) [
        | inl (more, e) ↦
            rw (e, parse_or, Yields)
              (follow-Yields (parse_and u fuel more) (operands more)
                (all_terms nodes ++ operands ts) _ (parse_and-Yields u fuel more)
                (λ n rest h.
                  snoc-Yields _ nodes n rest (operands ts)
                    (h ∙ operands-op_or ts more (after_or ts more e))
                    (or_rest-Yields u fuel (nodes ++ (n ∷ [])) rest)))
        | inr (inl e) ↦ rw (e, parse_or, Yields) finished
        | inr (inr e) ↦ rw (e, parse_or, Yields) finished
      ]

  parse_and-Yields :
      (u : Unicode) (fuel : ℕ) (ts : List Token) → Yields (operands ts) (parse_and u fuel ts)
  parse_and-Yields u zero ts = tt
  parse_and-Yields u (suc fuel) ts =
      follow-Yields (parse_not u fuel ts) (operands ts) (operands ts) _ (parse_not-Yields u fuel ts)
        (λ n rest e. snoc-Yields _ [] n rest (operands ts) e (and_rest-Yields u fuel (n ∷ []) rest))

  and_rest-Yields :
      (u : Unicode) (fuel : ℕ) (nodes : List QueryNode) (ts : List Token)
      → Yields (all_terms nodes ++ operands ts) (and_rest u fuel nodes ts)
  and_rest-Yields u zero nodes ts = tt
  and_rest-Yields u (suc fuel) nodes ts =
      let finished : iter_terms (and_of nodes) ++ operands ts ≡ all_terms nodes ++ operands ts =
        ap (λ xs. xs ++ operands ts) (iter_terms-and_of nodes) in
      elim (Next-cases (next_and ts)) [
        | inl (more, e) ↦
            rw (e, parse_or, Yields)
              (follow-Yields (parse_not u fuel more) (operands more)
                (all_terms nodes ++ operands ts) _ (parse_not-Yields u fuel more)
                (λ n rest h.
                  snoc-Yields _ nodes n rest (operands ts)
                    (h ∙ operands-op_and ts more (after_and ts more e))
                    (and_rest-Yields u fuel (nodes ++ (n ∷ [])) rest)))
        | inr (inl e) ↦
            rw (e, parse_or, Yields)
              (follow-Yields (parse_not u fuel ts) (operands ts) (all_terms nodes ++ operands ts) _
                (parse_not-Yields u fuel ts)
                (λ n rest h.
                  snoc-Yields _ nodes n rest (operands ts) h
                    (and_rest-Yields u fuel (nodes ++ (n ∷ [])) rest)))
        | inr (inr e) ↦ rw (e, parse_or, Yields) finished
      ]

  parse_not-Yields :
      (u : Unicode) (fuel : ℕ) (ts : List Token) → Yields (operands ts) (parse_not u fuel ts)
  parse_not-Yields u zero ts = tt
  parse_not-Yields u (suc fuel) (op_not ∷ ts) =
      follow-Yields (parse_not u fuel ts) (operands ts) (operands (op_not ∷ ts)) _
        (parse_not-Yields u fuel ts) (λ n rest e. e)
  parse_not-Yields u (suc fuel) [] = parse_primary-Yields u fuel []
  parse_not-Yields u (suc fuel) (word w ∷ ts) = parse_primary-Yields u fuel (word w ∷ ts)
  parse_not-Yields u (suc fuel) (phrase w ∷ ts) = parse_primary-Yields u fuel (phrase w ∷ ts)
  parse_not-Yields u (suc fuel) (lparen ∷ ts) = parse_primary-Yields u fuel (lparen ∷ ts)
  parse_not-Yields u (suc fuel) (rparen ∷ ts) = parse_primary-Yields u fuel (rparen ∷ ts)
  parse_not-Yields u (suc fuel) (colon ∷ ts) = parse_primary-Yields u fuel (colon ∷ ts)
  parse_not-Yields u (suc fuel) (op_and ∷ ts) = parse_primary-Yields u fuel (op_and ∷ ts)
  parse_not-Yields u (suc fuel) (op_or ∷ ts) = parse_primary-Yields u fuel (op_or ∷ ts)

  parse_primary-Yields :
      (u : Unicode) (fuel : ℕ) (ts : List Token) → Yields (operands ts) (parse_primary u fuel ts)
  parse_primary-Yields u zero ts = tt
  parse_primary-Yields u (suc fuel) (lparen ∷ ts) =
      follow-Yields (parse_or u fuel ts) (operands ts) (operands (lparen ∷ ts)) close
        (parse_or-Yields u fuel ts) (λ n rest e. close-Yields n rest (operands (lparen ∷ ts)) e)
  parse_primary-Yields u (suc fuel) (phrase w ∷ ts) = refl
  parse_primary-Yields u (suc fuel) (word w ∷ ts) = parse_word-Yields u w ts
  parse_primary-Yields u (suc fuel) [] = tt
  parse_primary-Yields u (suc fuel) (_ ∷ ts) = tt

finish-Yields :
    (texts : List Text) (n : QueryNode) (rest : List Token)
    → iter_terms n ++ operands rest ≡ texts
    → Yields texts (finish n rest)
finish-Yields texts n [] h = h
finish-Yields texts n (_ ∷ rest) h = tt

-- If the parser returns a query and the tokens that are left, the query's terms and the operands that
-- are left, in this order, are the operands of all the tokens: the phrases and words less the names
-- of fields. No operand is lost, repeated or moved.
pub parse-operands :
    (u : Unicode) (ts rest : List Token) (n : QueryNode)
    → parse u ts ≡ parsed n rest
    → iter_terms n ++ operands rest ≡ operands ts
unfolding parse
parse-operands u ts rest n e = subst (Yields (operands ts)) {x = parse u ts} {y = parsed n rest} e (
    follow-Yields (parse_or u (enough ts) ts) (operands ts) (operands ts) finish
      (parse_or-Yields u (enough ts) ts) (finish-Yields (operands ts)))
