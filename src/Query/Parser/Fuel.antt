-- ===== src/Query/Parser/Fuel.antt =====
-- The parser of src/ha_backend/search_query.py ends, and takes at least a token.
use healtharchive_backend.Base.{
  ℕ, zero, suc, ◌+◌, ◌*◌, ◌≤◌, ◌<◌, ◌≡◌, refl, ap, ◌⊎◌, Bool-cases, inl, inr, List, [], ◌∷◌, ◌++◌,
  length, arith, contains, nat_eq,
}
use healtharchive_backend.Query.{
  Text, text_eq, field_names, Unicode, Token, word, phrase, lparen, rparen, colon, op_and, op_or,
  op_not,
}
use healtharchive_backend.Query.Parser.{
  QueryNode, Parsed, parsed, parse_error, out_of_fuel, follow, Next, after_operator, implied, stops,
  next_and, next_or, parse_value, parse_field, parse_word, close, parse_or, or_rest, parse_and,
  and_rest, parse_not, parse_primary, finish, enough, parse,
}

-- A parse that ended, with fewer than `k` tokens left if there was no error.
abbrev pub LeavesFewer : ℕ → Parsed → Type 0
LeavesFewer k (parsed n rest) = length rest < k
LeavesFewer k parse_error = Unit
LeavesFewer k out_of_fuel = ⊥

follow-LeavesFewer :
    (r : Parsed) (k m : ℕ) (g : QueryNode → List Token → Parsed)
    → LeavesFewer k r
    → ((n : QueryNode) (rest : List Token) → length rest < k → LeavesFewer m (g n rest))
    → LeavesFewer m (follow r g)
follow-LeavesFewer (parsed n rest) k m g h f = f n rest h
follow-LeavesFewer parse_error k m g h f = tt
follow-LeavesFewer out_of_fuel k m g h f = h

LeavesFewer-le : (r : Parsed) (k m : ℕ) → k ≤ m → LeavesFewer k r → LeavesFewer m r
LeavesFewer-le (parsed n rest) k m le h = omega arith
LeavesFewer-le parse_error k m le h = tt
LeavesFewer-le out_of_fuel k m le h = h

pub Next-cases :
    (x : Next) → ((more : List Token) × (x ≡ after_operator more)) ⊎ ((x ≡ implied) ⊎ (x ≡ stops))
Next-cases (after_operator more) = inl (more, refl)
Next-cases implied = inr (inl refl)
Next-cases stops = inr (inr refl)

pub after_or : (ts more : List Token) → next_or ts ≡ after_operator more → ts ≡ op_or ∷ more
unfolding next_or
after_or [] more e = cc
after_or (word _ ∷ ts) more e = cc
after_or (phrase _ ∷ ts) more e = cc
after_or (lparen ∷ ts) more e = cc
after_or (rparen ∷ ts) more e = cc
after_or (colon ∷ ts) more e = cc
after_or (op_and ∷ ts) more e = cc
after_or (op_or ∷ ts) more e = cc
after_or (op_not ∷ ts) more e = cc

pub after_and : (ts more : List Token) → next_and ts ≡ after_operator more → ts ≡ op_and ∷ more
unfolding next_and
after_and [] more e = cc
after_and (word _ ∷ ts) more e = cc
after_and (phrase _ ∷ ts) more e = cc
after_and (lparen ∷ ts) more e = cc
after_and (rparen ∷ ts) more e = cc
after_and (colon ∷ ts) more e = cc
after_and (op_and ∷ ts) more e = cc
after_and (op_or ∷ ts) more e = cc
after_and (op_not ∷ ts) more e = cc

parse_value-LeavesFewer :
    (field : Text) (ts : List Token) → LeavesFewer (length ts) (parse_value field ts)
unfolding parse_value
parse_value-LeavesFewer field [] = tt
parse_value-LeavesFewer field (phrase text ∷ ts) = omega arith
parse_value-LeavesFewer field (word text ∷ ts) = omega arith
parse_value-LeavesFewer field (_ ∷ ts) = tt

parse_field-LeavesFewer :
    (u : Unicode) (name : Text) (ts : List Token) → LeavesFewer (length ts) (parse_field u name ts)
unfolding parse_field
parse_field-LeavesFewer u name ts = elim (Bool-cases (contains field_names (u.lower name))) [
  | inl known ↦ rw (known, LeavesFewer) (parse_value-LeavesFewer (u.lower name) ts)
  | inr unknown ↦ rw (unknown, LeavesFewer) tt
]

parse_word-LeavesFewer :
    (u : Unicode) (text : Text) (ts : List Token)
    → LeavesFewer (suc (length ts)) (parse_word u text ts)
unfolding parse_word
parse_word-LeavesFewer u text [] = omega arith
parse_word-LeavesFewer u text (colon ∷ ts) =
    LeavesFewer-le _ (length ts) (suc (suc (length ts))) (omega arith)
      (parse_field-LeavesFewer u text ts)
parse_word-LeavesFewer u text (_ ∷ ts) = omega arith

close-LeavesFewer :
    (k : ℕ) (n : QueryNode) (ts : List Token) → length ts < k → LeavesFewer k (close n ts)
unfolding close
close-LeavesFewer k n [] h = tt
close-LeavesFewer k n (rparen ∷ ts) h = omega arith
close-LeavesFewer k n (_ ∷ ts) h = tt

mutual
  unfolding parse_or

  parse_or-LeavesFewer :
      (u : Unicode) (fuel : ℕ) (ts : List Token)
      → 5 * length ts + 4 ≤ fuel
      → LeavesFewer (length ts) (parse_or u fuel ts)
  parse_or-LeavesFewer u zero ts h = omega arith
  parse_or-LeavesFewer u (suc fuel) ts h =
      follow-LeavesFewer (parse_and u fuel ts) (length ts) (length ts) _
        (parse_and-LeavesFewer u fuel ts (omega arith))
        (λ n rest lt.
          LeavesFewer-le _ (suc (length rest)) (length ts) (omega arith)
            (or_rest-LeavesFewer u fuel (n ∷ []) rest (omega arith)))

  or_rest-LeavesFewer :
      (u : Unicode) (fuel : ℕ) (nodes : List QueryNode) (ts : List Token)
      → 5 * length ts + 1 ≤ fuel
      → LeavesFewer (suc (length ts)) (or_rest u fuel nodes ts)
  or_rest-LeavesFewer u zero nodes ts h = omega arith
  or_rest-LeavesFewer u (suc fuel) nodes ts h = elim (Next-cases (next_or ts)) [
    | inl (more, e) ↦
        let shorter : length ts ≡ suc (length more) = ap length (after_or ts more e) in
        rw (e, parse_or, LeavesFewer)
          (follow-LeavesFewer (parse_and u fuel more) (length more) (suc (length ts)) _
            (parse_and-LeavesFewer u fuel more (omega arith))
            (λ n rest lt.
              LeavesFewer-le _ (suc (length rest)) (suc (length ts)) (omega arith)
                (or_rest-LeavesFewer u fuel (nodes ++ (n ∷ [])) rest (omega arith))))
    | inr (inl e) ↦ rw (e, parse_or, LeavesFewer) (omega arith)
    | inr (inr e) ↦ rw (e, parse_or, LeavesFewer) (omega arith)
  ]

  parse_and-LeavesFewer :
      (u : Unicode) (fuel : ℕ) (ts : List Token)
      → 5 * length ts + 3 ≤ fuel
      → LeavesFewer (length ts) (parse_and u fuel ts)
  parse_and-LeavesFewer u zero ts h = omega arith
  parse_and-LeavesFewer u (suc fuel) ts h =
      follow-LeavesFewer (parse_not u fuel ts) (length ts) (length ts) _
        (parse_not-LeavesFewer u fuel ts (omega arith))
        (λ n rest lt.
          LeavesFewer-le _ (suc (length rest)) (length ts) (omega arith)
            (and_rest-LeavesFewer u fuel (n ∷ []) rest (omega arith)))

  and_rest-LeavesFewer :
      (u : Unicode) (fuel : ℕ) (nodes : List QueryNode) (ts : List Token)
      → 5 * length ts + 3 ≤ fuel
      → LeavesFewer (suc (length ts)) (and_rest u fuel nodes ts)
  and_rest-LeavesFewer u zero nodes ts h = omega arith
  and_rest-LeavesFewer u (suc fuel) nodes ts h = elim (Next-cases (next_and ts)) [
    | inl (more, e) ↦
        let shorter : length ts ≡ suc (length more) = ap length (after_and ts more e) in
        rw (e, parse_or, LeavesFewer)
          (follow-LeavesFewer (parse_not u fuel more) (length more) (suc (length ts)) _
            (parse_not-LeavesFewer u fuel more (omega arith))
            (λ n rest lt.
              LeavesFewer-le _ (suc (length rest)) (suc (length ts)) (omega arith)
                (and_rest-LeavesFewer u fuel (nodes ++ (n ∷ [])) rest (omega arith))))
    | inr (inl e) ↦
        rw (e, parse_or, LeavesFewer)
          (follow-LeavesFewer (parse_not u fuel ts) (length ts) (suc (length ts)) _
            (parse_not-LeavesFewer u fuel ts (omega arith))
            (λ n rest lt.
              LeavesFewer-le _ (suc (length rest)) (suc (length ts)) (omega arith)
                (and_rest-LeavesFewer u fuel (nodes ++ (n ∷ [])) rest (omega arith))))
    | inr (inr e) ↦ rw (e, parse_or, LeavesFewer) (omega arith)
  ]

  parse_not-LeavesFewer :
      (u : Unicode) (fuel : ℕ) (ts : List Token)
      → 5 * length ts + 2 ≤ fuel
      → LeavesFewer (length ts) (parse_not u fuel ts)
  parse_not-LeavesFewer u zero ts h = omega arith
  parse_not-LeavesFewer u (suc fuel) (op_not ∷ ts) h =
      follow-LeavesFewer (parse_not u fuel ts) (length ts) (suc (length ts)) _
        (parse_not-LeavesFewer u fuel ts (omega arith)) (λ n rest lt. omega arith)
  parse_not-LeavesFewer u (suc fuel) [] h = parse_primary-LeavesFewer u fuel [] (omega arith)
  parse_not-LeavesFewer u (suc fuel) (word w ∷ ts) h =
      parse_primary-LeavesFewer u fuel (word w ∷ ts) (omega arith)
  parse_not-LeavesFewer u (suc fuel) (phrase w ∷ ts) h =
      parse_primary-LeavesFewer u fuel (phrase w ∷ ts) (omega arith)
  parse_not-LeavesFewer u (suc fuel) (lparen ∷ ts) h =
      parse_primary-LeavesFewer u fuel (lparen ∷ ts) (omega arith)
  parse_not-LeavesFewer u (suc fuel) (rparen ∷ ts) h =
      parse_primary-LeavesFewer u fuel (rparen ∷ ts) (omega arith)
  parse_not-LeavesFewer u (suc fuel) (colon ∷ ts) h =
      parse_primary-LeavesFewer u fuel (colon ∷ ts) (omega arith)
  parse_not-LeavesFewer u (suc fuel) (op_and ∷ ts) h =
      parse_primary-LeavesFewer u fuel (op_and ∷ ts) (omega arith)
  parse_not-LeavesFewer u (suc fuel) (op_or ∷ ts) h =
      parse_primary-LeavesFewer u fuel (op_or ∷ ts) (omega arith)

  parse_primary-LeavesFewer :
      (u : Unicode) (fuel : ℕ) (ts : List Token)
      → 5 * length ts + 1 ≤ fuel
      → LeavesFewer (length ts) (parse_primary u fuel ts)
  parse_primary-LeavesFewer u zero ts h = omega arith
  parse_primary-LeavesFewer u (suc fuel) (lparen ∷ ts) h =
      follow-LeavesFewer (parse_or u fuel ts) (length ts) (suc (length ts)) close
        (parse_or-LeavesFewer u fuel ts (omega arith))
        (λ n rest lt. close-LeavesFewer (suc (length ts)) n rest (omega arith))
  parse_primary-LeavesFewer u (suc fuel) (phrase w ∷ ts) h = omega arith
  parse_primary-LeavesFewer u (suc fuel) (word w ∷ ts) h = parse_word-LeavesFewer u w ts
  parse_primary-LeavesFewer u (suc fuel) [] h = tt
  parse_primary-LeavesFewer u (suc fuel) (_ ∷ ts) h = tt

ended :
    (r : Parsed) (k : ℕ)
    → LeavesFewer k r
    → (follow r finish ≡ parse_error) ⊎ ((n : QueryNode) × (follow r finish ≡ parsed n []))
ended (parsed n []) k h = inr (n, refl)
ended (parsed n (t ∷ ts)) k h = inl refl
ended parse_error k h = inl refl
ended out_of_fuel k h = absurd h

-- The parser ends on every list of tokens, with an error or with a query and no token left.
pub parse-total :
    (u : Unicode) (ts : List Token)
    → (parse u ts ≡ parse_error) ⊎ ((n : QueryNode) × (parse u ts ≡ parsed n []))
unfolding parse
parse-total u ts =
    ended (parse_or u (enough ts) ts) (length ts)
      (parse_or-LeavesFewer u (enough ts) ts (omega arith))
