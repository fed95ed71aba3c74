-- ===== src/Query/Whole.antt =====
-- `parse_query` of src/ha_backend/search_query.py as a whole.
use healtharchive_backend.Base.{
  ℕ, ◌≤◌, ◌≡◌, refl, ◌⊎◌, inl, inr, true, List, [], ◌∷◌, length, ◌∙◌, sym,
}
use mathlib.Core.Path.{subst}
use mathlib.Core.List.{append-nil}
use healtharchive_backend.Query.{
  Text, Unicode, Token, Scan, no_fuel, too_complex, scanned, tokenize,
}
use healtharchive_backend.Query.Tokens.{Within, tokenize-Within}
use healtharchive_backend.Query.Parser.{QueryNode, parsed, parse_error, parse_query, iter_terms}
use healtharchive_backend.Query.Parser.Fuel.{parse-total}
use healtharchive_backend.Query.Parser.Operands.{operands}
use healtharchive_backend.Query.Parser.Operands.Parses.{parse-operands}
use healtharchive_backend.Query.Parser.Flattened.{is_flat}
use healtharchive_backend.Query.Parser.Flattened.Parses.{parse-is_flat}

-- A node that is made of these tokens, within the limit.
abbrev pub IsQueryOf : ℕ → List Token → QueryNode → Type 0
IsQueryOf max_tokens ts n =
    (length ts ≤ max_tokens) × (iter_terms n ≡ operands ts) × (is_flat n ≡ true)

Scan-cases :
    (s : Scan) → (s ≡ no_fuel) ⊎ ((s ≡ too_complex) ⊎ ((ts : List Token) × (s ≡ scanned ts)))
Scan-cases no_fuel = inl refl
Scan-cases too_complex = inr (inl refl)
Scan-cases (scanned ts) = inr (inr (ts, refl))

-- `parse_query` ends on every text: with an error, or with a query of the text's tokens. These are at
-- most `max_tokens`, the query's terms are their operands in order, and it is flattened.
pub parse_query_lem :
    (u : Unicode) (max_tokens : ℕ) (value : Text)
    → (parse_query u max_tokens value ≡ parse_error)
      ⊎ ((ts : List Token) × (n : QueryNode) × (tokenize u max_tokens value ≡ scanned ts)
          × (parse_query u max_tokens value ≡ parsed n [])
          × IsQueryOf max_tokens ts n)
unfolding parse_query operands
parse_query_lem u m value = elim (Scan-cases (tokenize u m value)) [
  | inl e ↦ absurd (subst (Within m) e (tokenize-Within u m value))
  | inr (inl e) ↦ inl (rw (e, parse_query) refl)
  | inr (inr ([], e)) ↦ inl (rw (e, parse_query) refl)
  | inr (inr (t ∷ ts, e)) ↦ elim (parse-total u (t ∷ ts)) [
    | inl wrong ↦ inl (rw (e, parse_query) wrong)
    | inr (n, done) ↦ inr (
      t ∷ ts,
      n,
      e,
      rw (e, parse_query) done,
      (
        subst (Within m) e (tokenize-Within u m value),
        sym (append-nil (iter_terms n)) ∙ parse-operands u (t ∷ ts) [] n done,
        parse-is_flat u (t ∷ ts) [] n done,
      ),
    )
  ]
]
