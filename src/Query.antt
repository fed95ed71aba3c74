-- ===== src/Query.antt =====
-- src/ha_backend/search_query.py: the advanced search syntax. A text is the list of its code points;
-- what Unicode says of them is a parameter. This file is the tokenizer.
pub mod Tokens
pub mod Parser
pub mod Whole
mod Tests
use healtharchive_backend.Base.{
  ℕ, zero, suc, Bool, true, false, ◌||◌, ◌&&◌, List, [], ◌∷◌, ◌++◌, ◌==◌, nat_eq, Equality, length,
  contains, if◌then◌else◌, ltb, arith, ◌≡◌, ◌↔◌,
}

abbrev pub Text : Type 0
Text = List ℕ

abbrev pub same_text : Text → Text → Bool
same_text [] [] = true
same_text (x ∷ xs) (y ∷ ys) = x == y && same_text xs ys
same_text _ _ = false

pub same_text_iff : (x y : Text) → (same_text x y ≡ true) ↔ (x ≡ y)
same_text_iff [] [] = ground arith
same_text_iff [] (y ∷ ys) = ground arith
same_text_iff (x ∷ xs) [] = ground arith
same_text_iff (x ∷ xs) (y ∷ ys) = ground (arith, same_text_iff xs ys)

instance abbrev pub text_eq : Equality Text
text_eq = record { same = same_text; same_iff = same_text_iff }

-- `str.isspace` and `str.isalnum` of a character, and `str.lower`.
pub record Unicode : Type 0 where
  pub is_space : ℕ → Bool
  pub is_alnum : ℕ → Bool
  pub lower : Text → Text

pub data Token : Type 0 where
  word : Text → Token
  phrase : Text → Token
  lparen rparen colon op_and op_or op_not : Token

-- "title", "snippet" and "url".
abbrev pub field_names : List Text
field_names =
    (116 ∷ 105 ∷ 116 ∷ 108 ∷ 101 ∷ [])
    ∷ (115 ∷ 110 ∷ 105 ∷ 112 ∷ 112 ∷ 101 ∷ 116 ∷ [])
    ∷ (117 ∷ 114 ∷ 108 ∷ [])
    ∷ []

module _ (u : Unicode) where
  unfoldable lstrip : Text → Text
  lstrip [] = []
  lstrip (c ∷ cs) = let rest = lstrip cs in if u.is_space c then rest else c ∷ cs

  abbrev kept : ℕ → Text → Text
  kept c [] = if u.is_space c then [] else c ∷ []
  kept c (d ∷ rest) = c ∷ d ∷ rest

  unfoldable rstrip : Text → Text
  rstrip [] = []
  rstrip (c ∷ cs) = kept c (rstrip cs)

  -- `str.strip()`
  unfoldable pub strip : Text → Text
  unfolding lstrip rstrip
  strip t = rstrip (lstrip t)

-- The phrase loop, after the opening quote: the phrase, and what follows the closing one.
unfoldable pub read_phrase : Text → Text × Text
read_phrase [] = ([], [])
read_phrase (c ∷ []) = if c == 34 then ([], []) else (c ∷ [], [])
read_phrase (c ∷ d ∷ rest) =
    let escaped = read_phrase rest in
    let plain = read_phrase (d ∷ rest) in
    if c == 92
    then (d ∷ escaped.0, escaped.1)
    else if c == 34
    then ([], d ∷ rest)
    else (c ∷ plain.0, plain.1)

-- How the word loop ends: after a field name and its colon, or before a space, a parenthesis or the end.
pub data WordEnd : Type 0 where
  field_prefix : Text → Text → WordEnd
  plain_word : Text → Text → WordEnd

module _ (u : Unicode) where
  unfoldable pub ends_word : ℕ → Bool
  ends_word c = u.is_space c || (c == 40 || c == 41)

  abbrev pub is_field_end : ℕ → Text → Bool
  is_field_end c buf = c == 58 && contains field_names (u.lower buf)

  unfoldable pub read_word : Text → Text → WordEnd
  unfolding ends_word
  read_word buf [] = plain_word buf []
  read_word buf (c ∷ cs) =
      let more = read_word (buf ++ (c ∷ [])) cs in
      if ends_word c
      then plain_word buf (c ∷ cs)
      else if is_field_end c buf
      then field_prefix (u.lower buf) cs
      else more

  -- A word that is no operator, and the three that are.
  abbrev keyword : Text → Token
  keyword text =
      if u.lower text == (97 ∷ 110 ∷ 100 ∷ [])
      then op_and
      else if u.lower text == (111 ∷ 114 ∷ [])
      then op_or
      else if u.lower text == (110 ∷ 111 ∷ 116 ∷ [])
      then op_not
      else word text

  -- The tokens of a consumed word: none, a negated word, an operator or the word.
  unfoldable pub word_tokens : Text → List Token
  word_tokens [] = []
  word_tokens (c ∷ []) = keyword (c ∷ []) ∷ []
  word_tokens (c ∷ d ∷ rest) =
      if c == 45 && u.is_alnum d then op_not ∷ word (d ∷ rest) ∷ [] else keyword (c ∷ d ∷ rest) ∷ []

-- How the tokenizer ends. `no_fuel` is no result.
pub data Scan : Type 0 where
  no_fuel too_complex : Scan
  scanned : List Token → Scan

-- What a round of the main loop sees.
pub data Lead : Type 0 where
  blank opening closing quote other : Lead

unfoldable pub lead : Unicode → ℕ → Lead
lead u c =
    if u.is_space c
    then blank
    else if c == 40
    then opening
    else if c == 41
    then closing
    else if c == 34
    then quote
    else other

-- `push` for each of the new tokens, then the rest of the loop.
unfoldable pub push : ℕ → List Token → List Token → (List Token → Scan) → Scan
push max_tokens tokens [] go_on = go_on tokens
push max_tokens tokens (t ∷ new) go_on =
    let next = push max_tokens (tokens ++ (t ∷ [])) new go_on in
    if ltb max_tokens (suc (length tokens)) then too_complex else next

-- The main loop, one round for each unit of fuel.
unfoldable pub scan : Unicode → ℕ → ℕ → List Token → Text → Scan
unfolding lead strip read_phrase read_word word_tokens push
scan u max_tokens zero tokens raw = no_fuel
scan u max_tokens (suc fuel) tokens [] = scanned tokens
scan u max_tokens (suc fuel) tokens (c ∷ cs) = elim (lead u c) [
  | blank ↦ scan u max_tokens fuel tokens cs
  | opening ↦ push max_tokens tokens (lparen ∷ []) (λ ts. scan u max_tokens fuel ts cs)
  | closing ↦ push max_tokens tokens (rparen ∷ []) (λ ts. scan u max_tokens fuel ts cs)
  | quote ↦
      let (text, rest) = read_phrase cs in
      push max_tokens tokens (phrase (strip u text) ∷ []) (λ ts. scan u max_tokens fuel ts rest)
  | other ↦ elim (read_word u [] (c ∷ cs)) [
    | field_prefix name rest ↦
        push max_tokens tokens (word name ∷ colon ∷ []) (λ ts. scan u max_tokens fuel ts rest)
    | plain_word buf rest ↦
        push max_tokens tokens (word_tokens u (strip u buf)) (λ ts. scan u max_tokens fuel ts rest)
  ]
]

-- `tokenize`: one round for each character, and one for the end.
unfoldable pub tokenize : Unicode → ℕ → Text → Scan
unfolding scan strip
tokenize u max_tokens value = let raw = strip u value in scan u max_tokens (suc (length raw)) [] raw
