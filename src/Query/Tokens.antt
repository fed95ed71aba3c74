-- ===== src/Query/Tokens.antt =====
-- The tokenizer of src/ha_backend/search_query.py ends, within its limit of tokens.
use healtharchive_backend.Base.{
  ℕ, zero, suc, ◌≤◌, ◌<◌, ◌≡◌, refl, ◌⊎◌, inl, inr, List, [], ◌∷◌, ◌++◌, nat_eq, length,
  length-append, ltb, arith, Bool-cases,
}
use healtharchive_backend.Query.{
  Text, Unicode, Token, word, phrase, lparen, rparen, colon, strip, read_phrase, WordEnd,
  field_prefix, plain_word, ends_word, read_word, word_tokens, Scan, no_fuel, too_complex, scanned,
  Lead, blank, opening, closing, quote, other, lead, push, scan, tokenize,
}

length-read_phrase : (t : Text) → length (read_phrase t).1 ≤ length t
unfolding read_phrase
length-read_phrase [] = omega arith
length-read_phrase (c ∷ []) = ground arith
length-read_phrase (c ∷ d ∷ rest) =
    ground (arith, length-read_phrase rest, length-read_phrase (d ∷ rest))

abbrev rest_of : WordEnd → Text
rest_of (field_prefix name rest) = rest
rest_of (plain_word buf rest) = rest

length-read_word : (u : Unicode) (buf t : Text) → length (rest_of (read_word u buf t)) ≤ length t
unfolding read_word
length-read_word u buf [] = omega arith
length-read_word u buf (c ∷ cs) = ground (arith, length-read_word u (buf ++ (c ∷ [])) cs)

-- The word loop takes the character that starts it.
length-read_word_first :
    (u : Unicode) (c : ℕ) (cs : Text)
    → lead u c ≡ other
    → length (rest_of (read_word u [] (c ∷ cs))) ≤ length cs
unfolding read_word ends_word lead
length-read_word_first u c cs h = ground (arith, length-read_word u (c ∷ []) cs)

-- The loop ended, with no more tokens than allowed.
abbrev pub Within : ℕ → Scan → Type 0
Within max_tokens no_fuel = ⊥
Within max_tokens too_complex = Unit
Within max_tokens (scanned tokens) = length tokens ≤ max_tokens

push-Within :
    (max_tokens : ℕ) (tokens new : List Token) (go_on : List Token → Scan)
    → length tokens ≤ max_tokens
    → ((ts : List Token) → length ts ≤ max_tokens → Within max_tokens (go_on ts))
    → Within max_tokens (push max_tokens tokens new go_on)
unfolding push
push-Within max_tokens tokens [] go_on h k = k tokens h
push-Within max_tokens tokens (t ∷ new) go_on h k =
    elim (Bool-cases (ltb max_tokens (suc (length tokens)))) [
      | inl full ↦ rw full tt
      | inr room ↦ rw room (
          push-Within max_tokens (tokens ++ (t ∷ [])) new go_on
            (ground (arith, length-append tokens (t ∷ []))) k)
    ]

Lead-cases :
    (l : Lead) → (l ≡ blank) ⊎ ((l ≡ opening) ⊎ ((l ≡ closing) ⊎ ((l ≡ quote) ⊎ (l ≡ other))))
Lead-cases blank = inl refl
Lead-cases opening = inr (inl refl)
Lead-cases closing = inr (inr (inl refl))
Lead-cases quote = inr (inr (inr (inl refl)))
Lead-cases other = inr (inr (inr (inr refl)))

WordEnd-cases :
    (w : WordEnd)
    → ((name : Text) × (rest : Text) × (w ≡ field_prefix name rest))
      ⊎ ((buf : Text) × (rest : Text) × (w ≡ plain_word buf rest))
WordEnd-cases (field_prefix name rest) = inl (name, rest, refl)
WordEnd-cases (plain_word buf rest) = inr (buf, rest, refl)

scan-Within :
    (u : Unicode) (max_tokens fuel : ℕ) (tokens : List Token) (raw : Text)
    → length raw < fuel
    → length tokens ≤ max_tokens
    → Within max_tokens (scan u max_tokens fuel tokens raw)
unfolding scan
scan-Within u m zero tokens raw h k = absurd (omega arith)
scan-Within u m (suc fuel) tokens [] h k = k
scan-Within u m (suc fuel) tokens (c ∷ cs) h k =
    let go : (new : List Token) (rest : Text)
        → length rest ≤ length cs
        → Within m (push m tokens new (λ ts. scan u m fuel ts rest)) =
      λ new rest le.
        push-Within m tokens new (λ ts. scan u m fuel ts rest) k
          (λ ts w. scan-Within u m fuel ts rest (omega arith) w) in
    elim (Lead-cases (lead u c)) [
      | inl e ↦ rw (e, scan) (scan-Within u m fuel tokens cs (omega arith) k)
      | inr (inl e) ↦ rw (e, scan) (go (lparen ∷ []) cs (omega arith))
      | inr (inr (inl e)) ↦ rw (e, scan) (go (rparen ∷ []) cs (omega arith))
      | inr (inr (inr (inl e))) ↦
          rw (e, scan)
            (go (phrase (strip u (read_phrase cs).0) ∷ []) (read_phrase cs).1
              (length-read_phrase cs))
      | inr (inr (inr (inr e))) ↦
          let shorter = length-read_word_first u c cs e in
          elim (WordEnd-cases (read_word u [] (c ∷ cs))) [
            | inl (name, rest, w) ↦
                rw (e, w, scan) (go (word name ∷ colon ∷ []) rest (ground arith))
            | inr (buf, rest, w) ↦
                rw (e, w, scan) (go (word_tokens u (strip u buf)) rest (ground arith))
          ]
    ]

-- The tokenizer ends on every text, with an error or with at most `max_tokens` tokens.
pub tokenize-Within :
    (u : Unicode) (max_tokens : ℕ) (value : Text) → Within max_tokens (tokenize u max_tokens value)
unfolding tokenize
tokenize-Within u m value =
    let raw = strip u value in scan-Within u m (suc (length raw)) [] raw (omega arith) (omega arith)
