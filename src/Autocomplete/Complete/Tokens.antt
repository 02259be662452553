-- ===== src/Autocomplete/Complete/Tokens.antt =====
-- autocomplete.ts: `completeToken`, by the words of a search.
use mathlib.Core.Path.{subst}
use mallard.Common.{
  map-append, suc, All, All-append, length-append, length-map, append_assoc, ◌⊎◌, ◌-◌, ◌≡◌, refl,
  ap, sym, ◌∙◌, Text, split, starts_with, length, get_elem?, last?, pop, pop-snoc, last?-snoc, map,
  join, none, some, Bool, true, false, ltb, Bool-cases, inl, inr, if◌then◌else◌, List, [], ◌∷◌,
  ◌++◌, keep, arith,
}
use mallard.Autocomplete.Predicate.{Token, new_token, tokenize, space}
use mallard.Autocomplete.Complete.{token_before_end, complete_token}
use mallard.Autocomplete.Complete.Words.{words, IsWord, words-join, All-IsWord}

-- The tokens of words.
abbrev pub word_tokens : List Text → List Token
word_tokens ws = map (λ w. new_token (some w)) ws

keep_tokens :
    (ss : List Text)
    → keep (λ (t : Token). ltb 0 (length t.value)) (word_tokens ss)
      ≡ word_tokens (keep (λ (w : Text). ltb 0 (length w)) ss)
unfolding new_token
keep_tokens [] = refl
keep_tokens ([] ∷ ss) = keep_tokens ss
keep_tokens ((c ∷ w) ∷ ss) =
    let long : ltb 0 (suc (length w)) ≡ true = ground arith in rw (long, keep_tokens ss)

pub tokenize-words : (s : Text) → tokenize s ≡ word_tokens (words s) ++ new_token none ∷ []
unfolding tokenize words
tokenize-words s = ap (◌++ new_token none ∷ []) (keep_tokens (split space s))

values_of_words : (ws : List Text) → map (λ (t : Token). t.value) (word_tokens ws) ≡ ws
unfolding new_token
values_of_words [] = refl
values_of_words ([] ∷ ws) = ap ([] ∷◌) (values_of_words ws)
values_of_words ((c ∷ w) ∷ ws) = ap ((c ∷ w) ∷◌) (values_of_words ws)

snoc-cases :
    {A : Type 0} (xs : List A) → (xs ≡ []) ⊎ ((ys : List A) × (y : A) × (xs ≡ ys ++ y ∷ []))
snoc-cases [] = inl refl
snoc-cases (x ∷ xs) = elim (snoc-cases xs) [
  | inl empty ↦ inr ([], x, ap (x ∷◌) empty)
  | inr (ys, y, same) ↦ inr (x ∷ ys, y, ap (x ∷◌) same)
]

get_elem?-append :
    {A : Type 0} (xs : List A) (y : A) (ys : List A) → get_elem? (xs ++ y ∷ ys) (length xs) ≡ some y
get_elem?-append [] y ys = refl
get_elem?-append (x ∷ xs) y ys = get_elem?-append xs y ys

All-init : (ws : List Text) (w : Text) → All IsWord (ws ++ w ∷ []) → All IsWord ws
All-init [] w _ = tt
All-init (v ∷ ws) w (h, hs) = (h, All-init ws w hs)

-- The words that a completion keeps.
abbrev pub kept_words : List Text → Text → List Text
kept_words ws next = elim (last? ws) [
  | none ↦ []
  | some w ↦ if starts_with next w then pop ws else ws
]

value_of_word : (w : Text) → (new_token (some w)).value ≡ w
unfolding new_token
value_of_word [] = refl
value_of_word (c ∷ w) = refl

token_before_end-at :
    (ts : List Token) (t : Token) → get_elem? ts (length ts - 2) ≡ some t → token_before_end ts ≡ t
unfolding token_before_end
token_before_end-at ts t h = ground arith

-- `tokens.at(-2)` behind words.
token_before_end-words :
    (ws : List Text) (w : Text)
    → (token_before_end (word_tokens (ws ++ w ∷ []) ++ new_token none ∷ [])).value ≡ w
token_before_end-words ws w =
    let ts = word_tokens ws in
    let tokens : word_tokens (ws ++ w ∷ []) ++ new_token none ∷ []
        ≡ ts ++ new_token (some w) ∷ new_token none ∷ [] =
      ap (◌++ new_token none ∷ []) (map-append (λ v. new_token (some v)) ws (w ∷ []))
      ∙ append_assoc ts (new_token (some w) ∷ []) (new_token none ∷ []) in
    let place : length (ts ++ new_token (some w) ∷ new_token none ∷ []) - 2 ≡ length ts =
      omega (arith, length-append ts (new_token (some w) ∷ new_token none ∷ [])) in
    let found =
      ap (get_elem? (ts ++ new_token (some w) ∷ new_token none ∷ [])) place
      ∙ get_elem?-append ts (new_token (some w)) (new_token none ∷ []) in
    ap (λ (x : List Token). (token_before_end x).value) tokens
    ∙ ap (λ (t : Token). t.value) (token_before_end-at _ (new_token (some w)) found)
    ∙ value_of_word w

long_tokens :
    (ws : List Text) (w : Text)
    → ltb (length (word_tokens (ws ++ w ∷ []) ++ new_token none ∷ [])) 2 ≡ false
long_tokens ws w = ground (
  arith,
  length-append (word_tokens (ws ++ w ∷ [])) (new_token none ∷ []),
  length-map (λ v. new_token (some v)) (ws ++ w ∷ []),
  length-append ws (w ∷ []),
)

complete_token-none : (s next : Text) → words s ≡ [] → complete_token s next ≡ next
unfolding complete_token
complete_token-none s next empty =
    let tokens : tokenize s ≡ new_token none ∷ [] =
      tokenize-words s ∙ ap (λ (ws : List Text). word_tokens ws ++ new_token none ∷ []) empty in
    rw (complete_token, tokens)

complete_token-some :
    (s next : Text) (ws : List Text) (w : Text)
    → words s ≡ ws ++ w ∷ []
    → complete_token s next
      ≡ join (space ∷ []) ((if starts_with next w then ws else ws ++ w ∷ []) ++ next ∷ [])
unfolding complete_token
complete_token-some s next ws w same =
    let all = word_tokens (ws ++ w ∷ []) in
    let tokens : tokenize s ≡ all ++ new_token none ∷ [] =
      tokenize-words s ∙ ap (λ (vs : List Text). word_tokens vs ++ new_token none ∷ []) same in
    let init : pop all ≡ word_tokens ws =
      ap pop (map-append (λ v. new_token (some v)) ws (w ∷ []))
      ∙ pop-snoc (word_tokens ws) (new_token (some w)) in
    elim (Bool-cases (starts_with next w)) [
      | inl continues ↦ rw (
        complete_token,
        tokens,
        long_tokens ws w,
        token_before_end-words ws w,
        continues,
        pop-snoc all (new_token none),
        init,
        values_of_words ws,
      )
      | inr other ↦ rw (
        complete_token,
        tokens,
        long_tokens ws w,
        token_before_end-words ws w,
        other,
        pop-snoc all (new_token none),
        values_of_words (ws ++ w ∷ []),
      )
    ]

words-join-snoc :
    (vs : List Text) (v : Text)
    → All IsWord (vs ++ v ∷ [])
    → words (join (space ∷ []) (vs ++ v ∷ [])) ≡ vs ++ v ∷ []
words-join-snoc [] v h = words-join v [] h
words-join-snoc (u ∷ us) v h = words-join u (us ++ v ∷ []) h

kept-IsWord :
    (b : Bool) (ws : List Text) (w : Text)
    → All IsWord (ws ++ w ∷ [])
    → All IsWord (if b then ws else ws ++ w ∷ [])
kept-IsWord true ws w h = All-init ws w h
kept-IsWord false ws w h = h

kept_words-snoc :
    (ws : List Text) (w next : Text)
    → kept_words (ws ++ w ∷ []) next ≡ (if starts_with next w then ws else ws ++ w ∷ [])
kept_words-snoc ws w next = rw (kept_words, last?-snoc ws w, pop-snoc ws w)

-- Where the completion is one word, the words of the completed search are the words before the
-- last one, the last one unless the completion starts with it, and the completion.
pub words-complete_token :
    (s next : Text)
    → IsWord next
    → words (complete_token s next) ≡ kept_words (words s) next ++ next ∷ []
words-complete_token s next h = elim (snoc-cases (words s)) [
  | inl empty ↦
      ap words (complete_token-none s next empty)
      ∙ words-join next [] (h, tt)
      ∙ ap (λ (ws : List Text). kept_words ws next ++ next ∷ []) (sym empty)
  | inr (ws, w, same) ↦
      let kept = if starts_with next w then ws else ws ++ w ∷ [] in
      let known : All IsWord (ws ++ w ∷ []) = subst (All IsWord) same (All-IsWord s) in
      let kept_known : All IsWord kept = kept-IsWord (starts_with next w) ws w known in
      ap words (complete_token-some s next ws w same)
      ∙ words-join-snoc kept next (All-append IsWord kept (next ∷ []) kept_known (h, tt))
      ∙ ap (◌++ next ∷ [])
          (sym (kept_words-snoc ws w next) ∙ ap (λ (vs : List Text). kept_words vs next) (sym same))
]
