-- ===== src/Autocomplete/Parse/Correct.antt =====
-- autocomplete.ts: `parse` on the tokens of `tokenize`.
use mallard.Common.{
  zero, suc, ◌*◌, ◌≡◌, refl, ◌≢◌, ◌∙◌, Text, Option, none, some, true, false, ltb, includes_unit,
  List, [], ◌∷◌, ◌++◌, length, arith, Bool-cases, inl, inr, append_assoc, append-nil, All, keep,
  map, All-append, split,
}
use mallard.Autocomplete.Predicate.{
  DateLibrary, Token, Predicate, colon, space, new_token, tokenize,
}
use mallard.Autocomplete.Parse.{parse_loop, parse}
use mallard.Autocomplete.Parse.Spec.{
  flush, add_word, read_token, meaning, classify, ending, word, ignored, directive_or,
}
use mallard.Autocomplete.Parse.Rounds.{idle, in_text, in_text-word, in_text-end, in_text-special}
use mallard.Autocomplete.Parse.Loop.{
  IsToken, loop_suc, IdleReads, TextReads, meaning_lem, classify-end, classify-word, idle_cons,
}

add_word-ne-nil : (w v : Text) → w ≢ [] → add_word w v ≢ []
unfolding add_word
add_word-ne-nil [] v h = absurd (h refl)
add_word-ne-nil (c ∷ w) v h = cc

module _ (dates : DateLibrary) where
  special_reads :
      (m : Text → List Predicate) (x y : Option Predicate) (w v : Text)
      → read_token dates m (directive_or x (directive_or y ignored)) w v
        ≡ flush w ++ read_token dates m (directive_or x (directive_or y ignored)) [] v
  unfolding read_token directive_or flush
  special_reads m (some p) y w v = refl
  special_reads m none (some p) w v = refl
  special_reads m none none w v = refl

  -- Behind collected text a token that is no word ends the text first.
  meaning-flush :
      (w : Text) (t : Token) (ts : List Token)
      → IsToken t
      → includes_unit colon t.value ≡ true
      → meaning dates w (t ∷ ts) ≡ flush w ++ meaning dates [] (t ∷ ts)
  unfolding meaning classify
  meaning-flush w t ts (inl h) k = ground arith
  meaning-flush w t ts (inr h) k =
      rw (h.0, k) (special_reads (λ w'. meaning dates w' ts) _ _ w t.value)

  module _ (t : Token) (ts : List Token) (token : IsToken t) (idle_reads : IdleReads dates ts)
      (text_reads : TextReads dates ts) where
    end_after_text : t.is_end ≡ true → t.value ≡ [] → TextReads dates (t ∷ ts)
    unfolding idle in_text read_token
    end_after_text h v zero w ps n le = absurd (omega arith)
    end_after_text h v (suc f) w ps n le =
        loop_suc dates f t ts ts _ _ (in_text-end dates t ts ps w n h (rw v)) refl
        ∙ idle_reads f (ps ++ flush w) (omega arith)
        ∙ rw (meaning_lem dates t ts w ending (classify-end dates t ts h), append_assoc)

    word_after_text :
        t.is_end ≡ false → includes_unit colon t.value ≡ false → TextReads dates (t ∷ ts)
    unfolding in_text read_token
    word_after_text h k zero w ps n le = absurd (omega arith)
    word_after_text h k (suc f) w ps n le =
        loop_suc dates f t ts ts _ _ (in_text-word dates t ts ps w n h k) refl
        ∙ text_reads f (add_word w t.value) ps (add_word-ne-nil w t.value n) (omega arith)
        ∙ rw (meaning_lem dates t ts w word (classify-word dates t ts h k))

    special_after_text : includes_unit colon t.value ≡ true → TextReads dates (t ∷ ts)
    unfolding idle in_text
    special_after_text k zero w ps n le = absurd (omega arith)
    special_after_text k (suc f) w ps n le =
        loop_suc dates f t ts (t ∷ ts) _ _ (in_text-special dates t ts ps w n k) refl
        ∙ idle_cons dates t ts idle_reads text_reads token f (ps ++ flush w) (omega arith)
        ∙ rw (meaning-flush w t ts token k, append_assoc)

    text_cons : TextReads dates (t ∷ ts)
    text_cons = elim token [
      | inl h ↦ end_after_text h.0 h.1
      | inr h ↦ elim (Bool-cases (includes_unit colon t.value)) [
        | inl k ↦ special_after_text k
        | inr k ↦ word_after_text h.0 k
      ]
    ]

  loop_reads : (ts : List Token) → All IsToken ts → IdleReads dates ts × TextReads dates ts
  unfolding parse_loop meaning idle in_text
  loop_reads [] _ = (λ f ps le. rw append-nil, λ f w ps n le. rw append-nil)
  loop_reads (t ∷ ts) (h, hs) =
      let (i, x) = loop_reads ts hs in (idle_cons dates t ts i x h, text_cons t ts h i x)

  parse-meaning : (ts : List Token) → All IsToken ts → parse dates ts ≡ some (meaning dates [] ts)
  unfolding parse idle
  parse-meaning ts h = (loop_reads ts h).0 (4 * length ts) [] (omega arith)

keep-IsToken :
    (ss : List Text)
    → All IsToken (keep (λ (t : Token). ltb 0 (length t.value)) (map (λ s. new_token (some s)) ss))
unfolding new_token
keep-IsToken [] = tt
keep-IsToken ([] ∷ ss) = keep-IsToken ss
keep-IsToken ((c ∷ s) ∷ ss) =
    let long : ltb 0 (suc (length s)) ≡ true = ground arith in
    rw long (inr (refl, cc), keep-IsToken ss)

pub tokenize-IsToken : (s : Text) → All IsToken (tokenize s)
unfolding tokenize
tokenize-IsToken s =
    All-append IsToken _ (new_token none ∷ []) (keep-IsToken (split space s)) (inl (refl, refl), tt)

-- For every search string the parser's loop ends within its fuel, and the predicates that it
-- returns are those that the tokens denote when they are read once from left to right.
pub parse-tokenize :
    (dates : DateLibrary) (search : Text)
    → parse dates (tokenize search) ≡ some (meaning dates [] (tokenize search))
parse-tokenize dates search = parse-meaning dates (tokenize search) (tokenize-IsToken search)
