-- ===== src/Autocomplete/Parse/Loop.antt =====
-- autocomplete.ts: the loop of `parse` against the meaning of its tokens.
use mallard.Common.{
  zero, suc, ◌*◌, ◌≤◌, ◌≡◌, refl, ◌≢◌, ap, ◌∙◌, Text, ℕ, none, some, true, false, starts_with,
  codes, includes_unit, includes_unit_of_starts_with, List, [], ◌∷◌, ◌++◌, length, arith,
  Bool-cases, Option-cases, ◌⊎◌, inl, inr, append_assoc,
}
use mallard.Autocomplete.Predicate.{DateLibrary, Token, Predicate, colon, condition_of}
use mallard.Autocomplete.Parse.{ParseState, parse_round, parse_loop}
use mallard.Autocomplete.Parse.Spec.{
  date_predicate, platform_predicate, flush, add_word, read_token, meaning, classify, Reading,
  ending, word, directive, ignored,
}
use mallard.Autocomplete.Parse.Rounds.{
  idle, in_text, at_platform, at_string, idle-end, idle-directive, idle-other, platform-directive,
  platform-other, string-ignored, string-word,
}

-- What `new Token` ensures: the end token, and no other, has an empty value.
abbrev pub IsToken : Token → Type 0
IsToken t = ((t.is_end ≡ true) × (t.value ≡ [])) ⊎ ((t.is_end ≡ false) × (t.value ≢ []))

module _ (v : Text) (plain : includes_unit colon v ≡ false) where
  not_starts_with : (p : Text) → includes_unit colon p ≡ true → starts_with v p ≡ false
  not_starts_with p h = ground (arith, includes_unit_of_starts_with colon v p)

  pub date_predicate_of_plain : (dates : DateLibrary) → date_predicate dates v ≡ none
  unfolding date_predicate condition_of
  date_predicate_of_plain dates = ground (
    arith,
    not_starts_with (codes "before:"),
    not_starts_with (codes "after:"),
    not_starts_with (codes "on:"),
    not_starts_with (codes "date:"),
  )

  pub platform_predicate_of_plain : platform_predicate v ≡ none
  unfolding platform_predicate
  platform_predicate_of_plain = ground (arith, not_starts_with (codes "platform:"))

module _ (dates : DateLibrary) where
  pub loop_suc :
      (f : ℕ) (t : Token) (ts us : List Token) (s s' : ParseState)
      → parse_round dates t ts s ≡ s'
      → s'.rest ≡ us
      → parse_loop dates (suc f) (t ∷ ts) s ≡ parse_loop dates f us s'
  unfolding parse_loop
  loop_suc f t ts us s s' e r =
      λ i. parse_loop dates f ((ap (λ (u : ParseState). u.rest) e ∙ r) i) (e i)

  -- What the loop returns from its two resting states, with four rounds for each token, or one
  -- less where no text is to be pushed.
  abbrev pub IdleReads : List Token → Type 0
  IdleReads ts =
      (f : ℕ) (ps : List Predicate)
      → 4 * length ts ≤ suc f
      → parse_loop dates f ts (idle ts ps) ≡ some (ps ++ meaning dates [] ts)

  abbrev pub TextReads : List Token → Type 0
  TextReads ts =
      (f : ℕ) (w : Text) (ps : List Predicate)
      → w ≢ []
      → 4 * length ts ≤ f
      → parse_loop dates f ts (in_text w ts ps) ≡ some (ps ++ meaning dates w ts)

  -- How one token contributes to the meaning.
  module _ (t : Token) (ts : List Token) where
    pub meaning_lem :
        (w : Text) (r : Reading)
        → classify dates t ≡ r
        → meaning dates w (t ∷ ts) ≡ read_token dates (λ w'. meaning dates w' ts) r w t.value
    unfolding meaning
    meaning_lem w r e = rw e

    pub classify-end : t.is_end ≡ true → classify dates t ≡ ending
    unfolding classify
    classify-end h = rw h

    pub classify-word :
        t.is_end ≡ false → includes_unit colon t.value ≡ false → classify dates t ≡ word
    unfolding classify
    classify-word h k = rw (h, k)

    classify-date :
        (p : Predicate)
        → t.is_end ≡ false
        → includes_unit colon t.value ≡ true
        → date_predicate dates t.value ≡ some p
        → classify dates t ≡ directive p
    unfolding classify
    classify-date p h k e = rw (h, k, e)

    classify-platform :
        (p : Predicate)
        → t.is_end ≡ false
        → includes_unit colon t.value ≡ true
        → date_predicate dates t.value ≡ none
        → platform_predicate t.value ≡ some p
        → classify dates t ≡ directive p
    unfolding classify
    classify-platform p h k d e = rw (h, k, d, e)

    classify-ignored :
        t.is_end ≡ false
        → includes_unit colon t.value ≡ true
        → date_predicate dates t.value ≡ none
        → platform_predicate t.value ≡ none
        → classify dates t ≡ ignored
    unfolding classify
    classify-ignored h k d e = rw (h, k, d, e)

  module _ (t : Token) (ts : List Token) (idle_reads : IdleReads ts)
      (text_reads : TextReads ts) where
    end_reads : t.is_end ≡ true → IdleReads (t ∷ ts)
    unfolding idle read_token flush
    end_reads h zero ps le = absurd (omega arith)
    end_reads h (suc f) ps le =
        loop_suc f t ts ts _ _ (idle-end dates t ts ps h) refl
        ∙ idle_reads f ps (omega arith)
        ∙ rw (meaning_lem t ts [] ending (classify-end t ts h))

    word_reads :
        t.is_end ≡ false → t.value ≢ [] → includes_unit colon t.value ≡ false → IdleReads (t ∷ ts)
    unfolding idle at_platform at_string in_text read_token add_word
    word_reads h v k (suc (suc (suc f))) ps le =
        loop_suc (suc (suc f)) t ts (t ∷ ts) _ _
          (idle-other dates t ts ps h (date_predicate_of_plain t.value k dates)) refl
        ∙ loop_suc (suc f) t ts (t ∷ ts) _ _
            (platform-other dates t ts ps h (platform_predicate_of_plain t.value k)) refl
        ∙ loop_suc f t ts ts _ _ (string-word dates t ts ps h k) refl
        ∙ text_reads f t.value ps v (omega arith)
        ∙ rw (meaning_lem t ts [] word (classify-word t ts h k))
    word_reads h v k f ps le = absurd (omega arith)

    date_reads :
        (p : Predicate)
        → t.is_end ≡ false
        → includes_unit colon t.value ≡ true
        → date_predicate dates t.value ≡ some p
        → IdleReads (t ∷ ts)
    unfolding idle read_token flush
    date_reads p h k e zero ps le = absurd (omega arith)
    date_reads p h k e (suc f) ps le =
        loop_suc f t ts ts _ _ (idle-directive dates t ts ps p h e) refl
        ∙ idle_reads f (ps ++ p ∷ []) (omega arith)
        ∙ rw (meaning_lem t ts [] (directive p) (classify-date t ts p h k e), append_assoc)

    platform_reads :
        (p : Predicate)
        → t.is_end ≡ false
        → includes_unit colon t.value ≡ true
        → date_predicate dates t.value ≡ none
        → platform_predicate t.value ≡ some p
        → IdleReads (t ∷ ts)
    unfolding idle at_platform read_token flush
    platform_reads p h k d e (suc (suc f)) ps le =
        loop_suc (suc f) t ts (t ∷ ts) _ _ (idle-other dates t ts ps h d) refl
        ∙ loop_suc f t ts ts _ _ (platform-directive dates t ts ps p h e) refl
        ∙ idle_reads f (ps ++ p ∷ []) (omega arith)
        ∙ rw (meaning_lem t ts [] (directive p) (classify-platform t ts p h k d e), append_assoc)
    platform_reads p h k d e f ps le = absurd (omega arith)

    ignored_reads :
        t.is_end ≡ false
        → includes_unit colon t.value ≡ true
        → date_predicate dates t.value ≡ none
        → platform_predicate t.value ≡ none
        → IdleReads (t ∷ ts)
    unfolding idle at_platform at_string read_token flush
    ignored_reads h k d e (suc (suc (suc f))) ps le =
        loop_suc (suc (suc f)) t ts (t ∷ ts) _ _ (idle-other dates t ts ps h d) refl
        ∙ loop_suc (suc f) t ts (t ∷ ts) _ _ (platform-other dates t ts ps h e) refl
        ∙ loop_suc f t ts ts _ _ (string-ignored dates t ts ps k) refl
        ∙ idle_reads f ps (omega arith)
        ∙ rw (meaning_lem t ts [] ignored (classify-ignored t ts h k d e))
    ignored_reads h k d e f ps le = absurd (omega arith)

    -- The cases of a token from the idle state.
    pub idle_cons : IsToken t → IdleReads (t ∷ ts)
    idle_cons (inl h) = end_reads h.0
    idle_cons (inr h) = elim (Bool-cases (includes_unit colon t.value)) [
      | inr k ↦ word_reads h.0 h.1 k
      | inl k ↦ elim (Option-cases (date_predicate dates t.value)) [
        | inr (p, e) ↦ date_reads p h.0 k e
        | inl d ↦ elim (Option-cases (platform_predicate t.value)) [
          | inr (p, e) ↦ platform_reads p h.0 k d e
          | inl e ↦ ignored_reads h.0 k d e
        ]
      ]
    ]
