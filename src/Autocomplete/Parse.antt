-- ===== src/Autocomplete/Parse.antt =====
-- autocomplete.ts: `PREDICATE_ORDER` and the loop of `parse`, on fuel.
pub mod Spec
pub mod Rounds
pub mod Loop
pub mod Correct
use mallard.Common.{
  ℕ, zero, suc, ◌+◌, ◌*◌, Text, Option, none, some, Bool, true, false, leb, if◌then◌else◌, List, [],
  ◌∷◌, ◌++◌, length,
}
use mallard.Autocomplete.Predicate.{
  DateLibrary, Token, Predicate, capture_date, platform, string, parse_token, is_matched,
}

-- `new PREDICATE_ORDER[predicateIndex]()`
unfoldable pub new_predicate : ℕ → Predicate
new_predicate zero = capture_date (record { condition = none; date = none; search_string = [] })
new_predicate (suc zero) = platform (record { platform = none; search_string = [] })
new_predicate (suc (suc _)) = string (record { matched = false; search_string = [] })

-- The loop's variables. `rest` are the tokens from `tokenIndex` on.
pub record ParseState : Type 0 where
  pub rest : List Token
  pub predicate_index : ℕ
  pub current_predicate : Predicate
  pub predicates : List Predicate

-- The last `if` of the body: a predicate that is fully matched is pushed, and a new one started.
unfoldable pub push_matched : ParseState → ParseState
unfolding is_matched new_predicate
push_matched s =
    if is_matched s.current_predicate
    then record s {
      current_predicate = new_predicate s.predicate_index;
      predicates = s.predicates ++ s.current_predicate ∷ [];
    }
    else s

-- The object rejected the token and is not matched: try the next one, or skip the token.
unfoldable pub next_predicate : Token → List Token → ParseState → ParseState
unfolding new_predicate
next_predicate t ts s =
    let index = s.predicate_index + 1 in
    if leb 3 index
    then record s { rest = ts; predicate_index = 0; current_predicate = new_predicate 0 }
    else record s {
      rest = t ∷ ts;
      predicate_index = index;
      current_predicate = new_predicate index;
    }

module _ (dates : DateLibrary) where
  -- One round of the loop, at the token `t` with `ts` behind it.
  unfoldable pub parse_round : Token → List Token → ParseState → ParseState
  unfolding parse_token is_matched push_matched next_predicate
  parse_round t ts s =
      let r = parse_token dates s.current_predicate t in
      push_matched (
        if r.1
        then record s { rest = ts; predicate_index = 0; current_predicate = r.0 }
        else if is_matched r.0
        then record s { rest = t ∷ ts; current_predicate = r.0 }
        else next_predicate t ts (record s { current_predicate = r.0 }))

  -- `while (tokenIndex < tokens.length)`; `none` means that the fuel ran out. The tokens are an
  -- argument of its own, always `s.rest`.
  unfoldable pub parse_loop : ℕ → List Token → ParseState → Option (List Predicate)
  parse_loop fuel [] s = some s.predicates
  parse_loop zero (t ∷ ts) s = none
  parse_loop (suc fuel) (t ∷ ts) s = let s' = parse_round t ts s in parse_loop fuel s'.rest s'

  -- Each token is looked at four times at most.
  unfoldable pub parse : List Token → Option (List Predicate)
  parse tokens = parse_loop (4 * length tokens) tokens (record {
    rest = tokens;
    predicate_index = 0;
    current_predicate = new_predicate 0;
    predicates = [];
  })
