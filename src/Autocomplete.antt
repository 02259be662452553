-- ===== src/Autocomplete.antt =====
-- autocomplete.ts: the search box's language. `Predicate` holds tokens and predicates, `Parse` the
-- parser, `Queries` the generation of queries.
pub mod Predicate
pub mod Parse
pub mod Queries
pub mod Suggestions
pub mod Complete
mod Tests
