-- ===== src/JsonPush.antt =====
-- src/libopensrf/jsonpush.c: the push parser for JSON, a finite automaton with a stack that calls
-- back for each feature of the text, one chunk at a time.
pub mod State
pub mod Values
pub mod Literals
pub mod Drive
pub mod Chunks
pub mod Events
pub mod Nesting
pub mod Steps
pub mod Agree
pub mod AgreeValues
pub mod AgreeLiterals
pub mod AgreeText
pub mod Sound
pub mod Total
pub mod Order
pub mod Finish
mod Tests
