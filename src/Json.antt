-- ===== src/Json.antt =====
-- `Json` and `JsonIterator` (src/json.cpp) over cJSON, which is a parameter: `CJson` has the
-- functions of it that the class calls.
mod Interface
mod Store
pub mod Types
pub mod Values
pub mod Items
mod Iterator
pub mod Texts
pub mod Predicates
pub mod Lookup
mod Examples
