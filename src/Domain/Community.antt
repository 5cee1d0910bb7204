-- ===== src/Domain/Community.antt =====
-- domain/community.py: the values of the scheduled community reports, with pydantic's constraints
-- as functions that return the value or raise. `Field(ge=0)` integers are natural numbers, and a
-- URL is its canonical text. A `validate_` function stands for the construction of the model: the
-- constraints of the fields come first, then the model validators in their order.
pub mod Kinds
pub mod Distinct
pub mod Sources
pub mod Documents
pub mod Topics
pub mod Cache
pub mod Double
pub mod References
pub mod Reports
pub mod Micros
