-- ===== src/Contracts.antt =====
-- src/yamazaki/contracts.py: the domain contracts. A pydantic model is a record; what its
-- constructor checks is a function that raises "ValidationError". The constant field
-- `schema_version` of the models carries nothing and is left out.
mod Kinds
mod Time
mod Query
mod Evidence
mod Outcome
mod Request
pub use Kinds.*
unfoldable pub use Time.*
unfoldable pub use Query.*
unfoldable pub use Evidence.*
unfoldable pub use Outcome.*
unfoldable pub use Request.*
