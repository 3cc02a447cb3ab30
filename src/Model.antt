-- ===== src/Model.antt =====
-- app/constants.py and app/models.py: the enumerations, the rows of the tables that the recovery
-- loop reads and writes, and the settings (app/config.py) that it reads.
mod Constants
mod Rows
mod Config
pub use Constants.*
pub use Rows.*
pub use Config.*
