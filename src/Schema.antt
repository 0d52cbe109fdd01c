-- ===== src/Schema.antt =====
-- prisma/schema.prisma: the tables that the modelled services read and write.
-- Ids are compared and ordered only, so they are numbers; times are milliseconds, dates are day
-- numbers, naira and dollar amounts are integers in hundredths.
mod Enums
mod Rows
mod Rounds
mod Database
pub use Enums.*
pub use Rows.*
pub use Rounds.*
unfoldable pub use Database.*
