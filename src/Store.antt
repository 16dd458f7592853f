-- ===== src/Store.antt =====
-- The database and the queue, as the state that a request reads and writes. `Enums` and `Rows` are
-- prisma/schema.prisma, `World` is the state, `Table` the queries, `Action` a method of a service.
pub mod Enums
pub mod Rows
pub mod ChatRows
pub mod MerchantRows
pub mod World
pub mod Table
pub mod Action
pub mod Sample
pub mod Keeps
