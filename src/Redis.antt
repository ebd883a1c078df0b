-- ===== src/Redis.antt =====
-- The Redis server, which the runtime only calls (redis.asyncio): the commands that core/queues uses
-- are parameters. What is relied on is Redis's documented effect of each command that returns, on the
-- part of the server's state that a client can see. Of a command that raises, this only is relied on: GET
-- leaves the lists alone, and SET those at other keys.
mod Interface
pub mod Sample
pub use Interface.*
