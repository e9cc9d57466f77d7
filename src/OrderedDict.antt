-- ===== src/OrderedDict.antt =====
-- Python's `collections.OrderedDict`, which the caches, the throttle and the rate limiter are built
-- on: an association list, least recently inserted first.
mod Laws
mod Order
pub mod Counting
pub mod Entries
pub mod Touch
pub use Laws.*
pub use Order.{make_room_lem, make_room-count, length-make_room, trim-drop, length-trim-le}
unfoldable pub use Order.{make_room, trim}
unfoldable pub use Defs.{lookup, remove, put, move_to_end, Dict, IsDistinct, contains}
mod Defs
