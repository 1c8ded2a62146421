-- ===== src/Store/Room.antt =====
-- The array for the URL in `sendToHost` of proxy/store.c.
use lrued_redis_storage_iceb.Prelude.{◌+◌, ◌<◌, ◌≡◌, ◌++◌, arith, length, length-append}
use lrued_redis_storage_iceb.State.{Text}
use lrued_redis_storage_iceb.Store.{path, url_room, make_url}

-- The URL of a key at a host takes up all but ten of the bytes that are allocated for it, so it and
-- its NUL fit, for every host and every escaped key.
pub make_url-url_room :
    (host key : Text)
    → (length (make_url host key) + 10 ≡ url_room host key)
      × (length (make_url host key) < url_room host key)
unfolding make_url url_room
make_url-url_room host key =
    let sizes = length-append host (path ++ key) in (omega (arith, sizes), omega (arith, sizes))
