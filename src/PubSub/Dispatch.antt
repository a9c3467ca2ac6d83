-- ===== src/PubSub/Dispatch.antt =====
-- Which handlers a message reaches (`_dispatch` of app/core/redis_pubsub.py).
use game_backend.Base.{◌≡◌, ap, String, some, List, ◌++◌, arith, lookup, insert, lookup-insert_self}
use game_backend.PubSub.{Registry, matching, dispatch}

module _ {H : Type 0} (channel : String) (r : Registry H) where
  dispatch_known :
      (hs : List H)
      → lookup channel r.handlers ≡ some hs
      → dispatch channel r ≡ (
        hs ++ matching channel r.pattern_handlers,
        record r {
          handlers = insert channel (hs ++ matching channel r.pattern_handlers) r.handlers;
        },
      )
  unfolding dispatch
  dispatch_known hs h = ground (arith, h)

module _ {H : Type 0} (channel : String) (r : Registry H) where
  -- On a channel that has handlers of its own, the next dispatch calls the handlers of the
  -- dispatch before and those of the matching patterns once more.
  pub dispatch_again :
      (hs : List H)
      → lookup channel r.handlers ≡ some hs
      → (dispatch channel (dispatch channel r).1).0
        ≡ (dispatch channel r).0 ++ matching channel r.pattern_handlers
  dispatch_again hs h =
      let called = hs ++ matching channel r.pattern_handlers in
      let r1 : Registry H = record r { handlers = insert channel called r.handlers } in
      rw (dispatch_known channel r hs h) (
        ap (λ x. x.0)
          (dispatch_known channel r1 called (lookup-insert_self channel called r.handlers)))
