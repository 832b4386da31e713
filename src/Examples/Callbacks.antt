-- ===== src/Examples/Callbacks.antt =====
-- Callbacks at addresses 7 and 8.
use privately_distributed_cl.Common.{◌≡◌, refl, some, List, [], ◌∷◌}
use privately_distributed_cl.Dispatcher.{
  Store, times, insert, erase, update, subscribe, un_subscribe, new_callback, destroy_callback,
  set_dispatcher, notify,
}
use privately_distributed_cl.Dispatcher.Links.{
  Use, attach, destroy, use_callback, use_callbacks, use_callbacks-IsLinked, points, new_store,
  new_store-IsLinked,
}
use privately_distributed_cl.DirMonitor as Monitor

abbrev uses : List Use
uses = attach 7 0 ∷ attach 8 0 ∷ destroy 7 ∷ []

abbrev after : Store
after = new_callback 7 (un_subscribe 0 7 (set_dispatcher 8 0 (set_dispatcher 7 0 new_store)))

uses_lem : use_callbacks uses new_store ≡ some after
unfolding use_callbacks use_callback destroy_callback set_dispatcher subscribe un_subscribe
    new_callback insert erase update times
uses_lem = refl

use_callbacks-IsLinked_example : times 7 (notify 0 after) ≡ points (after.dispatcher_of 7) 0
use_callbacks-IsLinked_example =
    use_callbacks-IsLinked uses new_store new_store-IsLinked uses_lem 7 0
