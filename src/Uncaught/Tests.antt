-- ===== src/Uncaught/Tests.antt =====
-- An uncaught error over three installations, on a small disk.
use salve_push.Base.{◌≡◌, some, Bytes, codes, arith}
use salve_push.Storage.Io.{pure, ◌>>◌}
use salve_push.Storage.Operations.{rollback_to_previous_if_unconfirmed}
use salve_push.Storage.Calm.{calm}
use salve_push.Storage.Tests.{json, disk}
use salve_push.Uncaught.Handlers.{notify_previous}
use salve_push.Uncaught.Install.{AppHandlers, install_kotlin_handler, install_apple_handlers}
use salve_push.Uncaught.Effect.{repeated, handlers_once}

abbrev before : AppHandlers json Bytes Bytes
before = record { uncaught = some (λ error. pure tt); log = some (λ error. pure tt) }

abbrev kotlin : AppHandlers json Bytes Bytes
kotlin = repeated 3 (install_kotlin_handler json) before

abbrev apple : AppHandlers json Bytes Bytes
apple = repeated 3 (install_apple_handlers json 4) before

handlers_once_example :
    (notify_previous json kotlin.uncaught (codes "boom") (calm disk)
      ≡ (rollback_to_previous_if_unconfirmed json
            >> notify_previous json before.uncaught (codes "boom"))
          (calm disk))
    × (notify_previous json apple.uncaught (codes "boom") (calm disk)
        ≡ rollback_to_previous_if_unconfirmed json (calm disk))
    × (notify_previous json apple.log (5, codes "bad") (calm disk)
        ≡ (rollback_to_previous_if_unconfirmed json
              >> notify_previous json before.log (5, codes "bad"))
            (calm disk))
handlers_once_example =
    handlers_once json 2 4 5 before (codes "boom") (codes "bad") disk (omega arith)
