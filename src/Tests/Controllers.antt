-- ===== src/Tests/Controllers.antt =====
-- The webhook and the cache profiles.
use astradns_operator.Base.{String, some, List, [], Result, ok, ◌≡◌, ◌≢◌, ◌↔◌, ◌⊎◌}
use astradns_operator.Api.{Pool}
use astradns_operator.Webhook.{Request, allowed, handle}
use astradns_operator.Webhook.Admission.{IsFirst, handle-allowed_iff}
use astradns_operator.Samples.{secure_pool}

abbrev empty_listing : String → Result String (List Pool)
empty_listing namespace = ok []

abbrev creation : Request
creation = record { operation = "CREATE"; namespace = "dns"; object = some secure_pool }

handle-allowed_iff_example :
    ((m : String) × (handle (some empty_listing) creation ≡ allowed m))
    ↔ ((creation.operation ≢ "CREATE") ⊎ IsFirst empty_listing creation)
handle-allowed_iff_example = handle-allowed_iff empty_listing creation
