-- ===== src/Limits/Samples.antt =====
-- The dict form applied to limits of which one is 0.
use hermes_lab.Prelude.{◌≡◌}
use hermes_lab.Limits.{RuntimeLimits, default_limits, to_dict, from_dict, from_dict-to_dict}

abbrev no_replans : RuntimeLimits
no_replans = record default_limits { max_replans_per_job = 0; concurrency_limit = 7 }

from_dict-to_dict_example :
    from_dict (to_dict no_replans) ≡ record default_limits { concurrency_limit = 7 }
from_dict-to_dict_example = from_dict-to_dict no_replans
