-- ===== src/Tests/Calendar.antt =====
-- Texts of points in time.
use digital_colleagues.Base.{◌≡◌, refl}
use digital_colleagues.Core.Common.{zero_offset}
use digital_colleagues.Core.Common.Calendar.{datetime_to_canonical_z}
use digital_colleagues.Tests.Samples.{running}

leap_day :
    datetime_to_canonical_z (record { clock = 63844847998000012; offset = zero_offset })
    ≡ "2024-02-29T23:59:58.000012Z"
unfolding datetime_to_canonical_z running
leap_day = refl

last_day_of_cycle :
    datetime_to_canonical_z (record { clock = 63113821323000000; offset = zero_offset })
    ≡ "2000-12-31T01:02:03.000000Z"
unfolding datetime_to_canonical_z running
last_day_of_cycle = refl
