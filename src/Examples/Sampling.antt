-- ===== src/Examples/Sampling.antt =====
-- Priorities and mechanisms of dd-trace/src/sampling.rs, at concrete values.
use dd_trace_rs.Prelude.{◌≡◌, refl, some, arith, ◌⊎◌, ◌≤◌}
use dd_trace_rs.Prelude.Int.{negsuc}
use dd_trace_rs.Prelude.Text.{codes}
use dd_trace_rs.Numeral.{parse_signed, scan, to_digit, negate}
use dd_trace_rs.Decision.Mechanism
use dd_trace_rs.Decision.Laws.{mechanism_round_trip, mechanism_sound}

mechanism_round_trip_example :
    Mechanism.from_str (Mechanism.to_cow Mechanism.data_jobs_monitoring)
    ≡ some Mechanism.data_jobs_monitoring
mechanism_round_trip_example = mechanism_round_trip Mechanism.data_jobs_monitoring (omega arith)

-- The lowest number is read as the default mechanism.
lowest_number : Mechanism.from_str (codes "-32768") ≡ some Mechanism.default
unfolding Mechanism.from_str Mechanism.accept parse_signed scan to_digit
lowest_number = refl

mechanism_sound_example :
    (Mechanism.default.value ≤ 255)
    × ((parse_signed 32768 32768 (codes "-32768") ≡ some (negate Mechanism.default.value))
        ⊎ (parse_signed 32768 32768 (codes "-32768") ≡ some (negsuc 32767))
          × (Mechanism.default ≡ Mechanism.default))
mechanism_sound_example = mechanism_sound (codes "-32768") Mechanism.default lowest_number
