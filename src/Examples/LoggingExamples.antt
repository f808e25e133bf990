-- ===== src/Examples/LoggingExamples.antt =====
-- The calendar at one second.
use hubert_rust.Base.{◌≡◌, arith}
use hubert_rust.Logging.{DateTime, date_time, returns}
use hubert_rust.Logging.Calendar.{IsDateOf, date_time_lem}

date_time_lem_example :
    (t : DateTime) × (date_time 1_709_210_096 ≡ returns t) × IsDateOf 1_709_210_096 t
date_time_lem_example = date_time_lem 1_709_210_096 (omega arith)
