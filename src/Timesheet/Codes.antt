-- ===== src/Timesheet/Codes.antt =====
-- The exception codes of a timesheet.
use employee_attendance.Prelude.{ℕ}
use employee_attendance.CodeSet.{Code}

pub data ExceptionCode : Type 0 where
  absent break_not_ended correction_incomplete duplicate_clock_in early_departure excessive_hours
        gps_accuracy_rejected gps_clock_request_pending late_arrival missed_clock_out
        missing_clock_out partial_day_unaccounted unpaired_break_end unpaired_break_start
        unpaired_clock_out :
      ExceptionCode

-- The place of a code in alphabetical order.
unfoldable pub code_rank : ExceptionCode → ℕ
code_rank absent = 0
code_rank break_not_ended = 1
code_rank correction_incomplete = 2
code_rank duplicate_clock_in = 3
code_rank early_departure = 4
code_rank excessive_hours = 5
code_rank gps_accuracy_rejected = 6
code_rank gps_clock_request_pending = 7
code_rank late_arrival = 8
code_rank missed_clock_out = 9
code_rank missing_clock_out = 10
code_rank partial_day_unaccounted = 11
code_rank unpaired_break_end = 12
code_rank unpaired_break_start = 13
code_rank unpaired_clock_out = 14

instance abbrev pub exception_code : Code ExceptionCode
exception_code = record { rank = code_rank }
