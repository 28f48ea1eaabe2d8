-- ===== src/Monitor/Heartbeat/Beats.antt =====
-- The heartbeats of one run (Run and writeAndReport in internal/monitor/heartbeat.go): ONLINE at the
-- start and at each tick, OFFLINE when the context ends.
use lightroom_sync.Common.{◌≡◌, refl, ap, ◌∙◌, List, [], ◌∷◌, ◌++◌}
use lightroom_sync.Monitor.Heartbeat.{
  Config, Answers, Ending, succeeded, cancelled, gave_up, write_with_retry,
}

pub data LockStatus : Type 0 where
  online offline : LockStatus

-- The calls of the hooks.
pub data Report : Type 0 where
  on_heartbeat : LockStatus → Report
  on_error : Report

abbrev pub report_of : LockStatus → Ending → List Report
report_of status succeeded = on_heartbeat status ∷ []
report_of status cancelled = []
report_of status gave_up = on_error ∷ []

unfoldable pub write_and_report : Config → LockStatus → Answers → List Report
write_and_report cfg status answers = report_of status (write_with_retry cfg answers).ending

-- The ticks that come before the end of the context, the one of the start included.
unfoldable pub online_reports : Config → List Answers → List Report
unfolding write_and_report
online_reports cfg [] = []
online_reports cfg (a ∷ as') = write_and_report cfg online a ++ online_reports cfg as'

-- `last` answers the writes of the shutdown.
unfoldable pub run : Config → Answers → List Answers → Answers → List Report
unfolding online_reports
run cfg first ticks last = online_reports cfg (first ∷ ticks) ++ write_and_report cfg offline last

-- The lock that the application's state shows behind the reports: OnHeartbeat stores the status that
-- was written, OnError an error.
pub data Shown : Type 0 where
  no_status failure : Shown
  shown : LockStatus → Shown

unfoldable pub shown_after : Shown → List Report → Shown
shown_after s [] = s
shown_after s (on_heartbeat status ∷ rs) = shown_after (shown status) rs
shown_after s (on_error ∷ rs) = shown_after failure rs

shown_after-append :
    (s : Shown) (rs qs : List Report) → shown_after s (rs ++ qs) ≡ shown_after (shown_after s rs) qs
unfolding shown_after
shown_after-append s [] qs = refl
shown_after-append s (on_heartbeat status ∷ rs) qs = shown_after-append (shown status) rs qs
shown_after-append s (on_error ∷ rs) qs = shown_after-append failure rs qs

-- After a run whose last write succeeds the state shows the machine as offline, whatever became of the
-- heartbeats before.
pub run-offline :
    (cfg : Config) (first : Answers) (ticks : List Answers) (last : Answers)
    → (write_with_retry cfg last).ending ≡ succeeded
    → shown_after no_status (run cfg first ticks last) ≡ shown offline
unfolding run write_and_report shown_after
run-offline cfg first ticks last h =
    shown_after-append no_status (online_reports cfg (first ∷ ticks))
      (write_and_report cfg offline last)
    ∙ ap
        (λ e.
          shown_after (shown_after no_status (online_reports cfg (first ∷ ticks)))
            (report_of offline e))
        h
