-- ===== src/Monitor/Lightroom.antt =====
-- LightroomMonitor (internal/monitor/lightroom.go) and ResumeDetector
-- (internal/monitor/resume_detector.go): edges of a polled value.
pub mod Edges
use lightroom_sync.Common.{
  ℕ, zero, suc, ◌+◌, ◌-◌, ◌*◌, Bool, true, false, not, List, [], ◌∷◌, ◌++◌, ltb, ◌==◌,
  if◌then◌else◌,
}

-- What `IsRunning` returns.
pub data Probe : Type 0 where
  probe_error : Probe
  reading : Bool → Probe

pub data Hook : Type 0 where
  on_started on_stopped on_error : Hook

-- The variables `known` and `hasKnown` of `Run`.
pub record Known : Type 0 where
  pub known : Bool
  pub has_known : Bool

abbrev pub same : Bool → Bool → Bool
same true b = b
same false b = not b

unfoldable pub probe_and_dispatch : Probe → Known → Known × List Hook
probe_and_dispatch probe_error k = (k, on_error ∷ [])
probe_and_dispatch (reading running) k =
    let now : Known = record { known = running; has_known = true } in
    if not k.has_known
    then (now, if running then on_started ∷ [] else [])
    else if same running k.known
    then (k, [])
    else (now, if running then on_started ∷ [] else on_stopped ∷ [])

-- The probes of `Run`, the one at the start and one for each tick.
unfoldable pub probe_all : List Probe → Known → List Hook
probe_all [] k = []
probe_all (p ∷ ps) k = let (k', hooks) = probe_and_dispatch p k in hooks ++ probe_all ps k'

unfoldable pub run : List Probe → List Hook
run ps = probe_all ps (record { known = false; has_known = false })

-- Durations in nanoseconds; one that is not positive is 0 here.
pub record ResumeDetector : Type 0 where
  pub interval : ℕ
  pub max_gap : ℕ

unfoldable pub new_resume_detector : ℕ → ℕ → ResumeDetector
new_resume_detector interval max_gap =
    let i = if interval == 0 then 5 * 1000000000 else interval in
    record { interval = i; max_gap = if max_gap == 0 then i * 3 else max_gap }

-- The gaps that `OnResume` is called with, for the times of the ticks; a time before the last one
-- gives no positive gap.
unfoldable pub resumes : ResumeDetector → ℕ → List ℕ → List ℕ
resumes d last [] = []
resumes d last (now ∷ times) =
    let rest = resumes d now times in
    if ltb d.max_gap (now - last) then (now - last) ∷ rest else rest
