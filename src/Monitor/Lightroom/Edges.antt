-- ===== src/Monitor/Lightroom/Edges.antt =====
-- The hooks are the edges of what the probes read.
use lightroom_sync.Common.{
  ℕ, ◌+◌, ◌*◌, ◌≤◌, ◌<◌, ◌≡◌, refl, Bool, true, false, List, [], ◌∷◌, arith,
}
use lightroom_sync.Monitor.Lightroom.{
  Probe, probe_error, reading, Hook, on_started, on_stopped, on_error, probe_and_dispatch,
  probe_all, run, new_resume_detector, resumes,
}

-- The edges of a signal that is low before the first reading.
unfoldable pub edges : Bool → List Probe → List Hook
edges level [] = []
edges level (probe_error ∷ ps) = on_error ∷ edges level ps
edges true (reading true ∷ ps) = edges true ps
edges true (reading false ∷ ps) = on_stopped ∷ edges false ps
edges false (reading true ∷ ps) = on_started ∷ edges true ps
edges false (reading false ∷ ps) = edges false ps

probe_all-edges :
    (ps : List Probe) (level : Bool)
    → probe_all ps (record { known = level; has_known = true }) ≡ edges level ps
unfolding probe_all probe_and_dispatch edges
probe_all-edges [] level = refl
probe_all-edges (probe_error ∷ ps) level = rw (probe_all-edges ps level)
probe_all-edges (reading true ∷ ps) true = probe_all-edges ps true
probe_all-edges (reading false ∷ ps) true = rw (probe_all-edges ps false)
probe_all-edges (reading true ∷ ps) false = rw (probe_all-edges ps true)
probe_all-edges (reading false ∷ ps) false = probe_all-edges ps false

-- The monitor reports exactly the edges of the process's state, as if it had not run before: probes
-- that fail change nothing.
pub run-edges : (ps : List Probe) → run ps ≡ edges false ps
unfolding run probe_all probe_and_dispatch edges
run-edges [] = refl
run-edges (probe_error ∷ ps) = rw (run-edges ps)
run-edges (reading true ∷ ps) = rw (probe_all-edges ps true)
run-edges (reading false ∷ ps) = probe_all-edges ps false

-- Starts and stops take turns; `is_up` says that a start came last.
unfoldable pub takes_turns : Bool → List Hook → Bool
takes_turns is_up [] = true
takes_turns is_up (on_error ∷ hooks) = takes_turns is_up hooks
takes_turns true (on_started ∷ hooks) = false
takes_turns false (on_started ∷ hooks) = takes_turns true hooks
takes_turns true (on_stopped ∷ hooks) = takes_turns false hooks
takes_turns false (on_stopped ∷ hooks) = false

edges-takes_turns : (level : Bool) (ps : List Probe) → takes_turns level (edges level ps) ≡ true
unfolding edges takes_turns
edges-takes_turns level [] = refl
edges-takes_turns level (probe_error ∷ ps) = edges-takes_turns level ps
edges-takes_turns true (reading true ∷ ps) = edges-takes_turns true ps
edges-takes_turns true (reading false ∷ ps) = edges-takes_turns false ps
edges-takes_turns false (reading true ∷ ps) = edges-takes_turns true ps
edges-takes_turns false (reading false ∷ ps) = edges-takes_turns false ps

-- Whatever the probes return, a start is followed by a stop before the next start, and no stop comes
-- without its start.
pub run-takes_turns : (ps : List Probe) → takes_turns false (run ps) ≡ true
run-takes_turns ps = rw (run-edges ps) (edges-takes_turns false ps)

-- Ticks that come no later than the given time after one another.
abbrev pub Regular : ℕ → ℕ → List ℕ → Type 0
Regular gap last [] = Unit
Regular gap last (now ∷ times) = (now ≤ last + gap) × Regular gap now times

-- A detector made with no gap of its own reports no resume while each tick comes within three
-- intervals of the last.
pub resumes-Regular :
    (interval last : ℕ) (times : List ℕ)
    → 0 < interval
    → Regular (interval * 3) last times
    → resumes (new_resume_detector interval 0) last times ≡ []
unfolding resumes new_resume_detector
resumes-Regular interval last [] h r = refl
resumes-Regular interval last (now ∷ times) h r =
    ground (arith, resumes-Regular interval now times h r.1)
