-- ===== src/Tests/ProbeTests.antt =====
-- Runs of the probe of the configured folders and of the wait for the agent.
use lightroom_sync.Common.{
  Bool, ℕ, zero, suc, some, ◌≡◌, refl, ap, none, List, [], ◌∷◌, if◌then◌else◌,
}
use lightroom_sync.Common.Text.{Text, lit, text_eq, text_eq_iff, to_lower, trim_space}
use lightroom_sync.Ipc.Wait.{deadline, ticked, Round, wait_for_agent}
use lightroom_sync.Monitor.Breaker.{failed}
use lightroom_sync.Monitor.PathProbe.{
  Look, folder, missing, new_path_probe, is_healthy, is_accessible, is_all_accessible, IsCaseBlind,
  new_path_probe-accessible,
}

abbrev look_key : Text → Look
look_key key = if text_eq key (lit "n:\\backup") then folder none else missing (lit "no such file")

abbrev look : Text → Look
look p = look_key (to_lower p)

look-IsCaseBlind : IsCaseBlind look
look-IsCaseBlind p q same =
    ap (λ key. is_accessible (look_key key)) ((text_eq_iff (to_lower p) (to_lower q)).0 same)

abbrev share_paths : List Text
share_paths = lit " N:\\Backup" ∷ lit "n:\\backup" ∷ [] ∷ lit "N:\\presets" ∷ []

new_path_probe-accessible_example :
    is_healthy (new_path_probe (λ p. p) look (λ n. none) share_paths)
    ≡ is_all_accessible (λ p. p) look share_paths
new_path_probe-accessible_example =
    new_path_probe-accessible look (λ p. p) look-IsCaseBlind (λ n. none) share_paths (λ n. refl)

missing_presets :
    new_path_probe (λ p. p) look (λ n. none) share_paths
    ≡ failed (lit "stat path N:\\presets: no such file")
unfolding new_path_probe lit text_eq to_lower trim_space
missing_presets = refl

-- The agent never answers; the context ends by its deadline in the third round.
abbrev unanswered : ℕ → Round Bool
unanswered zero = record { call = none; wake = ticked }
unanswered (suc zero) = record { call = none; wake = ticked }
unanswered (suc (suc n)) = record { call = none; wake = deadline }

timed_out :
    wait_for_agent 3 unanswered ≡ some (some (lit "agent_offline: timeout waiting for agent"))
unfolding wait_for_agent lit
timed_out = refl
