-- ===== src/Ipc/Wait.antt =====
-- Waiting for the agent (Ping and WaitForAgent in internal/ipc/client.go). The rounds that the loop
-- meets, each up to the next tick of its ticker, are a sequence; it runs on fuel.
use lightroom_sync.Common.{
  ℕ, zero, suc, ◌≡◌, ◌≤◌, Bool, true, false, Option, none, some, ◌++◌, if◌then◌else◌, arith,
}
use lightroom_sync.Common.Text.{Text, lit}
use lightroom_sync.Ipc.{Response, code_agent_offline}

-- What the `select` goes on with: the context's end, by its deadline or another error, or a tick.
pub data Wake : Type 0 where
  deadline : Wake
  ended : Text → Wake
  ticked : Wake

abbrev pub is_ticked : Wake → Bool
is_ticked deadline = false
is_ticked (ended e) = false
is_ticked ticked = true

pub record Round (D : Type 0) : Type 0 where
  pub call : Option (Response D)
  pub wake : Wake

abbrev pub is_online : Option Bool → Bool
is_online none = false
is_online (some ok) = ok

module _ {D : Type 0} where
  -- `none` is an error of the call.
  abbrev pub ping : Option (Response D) → Option Bool
  ping none = none
  ping (some r) = some r.success

  -- `some none` is the nil error, `none` that the fuel is used up.
  unfoldable pub wait_for_agent : ℕ → (ℕ → Round D) → Option (Option Text)
  wait_for_agent zero rounds = none
  wait_for_agent (suc fuel) rounds =
      let round = rounds 0 in
      let again = wait_for_agent fuel (λ n. rounds (suc n)) in
      let woken : Option (Option Text) = elim round.wake [
        | deadline ↦ some (some (code_agent_offline ++ lit ": timeout waiting for agent"))
        | ended e ↦ some (some (code_agent_offline ++ (lit ": " ++ e)))
        | ticked ↦ again
      ] in
      if is_online (ping round.call) then some none else woken

  -- It returns nil if a ping is answered with success and the context ends in no round before.
  pub wait_for_agent-online :
      (k fuel : ℕ) (rounds : ℕ → Round D)
      → suc k ≤ fuel
      → is_online (ping (rounds k).call) ≡ true
      → ((j : ℕ) → suc j ≤ k → is_ticked (rounds j).wake ≡ true)
      → wait_for_agent fuel rounds ≡ some none
  unfolding wait_for_agent
  wait_for_agent-online k zero rounds enough online live = absurd (omega (arith, enough))
  wait_for_agent-online zero (suc fuel) rounds enough online live = ground (arith, online)
  wait_for_agent-online (suc k) (suc fuel) rounds enough online live = ground (
    arith,
    live 0 (omega arith),
    wait_for_agent-online k fuel (λ n. rounds (suc n)) (omega (arith, enough)) online
        (λ j h. live (suc j) (omega (arith, h))),
  )
