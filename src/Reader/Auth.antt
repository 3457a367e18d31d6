-- ===== src/Reader/Auth.antt =====
-- `PlayStationMemoryCardReader.authenticate`.
use ps3_memorycard_adapter.Prelude.{
  ℕ, zero, suc, List, get_elem?, if◌then◌else◌, value_error, index_error, Action, pure, raise,
  diverge, or_raise, ◌>>=◌, ◌>>◌, Value,
}
use ps3_memorycard_adapter.Reader.Host.{Host}
use ps3_memorycard_adapter.Reader.Commands.{
  is_authenticated, step_81f0, recv_81f0, step_81f3, step_81f7, step_8126, step_8127, step_8128,
  get_random_number, send_auth_part1, send_auth_part2, send_auth_part3, recv_auth_part1,
  recv_auth_part2, recv_auth_part3,
}

-- `answer_list[i]`
abbrev pub answer_at : {D : Type 0} → List Value → ℕ → Action D Value
answer_at answers i = or_raise (get_elem? answers i) index_error

module _ {D : Type 0} (host : Host D) (fuel : ℕ) where
  -- The commands up to the answers of the authenticator.
  unfoldable pub request_answers : Action D (List Value)
  request_answers = do
    step_81f3 host fuel
    step_81f7 host fuel
    step_81f0 host fuel 0
    recv_81f0 host fuel 1 9
    recv_81f0 host fuel 2 9
    step_81f0 host fuel 3
    seed ← get_random_number host fuel
    host.answer seed

  -- The commands after `__81f0(5)` has gone through, and the last check.
  unfoldable pub send_answers : List Value → Action D (Unit {0})
  send_answers answers = do
    first ← answer_at answers 0
    send_auth_part1 host fuel first
    second ← answer_at answers 1
    send_auth_part2 host fuel second
    step_81f0 host fuel 8
    step_81f0 host fuel 9
    step_81f0 host fuel 0xa
    third ← answer_at answers 2
    send_auth_part3 host fuel third
    step_81f0 host fuel 0xc
    step_81f0 host fuel 0xd
    step_81f0 host fuel 0xe
    recv_auth_part1 host fuel
    step_81f0 host fuel 0x10
    recv_auth_part2 host fuel
    step_81f0 host fuel 0x12
    recv_auth_part3 host fuel
    step_81f0 host fuel 0x14
    step_8128 host fuel
    step_8127 host fuel
    step_8126 host fuel
    done ← is_authenticated host fuel
    if done then pure tt else raise value_error

  -- One round of the loop. A round that timed out does nothing more.
  unfoldable pub auth_round : Action D (Unit {0})
  auth_round = do
    answers ← request_answers
    in_time ← step_81f0 host fuel 5
    if in_time then send_answers answers else pure tt

  -- `while not self.isAuthenticated()`, with a bound on the rounds.
  unfoldable pub auth_loop : ℕ → Action D (Unit {0})
  auth_loop zero = diverge
  auth_loop (suc rounds) = do
    done ← is_authenticated host fuel
    if done then pure tt else (do auth_round; auth_loop rounds)

  -- `authenticate`
  unfoldable pub authenticate : Action D (Unit {0})
  authenticate = auth_loop fuel
