-- ===== src/Extract/Tree.antt =====
-- A trace as the tree of frames that it came from, and what extraction should make of it.
use gas_analyzer.Evm.{StructLog}
use gas_analyzer.Failure.{Failure}
use gas_analyzer.Prelude.Results.{◌>>=◌, Result, ok}
use gas_analyzer.Trace.{append_state_update_from_struct_log}
use gas_analyzer.Extract.{is_delegate, is_extracted}
use gas_analyzer.Prelude.{ℕ, suc, max, ◌≡◌, true, false, Option, List, [], ◌∷◌, ◌++◌, if◌then◌else◌}
use gas_analyzer.Prelude.Bytes.{Bytes}
use gas_analyzer.Types.{StateUpdate}

-- What one frame executes. A step that opens a frame is followed by what that frame executes;
-- a step that opens none has nothing there. `delegate` steps run in the caller's own scope.
pub data Body : Type 0 where
  done : Body
  delegate : StructLog → Body → Body → Body
  own : StructLog → Body → Body → Body

abbrev pub at : ℕ → StructLog → StructLog
at n log = record log { depth = n }

-- The struct logs of a body whose frame has depth `n`.
unfoldable pub logs_of : ℕ → Body → List StructLog
logs_of n done = []
logs_of n (delegate log sub rest) = at n log ∷ (logs_of (suc n) sub ++ logs_of n rest)
logs_of n (own log sub rest) = at n log ∷ (logs_of (suc n) sub ++ logs_of n rest)

abbrev pub height : Body → ℕ
height done = 0
height (delegate log sub rest) = max (suc (height sub)) (height rest)
height (own log sub rest) = max (suc (height sub)) (height rest)

-- The steps are labelled by their opcodes, as far as the scope reaches.
abbrev pub IsLabelled : Body → Type 0
IsLabelled done = Unit
IsLabelled (delegate log sub rest) = (is_delegate log.op ≡ true) × IsLabelled sub × IsLabelled rest
IsLabelled (own log sub rest) = (is_delegate log.op ≡ false) × IsLabelled rest

module _ (decode_to_slice : List ℕ → Option Bytes) where
  -- What a step of the scope itself adds.
  abbrev pub own_update : ℕ → List StateUpdate → StructLog → Result Failure (List StateUpdate)
  own_update n us log =
      if is_extracted log.op
      then (do
        appended ← append_state_update_from_struct_log decode_to_slice us (at n log)
        ok appended.0)
      else ok us

  -- The effects of the scope in order: its own steps and those of the frames it delegates to.
  -- What runs inside the frame of an own step, a `CALL` say, is left to that step.
  unfoldable pub scope_updates : ℕ → List StateUpdate → Body → Result Failure (List StateUpdate)
  scope_updates n us done = ok us
  scope_updates n us (delegate log sub rest) = do
    us' ← scope_updates (suc n) us sub
    scope_updates n us' rest
  scope_updates n us (own log sub rest) = do us' ← own_update n us log; scope_updates n us' rest
