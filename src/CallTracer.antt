-- ===== src/CallTracer.antt =====
-- What `callTracer` and `prestateTracer` report (alloy's `CallFrame`, `CallLogFrame` and
-- `DiffMode`, the fields that the code reads). A `BTreeMap` is a list of pairs with each key once,
-- and texts are numbers: they are only passed through.
use gas_analyzer.Prelude.{ℕ, Option, List}
use gas_analyzer.Prelude.Bytes.{Bytes}

pub data FrameType : Type 0 where
  call create create2 selfdestruct delegatecall callcode staticcall : FrameType
  other : ℕ → FrameType

pub record CallLog : Type 0 where
  pub topics : Option (List ℕ)
  pub payload : Option Bytes
  pub position : Option ℕ
  pub index : Option ℕ

pub record Header : Type 0 where
  pub typ : FrameType
  pub to : Option ℕ
  pub error : Option ℕ
  pub revert_reason : Option ℕ
  pub logs : List CallLog

-- A call frame is its header and its `calls`.
mutual
  pub data CallFrame : Type 0 where
    frame : Header → CallFrames → CallFrame

  pub data CallFrames : Type 0 where
    no_frames : CallFrames
    add_frame : CallFrame → CallFrames → CallFrames

abbrev pub Storage : Type 0
Storage = List (ℕ × ℕ)

pub record DiffMode : Type 0 where
  pub pre : List (ℕ × Storage)
  pub post : List (ℕ × Storage)

abbrev pub header : CallFrame → Header
header (frame h calls) = h
