-- ===== src/Shell/Types.antt =====
-- The data of a shell command.
use zhongshu.Prelude.{Bool, List, Option}
use zhongshu.Prelude.Codes.{Codes}

pub data ShellOperator : Type 0 where
  op_and : ShellOperator
  op_or : ShellOperator
  pipe : ShellOperator
  sequence : ShellOperator
  background : ShellOperator

pub data ShellCommandClass : Type 0 where
  noop : ShellCommandClass
  read : ShellCommandClass
  search : ShellCommandClass
  list : ShellCommandClass
  build : ShellCommandClass
  verification : ShellCommandClass
  network : ShellCommandClass
  mutation : ShellCommandClass
  destructive : ShellCommandClass
  unknown : ShellCommandClass
  blocked : ShellCommandClass

pub record ShellSegment : Type 0 where
  pub text : Codes
  pub program : Option Codes
  pub args : List Codes
  pub operator_before : Option ShellOperator
  pub operator_after : Option ShellOperator

pub record ShellSemantics : Type 0 where
  pub raw_command : Codes
  pub normalized_command : Codes
  pub segments : List ShellSegment
  pub command_class : ShellCommandClass
  pub is_verification : Bool
  pub is_background : Bool
  pub requires_approval : Bool
  pub block_reason : Option Codes

-- `ShellCommandClass::combine`.
unfoldable pub combine : ShellCommandClass → ShellCommandClass → ShellCommandClass
combine noop other = other
combine this noop = this
combine blocked _ = blocked
combine _ blocked = blocked
combine destructive _ = destructive
combine _ destructive = destructive
combine mutation _ = mutation
combine _ mutation = mutation
combine network _ = network
combine _ network = network
combine unknown _ = unknown
combine _ unknown = unknown
combine verification _ = verification
combine _ verification = verification
combine build _ = build
combine _ build = build
combine search list = search
combine list search = search
combine search _ = search
combine _ search = search
combine list _ = list
combine _ list = list
combine read _ = read
