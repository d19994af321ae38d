-- ===== src/Prelude/Contexts.antt =====
-- `context.Context` as the program reads it: `ctx.Err()` is `none` until the context is done.
use mathlib.Core.Option.{Option}

pub data ContextError : Type 0 where
  canceled deadline_exceeded : ContextError

abbrev pub Context : Type 0
Context = Option ContextError
