-- ===== src/Diag.antt =====
-- Diagnostics, compiler/src/diag.rs: the level, the code and the place of a message. The texts,
-- which are made for a reader, are not modelled.
use pipeit.Extern.{Extern}

pub data DiagLevel : Type 0 where
  error warning : DiagLevel

-- The codes that the modelled passes emit.
pub data DiagCode : Type 0 where
  e0026 e0028 e0029 e0030 e0304 e0305 e0400 e0500 w0400 : DiagCode

pub record Diagnostic (X : Extern) : Type 0 where
  pub level : DiagLevel
  pub code : DiagCode
  pub span : X.Span
