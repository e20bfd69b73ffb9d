-- ===== src/Platform.antt =====
-- What the operator calls and does not implement: the Unicode tables, the address parser, the
-- Kubernetes name checks and the machine.
use Prim.Native.Char.{Char}
use astradns_operator.Base.{String, Bool, ℤ}

pub record Platform : Type 0 where
  -- `unicode.ToLower` beyond ASCII
  pub lower_table : Char → Char
  -- `netip.ParseAddr` returns no error
  pub is_addr : String → Bool
  -- `validation.IsDNS1123Subdomain` returns no message
  pub is_subdomain : String → Bool
  -- `validation.IsDNS1123Label` returns no message
  pub is_label : String → Bool
  -- `runtime.NumCPU`
  pub num_cpu : ℤ
