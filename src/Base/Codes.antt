-- ===== src/Base/Codes.antt =====
-- The return codes of the functions that fail by -1.

-- 0 and -1
pub data Ret : Type 0 where
  success failure : Ret
