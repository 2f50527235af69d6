-- ===== src/CString/Tests.antt =====
-- Tests of the model of src/cstdlib/string.c.
use armv4_kernel.Prelude.{◌≡◌, ◌↔◌, arith, ◌==◌, if◌then◌else◌}
use armv4_kernel.CString.{Bytes, strncmp}
use armv4_kernel.CString.Copy.{text}
use armv4_kernel.CString.Compare.{IsBytes, strncmp-eq-zero}

-- "abc", with zeros behind it
abbrev abc : Bytes
abc i = if i == 0 then 97 else if i == 1 then 98 else if i == 2 then 99 else 0

abbrev filled : Bytes
filled i = 7

abc-IsBytes : IsBytes abc
abc-IsBytes i = ground arith

filled-IsBytes : IsBytes filled
filled-IsBytes i = omega arith

strncmp-eq-zero_example : (strncmp abc filled 4 ≡ 0) ↔ (text 4 0 abc ≡ text 4 0 filled)
strncmp-eq-zero_example = strncmp-eq-zero abc filled abc-IsBytes filled-IsBytes 4
