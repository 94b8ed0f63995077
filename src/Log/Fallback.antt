-- ===== src/Log/Fallback.antt =====
-- How a_log_syslog of a/to_do/log.c ends where there is no vsyslog.
use alib4c.Common.{
  ℕ, suc, ◌+◌, ◌<◌, ◌^◌, ◌≡◌, refl, Bool, Bool-cases, inl, inr, true, some, List, if◌then◌else◌,
  length,
}
use alib4c.World.{World, ok, fault, malloc, head_or_false, emit, block_freed}
use alib4c.Mem.{Block, c_string, a_free}
use alib4c.Format.{Vsnprintf}
use alib4c.Format.Sizes.{Counts, vsprintf_malloc-c_string}
use alib4c.Log.{succeeded, log_formatted, a_log_syslog_formatting}

-- Where vsnprintf counts as ISO C has it, and the format is not empty, a_log_syslog without vsyslog, with
-- memory to be had and a text shorter than 2^32 - 1 bytes, frees the text twice when a_log_str_syslog
-- has logged it, and frees it once, and says that it has succeeded, when that has reported an error.
pub syslog_formatting-freed :
    (fuel fmt_len : ℕ) (v : Vsnprintf) (text : List ℕ) (reports : Block → Bool) (w : World)
    → Counts v text
    → 0 < fmt_len
    → length text + 1 < 2 ^ 32
    → head_or_false w.mallocs ≡ true
    → a_log_syslog_formatting (suc fuel) v fmt_len reports w
      ≡ some
          (if reports (c_string text) then ok succeeded (emit block_freed (malloc w).1) else fault)
unfolding a_log_syslog_formatting log_formatted a_free
syslog_formatting-freed fuel fmt_len v text reports w c p h e =
    rw (vsprintf_malloc-c_string fuel fmt_len v text w c p h e)
      (elim (Bool-cases (reports (c_string text))) [ inl y ↦ rw y refl | inr n ↦ rw n refl ])
