-- ===== src/Moc/Io.antt =====
-- driver/verimark-moc.c: what the states of the match-on-chip machines ask for, and what their
-- callbacks are given.
use verimark_linux_driver.Common.{ℕ, ◌+◌, max, Bool, Option, List, [], ◌∷◌, Error, u16_le}

pub data Request : Type 0 where
  -- verimark_moc_send, with `resp_hint`
  send : (cmd : List ℕ) (resp_hint : ℕ) → Request
  -- verimark_intr_wait_async
  wait_intr : (want_type timeout_ms : ℕ) → Request
  -- a capture machine of its own, started with `fpi_ssm_start`
  capture : (acq_kind : ℕ) → Request

-- The arguments of a callback, and the clock (g_get_monotonic_time) when it runs. A send leaves
-- `got` unused, the interrupt wait `resp`, a capture both.
pub record Event : Type 0 where
  pub error : Option Error
  pub resp : List ℕ
  pub got : Bool
  pub now : ℕ

-- on_moc_raw_resp: a reply with less than two bytes has status 0.
unfoldable pub status_of : List ℕ → ℕ
status_of [] = 0
status_of (_ ∷ []) = 0
status_of (lo ∷ hi ∷ _) = u16_le lo hi

-- VERIMARK_MOC_MIN_READ_BUDGET
abbrev pub moc_min_read_budget : ℕ
moc_min_read_budget = 512

-- The reply limit that verimark_moc_send gives to verimark_cmd.
unfoldable pub moc_read_budget : ℕ → ℕ
moc_read_budget resp_hint = max (resp_hint + 64) moc_min_read_budget
