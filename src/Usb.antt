-- ===== src/Usb.antt =====
-- What the driver sees of libgusb: EP0 control transfers and their answers. The device's
-- answers are inputs of the model.
use verimark_linux_driver.Common.{ℕ, List, Error}

-- VERIMARK_CTRL_REQ_WRITE with its data, VERIMARK_CTRL_REQ_READ with the length asked for.
pub data Transfer : Type 0 where
  control_write : (wvalue : ℕ) (bytes : List ℕ) → Transfer
  control_read : (wvalue want : ℕ) → Transfer

-- The bytes that came from the device (none for a write), or a GError.
pub data Answer : Type 0 where
  arrived : List ℕ → Answer
  refused : Error → Answer
