-- ===== src/Comm/Errors.antt =====
-- The error numbers of Linux that comm_nrf24l01.c returns, negated.
use knot_hal_source.Prelude.{ℤ, negsuc}

abbrev pub eperm : ℤ
eperm = negsuc 0

abbrev pub eagain : ℤ
eagain = negsuc 10

abbrev pub ebusy : ℤ
ebusy = negsuc 15

abbrev pub einval : ℤ
einval = negsuc 21

abbrev pub eusers : ℤ
eusers = negsuc 86

abbrev pub etimedout : ℤ
etimedout = negsuc 109
