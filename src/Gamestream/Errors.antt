-- ===== src/Gamestream/Errors.antt =====
-- libgamestream/errors.h. A return code is the `int` that the C code returns.
use moonlight_embedded_for_d.Base.{ℤ, pos, negsuc, Bool, ◌==ℤ◌}

abbrev pub gs_ok : ℤ
gs_ok = pos 0

abbrev pub gs_failed : ℤ
gs_failed = negsuc 0

abbrev pub gs_out_of_memory : ℤ
gs_out_of_memory = negsuc 1

abbrev pub gs_invalid : ℤ
gs_invalid = negsuc 2

abbrev pub gs_wrong_state : ℤ
gs_wrong_state = negsuc 3

abbrev pub gs_io_error : ℤ
gs_io_error = negsuc 4

abbrev pub gs_unsupported_version : ℤ
gs_unsupported_version = negsuc 6

abbrev pub gs_not_supported_mode : ℤ
gs_not_supported_mode = negsuc 7

abbrev pub gs_error_code : ℤ
gs_error_code = negsuc 8

-- `ret == GS_OK`
abbrev pub is_ok : ℤ → Bool
is_ok ret = ret ==ℤ gs_ok
