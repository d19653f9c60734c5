-- ===== src/Capture/Sizes.antt =====
-- src/capture.h: sizes.
use sngrep.Common.{ℕ}

-- The size of the buffer that a frame is copied to.
abbrev pub max_capture_len : ℕ
max_capture_len = 20480
