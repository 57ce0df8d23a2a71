-- ===== src/Frame/SettingsId.antt =====
-- `nghttp2_settings_id` of lib/includes/nghttp2/nghttp2.h.
use newhttp.Common.{ℕ}

abbrev pub header_table_size : ℕ
header_table_size = 1

abbrev pub enable_push : ℕ
enable_push = 2

abbrev pub max_concurrent_streams : ℕ
max_concurrent_streams = 3

abbrev pub initial_window_size : ℕ
initial_window_size = 4

abbrev pub max_frame_size : ℕ
max_frame_size = 5

abbrev pub max_header_list_size : ℕ
max_header_list_size = 6
