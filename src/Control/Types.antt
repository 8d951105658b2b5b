-- ===== src/Control/Types.antt =====
-- The first byte of each control message (ControlMessage.ts).
use proxmoxwhatsapp.Prelude.{ℤ, pos}

abbrev pub type_keycode : ℤ
type_keycode = pos 0

abbrev pub type_text : ℤ
type_text = pos 1

abbrev pub type_touch : ℤ
type_touch = pos 2

abbrev pub type_scroll : ℤ
type_scroll = pos 3

abbrev pub type_back_or_screen_on : ℤ
type_back_or_screen_on = pos 4

abbrev pub type_expand_notification_panel : ℤ
type_expand_notification_panel = pos 5

abbrev pub type_expand_settings_panel : ℤ
type_expand_settings_panel = pos 6

abbrev pub type_collapse_panels : ℤ
type_collapse_panels = pos 7

abbrev pub type_get_clipboard : ℤ
type_get_clipboard = pos 8

abbrev pub type_set_clipboard : ℤ
type_set_clipboard = pos 9

abbrev pub type_set_screen_power_mode : ℤ
type_set_screen_power_mode = pos 10

abbrev pub type_rotate_device : ℤ
type_rotate_device = pos 11

abbrev pub type_uhid_create : ℤ
type_uhid_create = pos 12

abbrev pub type_uhid_input : ℤ
type_uhid_input = pos 13

abbrev pub type_uhid_destroy : ℤ
type_uhid_destroy = pos 14

abbrev pub type_change_stream_parameters : ℤ
type_change_stream_parameters = pos 101

abbrev pub type_push_file : ℤ
type_push_file = pos 102
