-- ===== src/Clipboard/Settings.antt =====
-- crates/mouser-clipboard/src/settings.rs: what a device shares. Formats and operating systems are
-- their discriminants on the wire; every other number is an unknown one.
use mouser.Prelude.{ℕ, Bool, true, false, ◌&&◌, ◌||◌, leb, ◌==◌, if◌then◌else◌}
use mouser.Clipboard.Types.{ClipFormat}

pub data SyncDirection : Type 0 where
  bidirectional send_only receive_only : SyncDirection

abbrev pub allows_send : SyncDirection → Bool
allows_send bidirectional = true
allows_send send_only = true
allows_send receive_only = false

abbrev pub allows_receive : SyncDirection → Bool
allows_receive bidirectional = true
allows_receive send_only = false
allows_receive receive_only = true

pub record ClipboardSettings : Type 0 where
  pub shared_clipboard : Bool
  pub sync_text : Bool
  pub sync_images : Bool
  pub sync_files : Bool
  pub max_auto_sync_bytes : ℕ
  pub prefer_native_apple : Bool
  pub direction : SyncDirection

abbrev pub utf8_text : ClipFormat
utf8_text = 0

abbrev pub html : ClipFormat
html = 1

abbrev pub png : ClipFormat
png = 2

abbrev pub uri_list : ClipFormat
uri_list = 3

abbrev pub rtf : ClipFormat
rtf = 4

unfoldable pub format_enabled : ClipboardSettings → ClipFormat → Bool
format_enabled settings format =
    if format == utf8_text || format == html || format == rtf
    then settings.sync_text
    else (if format == png
        then settings.sync_images
        else (if format == uri_list then settings.sync_files else false))

abbrev pub can_offer : ClipboardSettings → Bool
can_offer settings = settings.shared_clipboard && allows_send settings.direction

abbrev pub can_receive : ClipboardSettings → Bool
can_receive settings = settings.shared_clipboard && allows_receive settings.direction

unfoldable pub within_auto_sync_limit : ClipboardSettings → ℕ → Bool
within_auto_sync_limit settings size =
    settings.max_auto_sync_bytes == 0 || leb size settings.max_auto_sync_bytes

-- `Os::Macos` is 0 and `Os::Ios` is 3.
unfoldable pub is_apple : ℕ → Bool
is_apple os = os == 0 || os == 3

unfoldable pub prefer_native_suppresses : ClipboardSettings → ℕ → ℕ → Bool
prefer_native_suppresses settings local peer =
    settings.prefer_native_apple && is_apple local && is_apple peer
