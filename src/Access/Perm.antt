-- ===== src/Access/Perm.antt =====
-- The permissions of server/internal/auth/perms.go, by their names.
use aleart_hub.Base.{Text, text}

abbrev pub alert_publish : Text
alert_publish = text "alert:publish"

abbrev pub alert_cancel : Text
alert_cancel = text "alert:cancel"

abbrev pub alert_read : Text
alert_read = text "alert:read"

abbrev pub device_read : Text
device_read = text "device:read"

abbrev pub device_provision : Text
device_provision = text "device:provision"

abbrev pub sa_manage : Text
sa_manage = text "sa:manage"

abbrev pub member_manage : Text
member_manage = text "member:manage"

abbrev pub org_manage : Text
org_manage = text "org:manage"

abbrev pub settings_manage : Text
settings_manage = text "settings:manage"
