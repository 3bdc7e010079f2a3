-- ===== src/Broker/Tests.antt =====
-- Topics of a device.
use aleart_hub.Base.{text_eq, text}
use aleart_hub.Broker.{Creds}

abbrev creds : Creds
creds = record {
  publisher_user = text "server";
  publisher_pass = text "s";
  client_user = text "client";
  client_pass = text "c";
}
