-- ===== src/Exchanges/Status.antt =====
-- exchanges/exchange_status.h. The function is over a scoped enumeration, so its `default` is not
-- reached.
use marketblocks.Prelude.{Bytes}
use marketblocks.Common.Text.{codes}

pub data ExchangeStatus : Type 0 where
  online maintenance cancel_only limit_only post_only offline : ExchangeStatus

unfoldable pub exchange_status_to_string : ExchangeStatus → Bytes
exchange_status_to_string online = codes "Online"
exchange_status_to_string maintenance = codes "Maintenance"
exchange_status_to_string cancel_only = codes "Cancel Only"
exchange_status_to_string limit_only = codes "Limit Only"
exchange_status_to_string post_only = codes "Post Only"
exchange_status_to_string offline = codes "Offline"
