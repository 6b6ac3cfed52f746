-- ===== src/Exchanges/Digifinex/Messages.antt =====
-- exchanges/digifinex/digifinex_results.cpp: what the error codes say.
use marketblocks.Prelude.{
  ℤ, pos, negsuc, Bytes, Option, none, some, [], ◌∷◌, ◌++◌, Map, lookup, int_equality,
}
use marketblocks.Common.Text.{codes}
use marketblocks.Common.Strings.{int_to_string}

abbrev pub error_messages : Map ℤ Bytes
error_messages =
    (pos 10001, codes "Wrong request method, please check it's a GET or POST request")
    ∷ (pos 10002, codes "Invalid ApiKey")
    ∷ (pos 10003, codes "Sign doesn't match")
    ∷ (pos 10004, codes "Illegal request parameters")
    ∷ (pos 10005, codes "Request frequency exceeds the limit")
    ∷ (pos 10006, codes "Unauthorized to execute this request")
    ∷ (pos 10007, codes "IP address Unauthorized")
    ∷ (pos 10008, codes "Timestamp for this request is invalid")
    ∷ (pos 10009, codes "Endpoint does not exist or missing ACCESS-KEY, please check endpoint URL")
    ∷ (pos 10011, codes "ApiKey expired. Please go to client side to re-create an ApiKey")
    ∷ (pos 20002, codes "Trade of this trading pair is suspended")
    ∷ (pos 20007, codes "Price precision error")
    ∷ (pos 20008, codes "Amount precision error")
    ∷ (pos 20009, codes "Amount is less than the minimum requirement")
    ∷ (pos 20010, codes "Cash Amount is less than the minimum requirement")
    ∷ (pos 20011, codes "Insufficient balance")
    ∷ (pos 20012, codes "Invalid trade type (valid value: buy/sell)")
    ∷ (pos 20013, codes "No order info found")
    ∷ (pos 20014, codes "Invalid date (Valid format: 2018-07-25)")
    ∷ (pos 20015, codes "Date exceeds the limit")
    ∷ (pos 20018, codes "Your have been banned for API trading by the system")
    ∷ (
      pos 20019,
      codes "Wrong trading pair symbol, correct format:\"base_quote\", e.g. \"btc_usdt\"",
    )
    ∷ (
      pos 20020,
      codes
          "You have violated the API trading rules and temporarily banned for trading. At present, we have certain restrictions on the user's transaction rate and withdrawal rate.",
    )
    ∷ (pos 20021, codes "Invalid currency")
    ∷ (pos 20022, codes "The ending timestamp must be larger than the starting timestamp")
    ∷ (pos 20023, codes "Invalid transfer type")
    ∷ (pos 20024, codes "Invalid amount")
    ∷ (pos 20025, codes "This currency is not transferable at the moment")
    ∷ (pos 20026, codes "Transfer amount exceed your balance")
    ∷ (pos 20027, codes "Abnormal account status")
    ∷ (pos 20028, codes "Blacklist for transfer")
    ∷ (pos 20029, codes "Transfer amount exceed your daily limit")
    ∷ (pos 20030, codes "You have no position on this trading pair")
    ∷ (pos 20032, codes "Withdrawal limited")
    ∷ (pos 20033, codes "Wrong Withdrawal ID")
    ∷ (pos 20034, codes "Withdrawal service of this crypto has been closed")
    ∷ (pos 20035, codes "Withdrawal limit")
    ∷ (pos 20036, codes "Withdrawal cancellation failed")
    ∷ (
      pos 20037,
      codes
          "The withdrawal address, Tag or chain type is not included in the withdrawal management list",
    )
    ∷ (pos 20038, codes "The withdrawal address is not on the white list")
    ∷ (pos 20039, codes "Can't be canceled in current status")
    ∷ (pos 20040, codes "Withdraw too frequently; limitation: 3 times a minute, 100 times a day")
    ∷ (pos 20041, codes "Beyond the daily withdrawal limit")
    ∷ (pos 20042, codes "Current trading pair does not support API trading")
    ∷ (pos 50000, codes "Exception error")
    ∷ (negsuc 99998, codes "This is an error")
    ∷ []

abbrev or_unknown : ℤ → Option Bytes → Bytes
or_unknown code none = codes "Unknown error occured. Error code: " ++ int_to_string code
or_unknown code (some message) = message

unfoldable pub get_error_message : ℤ → Bytes
unfolding lookup
get_error_message code = or_unknown code (lookup code error_messages)
