-- ===== src/Exchanges/Kraken/Stream/Messages.antt =====
-- exchanges/kraken/kraken_websocket.cpp: `on_message`, and the functions for each kind of message.
use marketblocks.Prelude.{Bytes, eqb, ◌==◌, bytes_equality, nat_equality, if◌then◌else◌}
use marketblocks.Double.{Double}
use marketblocks.Common.Text.{codes}
use marketblocks.Common.Strings.{contains}
use marketblocks.Common.Run.{Run, returns, and_then, run_each}
use marketblocks.Common.Json.{◌>>=◌, read_in, JsonLibrary, Numerals}
use marketblocks.Trading.Market.{OrderBookSide, ask, bid}
use marketblocks.Websockets.Live.{LiveWorld, LiveHandlers}
use marketblocks.Websockets.Live.Updates.{
  update_trade, update_ohlcv, initialise_order_book, update_order_book,
}
use marketblocks.Exchanges.Kraken.Stream.{
  interval_of, minute_text, from_end, read_trade, read_channel_candle, read_change,
  create_order_book_cache,
}

module _ {J W C S : Type 0} ⦃l : JsonLibrary J⦄ ⦃n : Numerals J W⦄ ⦃d : Double W⦄
    (handlers : LiveHandlers W C S) where
  unfoldable pub process_trade_message :
      Bytes → J → LiveWorld W C S → Run (LiveWorld W C S) (Unit {0})
  unfolding run_each read_trade update_trade
  process_trade_message name json w = and_then (read_in (l.index json 1) w) λ trades w.
      run_each
        (λ item w. and_then (read_in (read_trade item.1) w) λ t w. update_trade handlers name t w)
        (l.items trades) w

  unfoldable pub process_ohlcv_message :
      Bytes → Bytes → J → LiveWorld W C S → Run (LiveWorld W C S) (Unit {0})
  unfolding minute_text interval_of read_channel_candle update_ohlcv
  process_ohlcv_message name channel json w = and_then (read_in (l.index json 1) w) λ candle w.
      and_then (read_in (minute_text channel >>= n.stoi) w) λ minutes w.
        and_then (read_in (read_channel_candle candle) w)
          λ o w. update_ohlcv handlers name (interval_of minutes) o w

  unfoldable pub process_changes :
      Bytes → OrderBookSide → J → LiveWorld W C S → Run (LiveWorld W C S) (Unit {0})
  unfolding run_each read_change update_order_book
  process_changes name side changes w =
      run_each
        (λ item w.
          and_then (read_in (read_change side item.1) w)
            λ change w. update_order_book handlers name change.1 change.0 w)
        (l.items changes) w

  unfoldable pub process_order_book_updates :
      Bytes → J → LiveWorld W C S → Run (LiveWorld W C S) (Unit {0})
  unfolding process_changes
  process_order_book_updates name updates w =
      if l.has_member updates (codes "a")
      then and_then (read_in (l.member updates (codes "a")) w) (process_changes name ask)
      else and_then (read_in (l.member updates (codes "b")) w) (process_changes name bid)

  unfoldable pub process_order_book_message :
      Bytes → J → LiveWorld W C S → Run (LiveWorld W C S) (Unit {0})
  unfolding create_order_book_cache initialise_order_book process_order_book_updates
  process_order_book_message name json w = and_then (read_in (l.index json 1) w) λ first w.
      if eqb (l.size json) 4
      then (if l.has_member first (codes "as")
          then and_then (read_in (create_order_book_cache first) w)
              (initialise_order_book handlers name)
          else process_order_book_updates name first w)
      else and_then (process_order_book_updates name first w)
          λ u w. and_then (read_in (l.index json 2) w) (process_order_book_updates name)

  -- The kinds of messages, told apart by the name of the channel.
  unfoldable pub process_channel_message :
      Bytes → Bytes → J → LiveWorld W C S → Run (LiveWorld W C S) (Unit {0})
  unfolding process_trade_message process_ohlcv_message process_order_book_message contains
  process_channel_message name channel json w =
      if channel == codes "trade"
      then process_trade_message name json w
      else if contains channel (codes "ohlc")
      then process_ohlcv_message name channel json w
      else if contains channel (codes "book")
      then process_order_book_message name json w
      else returns tt w

module _ (J : Type 0) {W C S : Type 0} ⦃l : JsonLibrary J⦄ ⦃n : Numerals J W⦄ ⦃d : Double W⦄
    (handlers : LiveHandlers W C S) where
  unfoldable pub on_message : Bytes → LiveWorld W C S → Run (LiveWorld W C S) (Unit {0})
  unfolding from_end process_channel_message
  on_message message w = and_then (read_in (l.parse message) w) λ json w.
      if l.is_array json
      then (and_then (read_in (from_end json 2 >>= l.get_string) w) λ channel w.
          and_then (read_in (from_end json 1 >>= l.get_string) w)
            λ name w. process_channel_message handlers name channel json w)
      else returns tt w
