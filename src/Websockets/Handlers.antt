-- ===== src/Websockets/Handlers.antt =====
-- exchanges/websockets/websocket_stream.cpp: the handlers of a stream. A handler is a call
-- on the state `S` of the program that it belongs to.
use marketblocks.Prelude.{Bool, true, false, not, List, [], ◌∷◌, ◌++◌, if◌then◌else◌}
use marketblocks.Common.Run.{Run, returns, and_then}

abbrev pub Handler : Type 0 → Type 0 → Type 0
Handler S M = M → S → Run S (Unit {0})

-- `TM`, `OM` and `BM` are the messages of trades, of candles and of books.
pub record StreamHandlers (S TM OM BM : Type 0) : Type 0 where
  pub trade_update_handlers : List (Handler S TM)
  pub ohlcv_update_handlers : List (Handler S OM)
  pub order_book_update_handlers : List (Handler S BM)

-- `empty()`
abbrev pub is_empty : {A : Type 0} → List A → Bool
is_empty [] = true
is_empty (x ∷ xs) = false

module _ {S M : Type 0} where
  -- A handler that throws keeps the later ones from being called.
  unfoldable pub fire_handlers : List (Handler S M) → M → S → Run S (Unit {0})
  fire_handlers [] message s = returns tt s
  fire_handlers (handler ∷ handlers) message s =
      and_then (handler message s) λ u t. fire_handlers handlers message t

  abbrev pub fire : List (Handler S M) → M → S → Run S (Unit {0})
  fire handlers message s =
      if not (is_empty handlers) then fire_handlers handlers message s else returns tt s

module _ {S TM OM BM : Type 0} where
  unfoldable pub add_trade_update_handler :
      Handler S TM → StreamHandlers S TM OM BM → StreamHandlers S TM OM BM
  add_trade_update_handler handler h = record h {
    trade_update_handlers = h.trade_update_handlers ++ (handler ∷ []);
  }

  unfoldable pub add_ohlcv_update_handler :
      Handler S OM → StreamHandlers S TM OM BM → StreamHandlers S TM OM BM
  add_ohlcv_update_handler handler h = record h {
    ohlcv_update_handlers = h.ohlcv_update_handlers ++ (handler ∷ []);
  }

  unfoldable pub add_order_book_update_handler :
      Handler S BM → StreamHandlers S TM OM BM → StreamHandlers S TM OM BM
  add_order_book_update_handler handler h = record h {
    order_book_update_handlers = h.order_book_update_handlers ++ (handler ∷ []);
  }

  unfoldable pub has_trade_update_handler : StreamHandlers S TM OM BM → Bool
  has_trade_update_handler h = not (is_empty h.trade_update_handlers)

  unfoldable pub has_ohlcv_update_handler : StreamHandlers S TM OM BM → Bool
  has_ohlcv_update_handler h = not (is_empty h.ohlcv_update_handlers)

  unfoldable pub has_order_book_update_handler : StreamHandlers S TM OM BM → Bool
  has_order_book_update_handler h = not (is_empty h.order_book_update_handlers)

  unfoldable pub fire_trade_update : StreamHandlers S TM OM BM → TM → S → Run S (Unit {0})
  fire_trade_update h = fire h.trade_update_handlers

  unfoldable pub fire_ohlcv_update : StreamHandlers S TM OM BM → OM → S → Run S (Unit {0})
  fire_ohlcv_update h = fire h.ohlcv_update_handlers

  unfoldable pub fire_order_book_update : StreamHandlers S TM OM BM → BM → S → Run S (Unit {0})
  fire_order_book_update h = fire h.order_book_update_handlers
