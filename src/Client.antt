-- ===== src/Client.antt =====
-- `ClientState` of command/command.hpp.
use true_store.Base.{Bool, Option, List, ℤ}
use true_store.Text.{Bytes}
use true_store.Dict.{Dict}

pub record ClientState : Type 0 where
  pub fd : ℤ
  pub authenticated : Bool
  -- `std::set<std::string>`: a dictionary without values.
  pub subscriptions : Dict (Unit {0})
  pub close_after_reply : Bool
  pub in_multi : Bool
  pub queued : List (List Bytes)
  pub watched : List (Bytes × Option Bytes)
  pub repl_offset : ℤ
