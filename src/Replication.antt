-- ===== src/Replication.antt =====
-- replication/replication.cpp: the state of replication and its commands.
use true_store.Base.{
  ℕ, ◌+◌, ◌-◌, ◌*◌, Option, some, List, [], ◌∷◌, ◌++◌, ltb, if◌then◌else◌, length, ℤ, pos, pos_part,
}
use true_store.Text.{Bytes, codes, crlf}
use true_store.Text.Decimal.{to_string, to_string_ℤ}
use true_store.Resp.{simple_string, bulk_string, to_bytes}
use true_store.Platform.{Platform}
use true_store.Text.Parse.{stoll}
use true_store.Store.Types.{wait_block, Store, arity_error, not_integer}
use true_store.Config.{Config}

-- The digits of `hex_to_bytes`, which is called on a constant of lower-case digits only.
unfoldable pub hex_value : ℕ → ℕ
hex_value c = if ltb c 58 then c - 48 else c - 87

unfoldable pub hex_to_bytes : Bytes → Bytes
hex_to_bytes (a ∷ b ∷ s) = (hex_value a * 16 + hex_value b) ∷ hex_to_bytes s
hex_to_bytes _ = []

abbrev pub empty_rdb_hex : Bytes
empty_rdb_hex =
    codes "524544495330303131fa0972656469732d76657205372e322e30fa0a7265646973"
    ++ (codes "2d62697473c040fa056374696d65c26d08bc65fa08757365642d6d656dc2b0c410"
        ++ codes "00fa08616f662d62617365c000fff06e3bfec0ff5aa2")

module _ {P : Platform} where
  -- `generate_replid` draws `replid`, 40 hexadecimal digits, at random.
  unfoldable pub init_replication : Bytes → Config → Store P → Store P
  init_replication replid config s = record s {
    is_replica = config.is_replica;
    master_host = config.master_host;
    master_port = config.master_port;
    master_replid = replid;
    master_repl_offset = pos 0;
  }

  unfoldable pub handle_replconf : List Bytes → Store P → Bytes × Store P
  handle_replconf args s = (to_bytes (simple_string (codes "OK")), s)

  -- WAIT with its numbers read.
  unfoldable pub wait_parsed : Option ℤ → Option ℤ → Store P → Bytes × Store P
  wait_parsed (some numreplicas) (some timeout_ms) s = (
    [],
    record s {
      pending_block = some (record {
        kind = wait_block;
        keys = [];
        ids = [];
        count = pos_part numreplicas;
        timeout = P.seconds_of_ms timeout_ms;
      });
    },
  )
  wait_parsed _ _ s = (not_integer, s)

  unfoldable pub handle_wait : List Bytes → Store P → Bytes × Store P
  handle_wait (_ ∷ numreplicas ∷ timeout ∷ []) s = wait_parsed (stoll numreplicas) (stoll timeout) s
  handle_wait _ s = (arity_error "wait", s)

  unfoldable pub full_resync : Store P → Bytes
  full_resync s =
      codes "FULLRESYNC " ++ (s.master_replid ++ (b' ' ∷ to_string_ℤ s.master_repl_offset))

  unfoldable pub handle_psync : List Bytes → Store P → Bytes × Store P
  handle_psync args s =
      let rdb = hex_to_bytes empty_rdb_hex in
      (
        to_bytes (simple_string (full_resync s))
            ++ (b'$' ∷ (to_string (length rdb) ++ (crlf ++ rdb))),
        s,
      )

  -- The lines on the primary, which only a replica has.
  unfoldable pub info_role : Store P → Bytes
  info_role s =
      if s.is_replica
      then codes "role:slave\r\n"
        ++ ((codes "master_host:" ++ (s.master_host ++ crlf))
            ++ (codes "master_port:" ++ (to_string_ℤ s.master_port ++ crlf)))
      else codes "role:master\r\n"

  unfoldable pub handle_info : List Bytes → Store P → Bytes × Store P
  handle_info args s = (
    to_bytes (
        bulk_string (
          codes "# Replication\r\n"
          ++ (info_role s
              ++ ((codes "master_replid:" ++ (s.master_replid ++ crlf))
                  ++ (codes "master_repl_offset:"
                      ++ (to_string_ℤ s.master_repl_offset ++ crlf)))))),
    s,
  )
