-- ===== src/Sound/Commands.antt =====
-- `dispatch_command` of command/command.cpp, and the invariant of the store.
use true_store.Base.{◌^◌, ◌<◌, ◌≡◌, refl, Option, none, some, List, [], ◌∷◌, arith, if_both}
use true_store.Text.{Bytes, codes, ◌=ᵇ◌, to_upper}
use true_store.Platform.{Platform, Now}
use true_store.Store.Types.{Store}
use true_store.Client.{ClientState}
use true_store.Auth.{handle_acl, handle_auth}
use true_store.Command.{Replied}
use true_store.Command.Handlers.{
  acl_result, auth_result, holds_zset, dispatch_last, dispatch_late, dispatch_checked,
  dispatch_command,
}
use true_store.Sound.{StoreLaws, IsSound, SameParts, SameParts-IsSound}
use true_store.Sound.Frames.{
  same, key_type-Same, type-Same, keys-Same, get-Same, strlen-Same, incr-Same, setbit-Same,
  getbit-Same, bitcount-Same, zrank-Same, zcard-Same, zscore-Same, zrange-Same, geopos-Same,
  geodist-Same, geosearch-Same,
}
use true_store.Sound.Reads.{
  llen-Same, lrange-Same, xrange-Same, xread-Same, info-Same, replconf-Same, psync-Same, wait-Same,
  config-Same, subscribe-Same, unsubscribe-Same, publish-Same,
}
use true_store.Sound.Writes.{set-IsSound, bitop-IsSound}
use true_store.Sound.Structures.{
  zadd-IsSound, zrem-IsSound, rpush-IsSound, lpush-IsSound, lpop-IsSound, blpop-IsSound,
}
use true_store.Sound.Added.{geoadd-IsSound, xadd-IsSound, acl-IsSound}

-- The store behind a reply is sound.
pub record Leaves {P : Platform} (r : Replied P) : Type 0 where
  pub sound : IsSound r.1.1

pub leaves : {P : Platform} (r : Replied P) → IsSound r.1.1 → Leaves r
leaves r h = record { sound = h }

module _ {P : Platform} (laws : StoreLaws P) (now : Now) (small : now.system_ms < 2 ^ 64) where
  module _ (args : List Bytes) (c : ClientState) (s : Store P) (sound : IsSound s) where
    by_frame : (t : Store P) → SameParts s t → IsSound t
    by_frame t h = SameParts-IsSound s t h sound

    last-Leaves : (command : Bytes) → Leaves (dispatch_last now command args c s)
    unfolding dispatch_last
    last-Leaves command =
        if_both Leaves (command =ᵇ codes "TYPE") (leaves _ (by_frame _ (type-Same now args s))) (
          if_both Leaves (command =ᵇ codes "KEYS") (leaves _ (by_frame _ (keys-Same now args s))) (
            if_both Leaves (command =ᵇ codes "XADD")
              (leaves _ (xadd-IsSound P laws.rax now small args s sound))
              (if_both Leaves (command =ᵇ codes "XRANGE")
                (leaves _ (by_frame _ (xrange-Same args s)))
                (if_both Leaves (command =ᵇ codes "XREAD")
                  (leaves _ (by_frame _ (xread-Same args s)))
                  (if_both Leaves (command =ᵇ codes "INCR")
                    (leaves _ (by_frame _ (incr-Same args s)))
                    (if_both Leaves (command =ᵇ codes "INFO")
                      (leaves _ (by_frame _ (info-Same args s)))
                      (if_both Leaves (command =ᵇ codes "REPLCONF")
                        (leaves _ (by_frame _ (replconf-Same args s)))
                        (if_both Leaves (command =ᵇ codes "PSYNC")
                          (leaves _ (by_frame _ (psync-Same args s)))
                          (if_both Leaves (command =ᵇ codes "WAIT")
                            (leaves _ (by_frame _ (wait-Same args s)))
                            (if_both Leaves (command =ᵇ codes "CONFIG")
                              (leaves _ (by_frame _ (config-Same args s)))
                              (leaves _ sound)))))))))))

    late-Leaves : (command : Bytes) → Leaves (dispatch_late now command args c s)
    unfolding dispatch_late
    late-Leaves command = if_both Leaves (command =ᵇ codes "ECHO") (leaves _ sound) (
        if_both Leaves (command =ᵇ codes "SET") (leaves _ (set-IsSound now args s sound)) (
          if_both Leaves (command =ᵇ codes "GET") (leaves _ (by_frame _ (get-Same now args s))) (
            if_both Leaves (command =ᵇ codes "STRLEN")
              (leaves _ (by_frame _ (strlen-Same now args s)))
              (if_both Leaves (command =ᵇ codes "SETBIT")
                (leaves _ (by_frame _ (setbit-Same now args s)))
                (if_both Leaves (command =ᵇ codes "GETBIT")
                  (leaves _ (by_frame _ (getbit-Same now args s)))
                  (if_both Leaves (command =ᵇ codes "BITCOUNT")
                    (leaves _ (by_frame _ (bitcount-Same now args s)))
                    (if_both Leaves (command =ᵇ codes "BITOP")
                      (leaves _ (bitop-IsSound now args s sound))
                      (if_both Leaves (command =ᵇ codes "RPUSH")
                        (leaves _ (rpush-IsSound args s sound))
                        (if_both Leaves (command =ᵇ codes "LRANGE")
                          (leaves _ (by_frame _ (lrange-Same args s)))
                          (if_both Leaves (command =ᵇ codes "LPUSH")
                            (leaves _ (lpush-IsSound args s sound))
                            (if_both Leaves (command =ᵇ codes "LLEN")
                              (leaves _ (by_frame _ (llen-Same args s)))
                              (if_both Leaves (command =ᵇ codes "LPOP")
                                (leaves _ (lpop-IsSound args s sound))
                                (if_both Leaves (command =ᵇ codes "BLPOP")
                                  (leaves _ (blpop-IsSound args s sound))
                                  (last-Leaves command))))))))))))))

    acl-Leaves : Leaves (acl_result c s (handle_acl args s))
    acl-Leaves = by_result (handle_acl args s) (acl-IsSound laws.digest args s sound)
      where
        by_result :
            (r : Option (Bytes × Store P))
            → ((bytes : Bytes) (t : Store P) → r ≡ some (bytes, t) → IsSound t)
            → Leaves (acl_result c s r)
        by_result none h = leaves _ sound
        by_result (some (bytes, t)) h = leaves _ (h bytes t refl)

    auth-Leaves : Leaves (auth_result c s (handle_auth args c s))
    auth-Leaves = by_result (handle_auth args c s)
      where
        by_result : (r : Option (Bytes × ClientState)) → Leaves (auth_result c s r)
        by_result none = leaves _ sound
        by_result (some (bytes, d)) = leaves _ sound

  holds_zset-Same :
      (command : Bytes) (args : List Bytes) (s : Store P)
      → SameParts s (holds_zset now command args s).1
  unfolding holds_zset
  holds_zset-Same command (w ∷ key ∷ rest) s = ground (arith, key_type-Same now key s)
  holds_zset-Same command [] s = same s
  holds_zset-Same command (w ∷ []) s = same s

  checked-Leaves :
      (command : Bytes) (args : List Bytes) (c : ClientState) (s : Store P)
      → IsSound s
      → Leaves (dispatch_checked now command args c s)
  unfolding dispatch_checked
  checked-Leaves command args c s sound =
      let t = (holds_zset now command args s).1 in
      let kept = SameParts-IsSound s t (holds_zset-Same command args s) sound in
      if_both Leaves (holds_zset now command args s).0 (leaves _ kept)
        (late-Leaves args c t kept command)

  -- Whatever the name and the arguments of a command.
  pub dispatch-Leaves :
      (args : List Bytes) (c : ClientState) (s : Store P)
      → IsSound s
      → Leaves (dispatch_command now args c s)
  unfolding dispatch_command
  dispatch-Leaves [] c s sound = leaves _ sound
  dispatch-Leaves (word ∷ rest) c s sound =
      let args : List Bytes = word ∷ rest in
      let frame = by_frame args c s sound in
      if_both Leaves (to_upper word =ᵇ codes "ACL") (acl-Leaves args c s sound) (
        if_both Leaves (to_upper word =ᵇ codes "AUTH") (auth-Leaves args c s sound) (
          if_both Leaves (to_upper word =ᵇ codes "PING") (leaves _ sound) (
            if_both Leaves (to_upper word =ᵇ codes "SUBSCRIBE")
              (leaves _ (frame _ (subscribe-Same args c s)))
              (if_both Leaves (to_upper word =ᵇ codes "UNSUBSCRIBE")
                (leaves _ (frame _ (unsubscribe-Same args c s)))
                (if_both Leaves (to_upper word =ᵇ codes "PUBLISH")
                  (leaves _ (frame _ (publish-Same args s)))
                  (if_both Leaves (to_upper word =ᵇ codes "ZADD")
                    (leaves _ (zadd-IsSound laws.doubles now args s sound))
                    (if_both Leaves (to_upper word =ᵇ codes "ZRANK")
                      (leaves _ (frame _ (zrank-Same now args s)))
                      (if_both Leaves (to_upper word =ᵇ codes "ZRANGE")
                        (leaves _ (frame _ (zrange-Same now args s)))
                        (if_both Leaves (to_upper word =ᵇ codes "ZCARD")
                          (leaves _ (frame _ (zcard-Same now args s)))
                          (if_both Leaves (to_upper word =ᵇ codes "ZSCORE")
                            (leaves _ (frame _ (zscore-Same now args s)))
                            (if_both Leaves (to_upper word =ᵇ codes "ZREM")
                              (leaves _ (zrem-IsSound laws.doubles now args s sound))
                              (if_both Leaves (to_upper word =ᵇ codes "GEOADD")
                                (leaves _
                                  (geoadd-IsSound P laws.doubles laws.number now args s sound))
                                (if_both Leaves (to_upper word =ᵇ codes "GEOPOS")
                                  (leaves _ (frame _ (geopos-Same now args s)))
                                  (if_both Leaves (to_upper word =ᵇ codes "GEODIST")
                                    (leaves _ (frame _ (geodist-Same now args s)))
                                    (if_both Leaves (to_upper word =ᵇ codes "GEOSEARCH")
                                      (leaves _ (frame _ (geosearch-Same now args s)))
                                      (checked-Leaves (to_upper word) args c s sound))))))))))))))))
