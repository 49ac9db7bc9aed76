-- ===== src/Strings/Reads.antt =====
-- What GET, TYPE and STRLEN see of a SET.
use true_store.Base.{◌≡◌, ◌≢◌, [], ◌∷◌, arith, length, pos}
use true_store.Text.{Bytes}
use true_store.Text.Equality.{eq_iff, eq_refl}
use true_store.Dict.{find, insert, find-insert, find-erase, find-insert_self, find-erase_self}
use true_store.Resp.{simple_string, bulk_string, integer, to_bytes}
use true_store.Platform.{Platform, Now}
use true_store.Store.Types.{Store, type_string, type_name}
use true_store.Store.{is_expired, live_type, key_type, peek, handle_type}
use true_store.Strings.{
  assign, handle_set, bulk_or_null, handle_get, handle_strlen, wrong_string_type,
}
use true_store.Store.Expiry.{visible}

-- After SET of three arguments, at whatever later time and whatever the store held before, GET of
-- the key replies with the value, TYPE with "string" and STRLEN with the number of bytes.
set_visible :
    {P : Platform} (now later : Now) (c d key value : Bytes) (s : Store P)
    → let t = (handle_set now (c ∷ key ∷ value ∷ []) s).1 in
      ((handle_get later (d ∷ key ∷ []) t).0 ≡ to_bytes (bulk_string value))
      × ((handle_type later (d ∷ key ∷ []) t).0 ≡ to_bytes (simple_string (type_name type_string)))
      × ((handle_strlen later (d ∷ key ∷ []) t).0 ≡ to_bytes (integer (pos (length value))))
unfolding handle_set handle_get handle_type handle_strlen wrong_string_type key_type live_type
    assign is_expired bulk_or_null
set_visible now later c d key value s =
    ground (arith, find-erase_self key s.expirations, find-insert_self key value s.storage)

-- A write of one key leaves what is visible under another.
pub assign_elsewhere :
    {P : Platform} (later : Now) (key value j : Bytes) (s t : Store P)
    → key ≢ j
    → t.storage ≡ insert key value s.storage
    → find j t.expirations ≡ find j s.expirations
    → visible later t j ≡ visible later s j
unfolding peek is_expired
assign_elsewhere later key value j s t ne e f = ground (
  arith,
  eq_iff key j,
  eq_refl j,
  find-insert j key value s.storage,
  find-erase j j s.storage,
  find-erase j j t.storage,
)
