-- ===== src/MemoryDao/Counter.antt =====
-- `incr`, `decr` and `compare_and_update_if_greater` of src/server/auth/memory_dao.rs: numbers kept as
-- texts.
use nebula_id.Prelude.{
  ℕ, ◌+◌, ◌-◌, ◌^◌, Bool, true, false, [], ◌∷◌, none, some, if◌then◌else◌, ltb, ◌==◌,
}
use nebula_id.Prelude.Assoc.{put, remove}
use nebula_id.MemoryDao.Glob.{Text, text_eq}
use nebula_id.MemoryDao.Decimal.{to_string, parse}
use nebula_id.MemoryDao.{
  DaoResult, done, refused, incr_parse, incr_overflow, decr_parse, cas_parse, Entry, Store, expiry,
  live,
}

-- A live entry whose text is the number `cur`.
unfoldable pub add_one : Text → Entry → ℕ → Store → DaoResult ℕ × Store
add_one key entry cur store =
    if ltb (cur + 1) (2 ^ 64)
    then (done (cur + 1), put key (record entry { value = to_string (cur + 1) }) store)
    else (refused (incr_overflow key), store)

unfoldable pub incr : ℕ → Text → ℕ → Store → DaoResult ℕ × Store
incr now key ttl_seconds store = elim (live now key store) [
  | none ↦ (done 1, put key (record { value = 49 ∷ []; expire_at = expiry now ttl_seconds }) store)
  | some entry ↦ elim (parse entry.value) [
    | none ↦ (refused (incr_parse key), store)
    | some cur ↦ add_one key entry cur store
  ]
]

unfoldable pub take_one : Text → Entry → ℕ → Store → DaoResult ℕ × Store
take_one key entry cur store =
    if cur == 0
    then (done 0, store)
    else if cur - 1 == 0
    then (done (cur - 1), remove key store)
    else (done (cur - 1), put key (record entry { value = to_string (cur - 1) }) store)

unfoldable pub decr : ℕ → Text → Store → DaoResult ℕ × Store
decr now key store = elim (live now key store) [
  | none ↦ (done 0, store)
  | some entry ↦ elim (parse entry.value) [
    | none ↦ (refused (decr_parse key), store)
    | some cur ↦ take_one key entry cur store
  ]
]

unfoldable pub current_number : ℕ → Text → Store → DaoResult ℕ
current_number now key store = elim (live now key store) [
  | none ↦ done 0
  | some entry ↦ elim (parse entry.value) [
    | none ↦ refused (cas_parse key entry.value)
    | some cur ↦ done cur
  ]
]

unfoldable pub compare_and_update_if_greater : ℕ → Text → ℕ → ℕ → Store → DaoResult Bool × Store
compare_and_update_if_greater now key new_value ttl_seconds store =
    elim (current_number now key store) [
      | refused e ↦ (refused e, store)
      | done current ↦
          if ltb current new_value
          then (
            done true,
            put key (record { value = to_string new_value; expire_at = expiry now ttl_seconds })
                store,
          )
          else (done false, store)
    ]
