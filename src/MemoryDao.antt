-- ===== src/MemoryDao.antt =====
-- src/server/auth/memory_dao.rs: `MemoryGarrisonDao`, a store of texts with expiry times. Its
-- counters are in MemoryDao/Counter.
--
-- Texts are lists of characters' codes. Instants are nanoseconds. The map is an association list, gone
-- through in its order. Each operation holds the lock from start to end, so a history of the store is a
-- sequence of operations; `now` is the reading of the clock.
pub mod Glob
pub mod Expiry
pub mod Decimal
pub mod Counter
pub mod Numbers
pub mod Counting
mod Tests
use nebula_id.Prelude.{
  ℕ, ◌+◌, ◌-◌, ◌*◌, ◌≡◌, Bool, true, false, not, ◌&&◌, List, [], ◌∷◌, Option, none, some, ltb, leb,
  ◌==◌, if◌then◌else◌, length,
}
use nebula_id.Prelude.Assoc.{nat_eq, get, put, remove}
use nebula_id.MemoryDao.Glob.{Text, text_eq, glob_match}

-- `GarrisonError`, with the key or the length that its text names.
pub data DaoError : Type 0 where
  key_expired : Text → DaoError
  key_not_found : Text → DaoError
  key_missing : Text → DaoError
  pattern_too_long : ℕ → DaoError
  incr_parse : Text → DaoError
  incr_overflow : Text → DaoError
  decr_parse : Text → DaoError
  cas_parse : (key : Text) (value : Text) → DaoError

pub data DaoResult (A : Type 0) : Type 0 where
  done : A → DaoResult A
  refused : DaoError → DaoResult A

pub record Entry : Type 0 where
  pub value : Text
  pub expire_at : Option ℕ

abbrev pub Store : Type 0
Store = List (Text × Entry)

abbrev pub nanos_per_second : ℕ
nanos_per_second = 1_000_000_000

unfoldable pub is_expired : ℕ → Entry → Bool
is_expired now entry = elim entry.expire_at [ none ↦ false | some t ↦ leb t now ]

-- `checked_duration_since`
unfoldable pub remaining_ttl : ℕ → Entry → Option ℕ
remaining_ttl now entry = elim entry.expire_at [
  | none ↦ none
  | some t ↦ if ltb t now then none else some (t - now)
]

unfoldable pub expiry : ℕ → ℕ → Option ℕ
expiry now ttl_seconds =
    if ttl_seconds == 0 then none else some (now + ttl_seconds * nanos_per_second)

-- The entry at a key, unless it has expired.
unfoldable pub live : ℕ → Text → Store → Option Entry
live now key store = elim (get key store) [
  | none ↦ none
  | some entry ↦ if is_expired now entry then none else some entry
]

unfoldable pub fetch : ℕ → Text → Store → Option Text
fetch now key store = elim (live now key store) [ none ↦ none | some entry ↦ some entry.value ]

unfoldable pub store_value : ℕ → Text → Text → ℕ → Store → Store
store_value now key value ttl_seconds store =
    put key (record { value = value; expire_at = expiry now ttl_seconds }) store

unfoldable pub store_permanent : Text → Text → Store → Store
store_permanent key value store = put key (record { value = value; expire_at = none }) store

-- What an operation on a key that has to be live fails with.
unfoldable pub not_live : Text → Store → DaoError
not_live key store = elim (get key store) [
  | none ↦ key_not_found key
  | some entry ↦ key_expired key
]

unfoldable pub update : ℕ → Text → Text → Store → DaoResult Store
update now key value store = elim (live now key store) [
  | none ↦ refused (not_live key store)
  | some entry ↦ done (put key (record entry { value = value }) store)
]

unfoldable pub expire : ℕ → Text → ℕ → Store → DaoResult Store
expire now key seconds store = elim (live now key store) [
  | none ↦ refused (not_live key store)
  | some entry ↦ done (put key (record entry { expire_at = expiry now seconds }) store)
]

unfoldable pub delete : Text → Store → Store
delete key store = remove key store

unfoldable pub get_timeout : ℕ → Text → Store → Option ℕ
get_timeout now key store = elim (live now key store) [
  | none ↦ none
  | some entry ↦ remaining_ttl now entry
]

unfoldable pub get_with_ttl : ℕ → Text → Store → Option (Text × Option ℕ)
get_with_ttl now key store = elim (live now key store) [
  | none ↦ none
  | some entry ↦ some (entry.value, remaining_ttl now entry)
]

unfoldable pub matching : ℕ → Text → Store → List Text
matching now pattern [] = []
matching now pattern ((key, entry) ∷ store) =
    if not (is_expired now entry) && glob_match pattern key
    then key ∷ matching now pattern store
    else matching now pattern store

-- `len` counts bytes, and so do codes where the pattern is ASCII.
unfoldable pub keys : ℕ → Text → Store → DaoResult (List Text)
keys now pattern store =
    if ltb 256 (length pattern)
    then refused (pattern_too_long (length pattern))
    else done (matching now pattern store)

unfoldable pub rename : ℕ → Text → Text → Store → DaoResult Store
rename now old_key new_key store = elim (live now old_key store) [
  | none ↦ refused (key_missing old_key)
  | some entry ↦ done (
      remove old_key
        (put new_key (record { value = entry.value; expire_at = entry.expire_at }) store))
]

unfoldable pub get_and_delete : ℕ → Text → Store → Option Text × Store
get_and_delete now key store = (fetch now key store, remove key store)
