-- ===== src/MemoryDao/Expiry.antt =====
-- What a reader of the store sees, and until when.
use nebula_id.Prelude.{ℕ, ◌+◌, ◌*◌, ◌≡◌, refl, false, none, some, arith, ◌==◌, if◌then◌else◌, leb}
use nebula_id.Prelude.Assoc.{put, remove, get-put, get-remove}
use nebula_id.MemoryDao.Glob.{Text, text_eq, same_text}
use nebula_id.MemoryDao.{
  Store, Entry, done, is_expired, expiry, live, fetch, store_value, nanos_per_second, rename,
}

-- A reader is given the text that was stored last at the key as long as the time to live has not passed,
-- or for ever if that is 0, and nothing from then on; what is read at other keys is not changed.
pub fetch-store_value :
    (now later : ℕ) (key other value : Text) (ttl_seconds : ℕ) (store : Store)
    → fetch later other (store_value now key value ttl_seconds store) ≡ (
        if same_text key other
        then (if ttl_seconds == 0
            then some value
            else if leb (now + ttl_seconds * nanos_per_second) later
            then none
            else some value)
        else fetch later other store)
unfolding fetch live store_value is_expired expiry
fetch-store_value now later key other value ttl_seconds store =
    ground (
      arith,
      get-put key other (record { value = value; expire_at = expiry now ttl_seconds }) store,
    )

live_unexpired :
    (now : ℕ) (key : Text) (entry : Entry) (store : Store)
    → live now key store ≡ some entry
    → is_expired now entry ≡ false
unfolding live
live_unexpired now key entry store found = ground arith

fetch_moved :
    (now : ℕ) (old_key new_key other : Text) (entry : Entry) (store : Store)
    → is_expired now entry ≡ false
    → fetch now other (remove old_key (put new_key entry store)) ≡ (
        if same_text old_key other
        then none
        else if same_text new_key other
        then some entry.value
        else fetch now other store)
unfolding fetch live
fetch_moved now old_key new_key other entry store fresh =
    ground
      (arith, get-remove old_key other (put new_key entry store), get-put new_key other entry store)

-- A renamed text is read at the new key and no longer at the old one, and what is read at other keys is
-- not changed, where the old key is live; where the two keys are the same, the text is lost.
pub fetch-rename :
    (now : ℕ) (old_key new_key other : Text) (entry : Entry) (store : Store)
    → live now old_key store ≡ some entry
    → (store' : Store) × (rename now old_key new_key store ≡ done store')
      × (fetch now other store' ≡ (
          if same_text old_key other
          then none
          else if same_text new_key other
          then some entry.value
          else fetch now other store))
unfolding rename
fetch-rename now old_key new_key other entry store found = (
  remove old_key (put new_key entry store),
  rw (found, rename) refl,
  fetch_moved now old_key new_key other entry store (live_unexpired now old_key entry store found),
)
