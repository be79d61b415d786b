-- ===== src/MemoryDao/Tests.antt =====
-- Runs of src/server/auth/memory_dao.rs, and its theorems at concrete inputs.
use nebula_id.Prelude.{
  ◌+◌, ◌*◌, ◌≡◌, ◌↔◌, refl, true, false, [], ◌∷◌, some, none, if◌then◌else◌, ◌==◌, leb, arith,
}
use nebula_id.Prelude.Assoc.{get}
use nebula_id.MemoryDao.Glob.{text_eq, same_text, glob_match, Matches, glob_match_iff}
use nebula_id.MemoryDao.{Store, fetch, live, is_expired, store_value, nanos_per_second}
use nebula_id.MemoryDao.Numbers.{Operations, increments, decrements, raises, answers, counts}
use nebula_id.MemoryDao.Counting.{operate-counts}
use nebula_id.MemoryDao.Expiry.{fetch-store_value}

-- A text at the key `a`, which expires at 7.
abbrev one_key : Store
one_key = (97 ∷ [], record { value = 98 ∷ []; expire_at = some 7 }) ∷ []

one_key-live : fetch 6 (97 ∷ []) one_key ≡ some (98 ∷ [])
unfolding fetch live is_expired get
one_key-live = refl

one_key-expired : fetch 7 (97 ∷ []) one_key ≡ none
unfolding fetch live is_expired get
one_key-expired = refl

-- `a*?` matches `abc`, and not `a`.
glob_match-run : glob_match (97 ∷ 42 ∷ 63 ∷ []) (97 ∷ 98 ∷ 99 ∷ []) ≡ true
unfolding glob_match
glob_match-run = refl

glob_match-short : glob_match (97 ∷ 42 ∷ 63 ∷ []) (97 ∷ []) ≡ false
unfolding glob_match
glob_match-short = refl

glob_match_iff_example :
    (glob_match (97 ∷ 42 ∷ []) (97 ∷ 98 ∷ []) ≡ true) ↔ Matches (97 ∷ 42 ∷ []) (97 ∷ 98 ∷ [])
glob_match_iff_example = glob_match_iff (97 ∷ 42 ∷ []) (97 ∷ 98 ∷ [])

fetch-store_value_example : fetch 9 (97 ∷ []) (store_value 3 (97 ∷ []) (99 ∷ []) 2 one_key) ≡ (
    if same_text (97 ∷ []) (97 ∷ [])
    then if 2 == 0
      then some (99 ∷ [])
      else if leb (3 + 2 * nanos_per_second) 9
      then none
      else some (99 ∷ [])
    else fetch 9 (97 ∷ []) one_key)
fetch-store_value_example = fetch-store_value 3 9 (97 ∷ []) (97 ∷ []) (99 ∷ []) 2 one_key

abbrev ops : Operations
ops =
    (1, 97 ∷ [], increments)
    ∷ (2, 98 ∷ [], raises 9)
    ∷ (3, 97 ∷ [], increments)
    ∷ (4, 98 ∷ [], increments)
    ∷ (5, 97 ∷ [], decrements)
    ∷ []

operate-counts_example : answers ops [] ≡ counts ops (λ key. 0)
operate-counts_example = operate-counts ops (omega arith, tt)
