-- ===== src/Types/UniqueId.antt =====
-- src/core/types/id.rs: the 128-bit `UniqueId`, its conversions, and the test by which `Display` chooses
-- between the UUID and the decimal form.
use nebula_id.Prelude.{ℕ, ◌%◌, Bool, ◌||◌, ◌==◌, shr}

pub record UniqueId : Type 0 where
  pub value : ℕ  -- u128

abbrev pub from_u128 : ℕ → UniqueId
from_u128 v = record { value = v }

abbrev pub as_u128 : UniqueId → ℕ
as_u128 i = i.value

-- `(self.0 >> 76) & 0xF`, then the comparison with 7 and 4.
unfoldable pub shown_as_uuid : UniqueId → Bool
shown_as_uuid i = let version_bits = shr i.value 76 % 16 in version_bits == 7 || version_bits == 4
