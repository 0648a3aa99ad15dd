-- ===== src/AmqpClient/Age.antt =====
-- src/AMQPclient.cpp, `on_message`: whether the data of a message is older than what is stored.
use s_ldm.Common.{
  ℕ, ◌+◌, ◌-◌, ◌%◌, ◌^◌, ◌≡◌, ◌∙◌, Bool, true, false, ◌&&◌, ◌||◌, ltb, arith, ◌<◌, ◌≤◌,
}
use s_ldm.Common.Int.{pos, negsuc, ltb_ℤ, sub_ℤ, signed_64}

-- the condition on the `gap`, a difference of two `long long int`; 300000 milliseconds are five
-- minutes
unfoldable pub is_too_old : (gn_timestamp stored : ℕ) → Bool
is_too_old gn_timestamp stored =
    let gap = sub_ℤ (signed_64 gn_timestamp) (signed_64 stored) in
    (ltb stored gn_timestamp && ltb_ℤ (pos 300_000) gap)
    || (ltb gn_timestamp stored && ltb_ℤ (negsuc 299_999) gap)

-- the test on numbers that are far from the sign bit
is_too_old_small :
    (rx stored : ℕ)
    → rx < 2 ^ 32
    → stored < 2 ^ 32
    → is_too_old rx stored
      ≡ (ltb (stored + 300_000) rx || (ltb rx stored && ltb stored (rx + 300_000)))
unfolding is_too_old
is_too_old_small rx stored p q = ground arith

-- The age check follows the cyclic timestamps of GeoNetworking, also where they start again: data
-- that is newer than the stored one by at most five minutes, or of the same time, is kept, and data
-- that is older by less than five minutes is found to be too old.
pub is_too_old_lem :
    (stored k j : ℕ)
    → stored < 2 ^ 32
    → k ≤ 300_000
    → 0 < j
    → j < 300_000
    → (is_too_old ((stored + k) % 2 ^ 32) stored ≡ false)
      × (is_too_old ((stored + 2 ^ 32 - j) % 2 ^ 32) stored ≡ true)
is_too_old_lem stored k j h a b c = (
  is_too_old_small ((stored + k) % 2 ^ 32) stored (omega arith) h ∙ ground arith,
  is_too_old_small ((stored + 2 ^ 32 - j) % 2 ^ 32) stored (omega arith) h ∙ ground arith,
)
