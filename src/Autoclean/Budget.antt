-- ===== src/Autoclean/Budget.antt =====
-- internal/autoclean/budget.go: the cap on the bytes of one tick, in int64 arithmetic.
use noo_noo.Common.{Bool, arith, false, if◌then◌else◌, true, ℕ, ◌*◌, ◌<◌, ◌↔◌, ◌≡◌}
use noo_noo.Common.Int.{
  add64, ltb_ℤ, mul64, negsuc, pos, sub64, two63, wrap64, ℤ, ◌*ℤ◌, ◌+ℤ◌, ◌-ℤ◌, ◌<ℤ◌, ◌≤ℤ◌,
}

pub record Budget : Type 0 where
  pub cap_bytes : ℤ
  pub used_bytes : ℤ

abbrev pub clamp_gb : ℤ → ℤ
clamp_gb (pos n) = pos n
clamp_gb (negsuc n) = pos 0

unfoldable pub new_budget : ℤ → Budget
new_budget gb = record {
  cap_bytes = mul64 (mul64 (mul64 (clamp_gb gb) (pos 1024)) (pos 1024)) (pos 1024);
  used_bytes = pos 0;
}

unfoldable pub take_budget : ℤ → Budget → Budget × Bool
take_budget bytes b =
    if ltb_ℤ bytes (pos 0)
    then (b, false)
    else if ltb_ℤ b.cap_bytes (add64 b.used_bytes bytes)
    then (b, false)
    else (record b { used_bytes = add64 b.used_bytes bytes }, true)

unfoldable pub remaining : Budget → ℤ
remaining b = sub64 b.cap_bytes b.used_bytes

-- What a budget keeps: it is not overdrawn, and nothing is below zero.
pub record IsSound (b : Budget) : Type 0 where
  pub used_nonneg : pos 0 ≤ℤ b.used_bytes
  pub used_le_cap : b.used_bytes ≤ℤ b.cap_bytes
  pub cap_fits : b.cap_bytes <ℤ pos two63

-- A charge on a sound budget leaves the cap, keeps the budget sound, and either is refused with
-- the budget unchanged or adds exactly its bytes; it is accepted exactly where it is not negative
-- and fits, if the cap and the charge together stay an int64.
pub take_budget-IsSound :
    (bytes : ℤ) (b : Budget)
    → IsSound b
    → b.cap_bytes +ℤ bytes <ℤ pos two63
    → IsSound (take_budget bytes b).0
      × ((take_budget bytes b).0.cap_bytes ≡ b.cap_bytes)
      × ((take_budget bytes b).0.used_bytes
          ≡ (if (take_budget bytes b).1 then b.used_bytes +ℤ bytes else b.used_bytes))
      × (((take_budget bytes b).1 ≡ true)
          ↔ ((pos 0 ≤ℤ bytes) × (b.used_bytes +ℤ bytes ≤ℤ b.cap_bytes)))
unfolding take_budget add64 wrap64 ◌+ℤ◌
take_budget-IsSound bytes b v h = ground arith

-- A sound budget accepts any int64 charge that carries its sum past the largest int64, however
-- small the cap, and then counts a negative use.
pub take_budget_overflow :
    (bytes : ℕ) (b : Budget)
    → IsSound b
    → bytes < two63
    → pos two63 ≤ℤ b.used_bytes +ℤ pos bytes
    → ((take_budget (pos bytes) b).1 ≡ true) × ((take_budget (pos bytes) b).0.used_bytes <ℤ pos 0)
unfolding take_budget add64 wrap64 ◌+ℤ◌
take_budget_overflow bytes b v h k = ground arith

-- A cap of fewer than 2^33 GiB gives a sound budget with exactly that cap and nothing used.
pub new_budget-IsSound :
    (gb : ℕ)
    → gb < 8589934592
    → IsSound (new_budget (pos gb)) × (remaining (new_budget (pos gb)) ≡ pos (gb * 1073741824))
unfolding new_budget mul64 wrap64 ◌*ℤ◌ remaining sub64 ◌-ℤ◌
new_budget-IsSound gb h = ground arith

pub new_budget_cap :
    (gb : ℕ) → gb < 8589934592 → (new_budget (pos gb)).cap_bytes ≡ pos (gb * 1073741824)
unfolding new_budget mul64 wrap64 ◌*ℤ◌
new_budget_cap gb h = ground arith
