-- ===== src/Engine/BigInt/Carry.antt =====
-- The carries of the limb loops of .backup/quickjs.c as equations between integers.
use cno_cli.Base.{ℕ, ◌+◌, ◌*◌, ◌≤◌, ◌≡◌, arith}
use cno_cli.Engine.BigInt.Limbs.{addc, subc}
use cno_cli.Engine.BigInt.Value.{IsLimb}

pub addc_lem :
    (x y k : ℕ)
    → IsLimb x
    → IsLimb y
    → k ≤ 1
    → ((addc x y k).0 + 4294967296 * (addc x y k).1 ≡ x + y + k)
      × IsLimb (addc x y k).0
      × ((addc x y k).1 ≤ 1)
unfolding addc
addc_lem x y k hx hy hk = ground arith

pub subc_lem :
    (x y k : ℕ)
    → IsLimb x
    → IsLimb y
    → k ≤ 1
    → (x + 4294967296 * (subc x y k).1 ≡ (subc x y k).0 + y + k)
      × IsLimb (subc x y k).0
      × ((subc x y k).1 ≤ 1)
unfolding subc
subc_lem x y k hx hy hk = ground arith
