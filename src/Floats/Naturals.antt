-- ===== src/Floats/Naturals.antt =====
-- Natural numbers in the place of floats, for runs at concrete inputs: the laws can be met.
use commandclaw_gateway.Prelude.{ℕ, ◌+◌, ◌-◌, ◌*◌, ◌/◌, ◌^◌, arith, ltb, nat, str, nat-str}
use commandclaw_gateway.Floats.{Floats, IsOrdered, IsPrinted}

abbrev pub naturals : Floats
naturals = record {
  Float = ℕ;
  zero = 0;
  inf = 1000000000;
  add = ◌+◌;
  sub = ◌-◌;
  scale = λ x n. x * 2 ^ n;
  times = ◌*◌;
  mul = ◌*◌;
  div = ◌/◌;
  of_nat = λ n. n;
  floor = λ n. n;
  round_8 = λ n. n;
  lt = ltb;
  parse = nat;
  print = str;
}

pub naturals-IsOrdered : IsOrdered naturals
naturals-IsOrdered = record { lt_irrefl = λ a. ground arith; lt_trans = λ a b c h k. ground arith }

pub naturals-IsPrinted : IsPrinted naturals
naturals-IsPrinted = nat-str
