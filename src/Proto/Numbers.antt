-- ===== src/Proto/Numbers.antt =====
-- Numbers on the wire of airs/src/AsciiProtocol.cpp: printed by a stream, read by `std::stoi`.
use airs.Base.{◌≡◌, sym, subst}
use airs.Base.Int.{ℤ}
use airs.Base.Text.{IsWord}
use airs.Base.Decimal.{ok, stoi, IsInt}
use airs.Base.Decimal.RoundTrip.{stoi-decimal, decimal-IsWord}
use airs.Host.{Host, HostLaws}

module _ (h : Host) (l : HostLaws h) where
  pub print_int-IsWord : (z : ℤ) → IsWord (h.print_int z)
  print_int-IsWord z = subst IsWord (sym (l.print_int-decimal z)) (decimal-IsWord z)

  pub stoi-print_int : (z : ℤ) → IsInt z → stoi (h.print_int z) ≡ ok z
  stoi-print_int z i = rw (l.print_int-decimal z) (stoi-decimal z i)
