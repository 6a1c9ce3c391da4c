-- ===== src/Network/Socket/Timeout.antt =====
-- A receive timeout is not the end of a read.
use forgechain.Prelude.{ℕ, zero, suc, ◌≡◌, refl, replicate}
use forgechain.Network.Socket.{timed_out, waiting, read_exact}

-- A read that wants a byte goes on after any number of timeouts.
pub read_exact-timed_out : (n k : ℕ) → read_exact (suc n) (replicate k timed_out) ≡ waiting
unfolding read_exact
read_exact-timed_out n zero = refl
read_exact-timed_out n (suc k) = read_exact-timed_out n k
