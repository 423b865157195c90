-- ===== src/Net/Socket/Slow.antt =====
-- A socket that moves at most three bytes at a time, for the runs of the parts that use a socket.
use opendisplay_win.Common.{
  ℕ, ◌<◌, ◌++◌, Bytes, length, take, drop, take-append-drop, length-take, refl, arith,
}
use opendisplay_win.Net.Socket.{Socket, IsStream}
use Prim.Native.Nat.{min}

-- What is still to arrive, and what has gone out.
pub record Pipe : Type 0 where
  pub incoming : Bytes
  pub outgoing : Bytes

abbrev pub slow : Socket
slow = record {
  State = Pipe;
  recv = λ n p. (take (min n 3) p.incoming, record p { incoming = drop (min n 3) p.incoming });
  send =
      λ b p. (length (take 3 b), record p { outgoing = p.outgoing ++ take (length (take 3 b)) b });
}

pub take_positive : (n : ℕ) (b : Bytes) → 0 < n → 0 < length b → 0 < length (take (min n 3) b)
take_positive n b hn hb = omega (arith, length-take (min n 3) b)

unfoldable pub slow-IsStream : IsStream slow
slow-IsStream = record {
  pending = λ p. p.incoming;
  sent = λ p. p.outgoing;
  recv_bound = λ n p. omega (arith, length-take (min n 3) p.incoming);
  recv_order = λ n p. take-append-drop (min n 3) p.incoming;
  recv_more = λ n p. take_positive n p.incoming;
  send_bound = λ b p. omega (arith, length-take 3 b);
  send_order = λ b p. refl;
  send_more = λ b p h. omega (arith, length-take 3 b);
}
