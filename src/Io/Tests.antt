-- ===== src/Io/Tests.antt =====
-- TcpSinker over system calls that write one byte at a time.
use barcelona.Base.{true}
use barcelona.Io.{Reliable}
use barcelona.Io.TcpSinker.{tcp_sinker, tcp_sinker-Reliable}
use barcelona.Samples.{slow, slow_write-Transfers}

tcp_sinker-Reliable_example : Reliable (tcp_sinker slow true) (λ k. k)
tcp_sinker-Reliable_example = tcp_sinker-Reliable slow (λ k. k) true slow_write-Transfers
